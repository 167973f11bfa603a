-- ===== src/Markets/Creation.antt =====
-- `generate_slug` of backend/app/markets/models.py and `MarketService.create_market` of
-- backend/app/markets/service.py. `slugify` is the package python-slugify.
pub mod Opened
use Prim.Native.String.{◌++◌ as ◌++ₛ◌}
use xpredict.Prelude.{
  ℕ, ◌+◌, ◌-◌, ◌<◌, ◌≡◌, refl, sym, ap, ◌∙◌, ⊤, Bool, true, false, ◌||◌, String, Option, none, some,
  List, [], ◌∷◌, ◌++◌, map, ◌==◌, ==_self, if◌then◌else◌, hex6, text_eq, arith,
}
use xpredict.Money.Errors.{Result, ok, err, unique_violation, unbound_local_error}
use xpredict.Database.Rows.{
  Db, Market, MarketStatus, open_status, house, Outcome, OddsSnapshot, market_created,
}
use xpredict.Session.{Action, pure, raise, gets, raise_if, uuid4, on_unique_violation, ◌>>=◌, ◌>>◌}
use xpredict.Session.Inversion.{
  returned, raise_if-then, gets-then, >>=-eq-ok, on_unique_violation-cases,
}
use xpredict.Ledger.{record_audit}
use xpredict.Settlement.Port.{market?, set_market, write_market}
use xpredict.Markets.{one_odds, snapshot, add_snapshots}

-- `generate_slug`, with the UUID that it draws
abbrev pub generate_slug : (String → String) → String → ℕ → String
generate_slug slugify question id = slugify question ++ₛ "-" ++ₛ hex6 id

-- `MarketCreate`, after its validators: the odds are more than 0 and less than `one_odds`.
pub record MarketCreate : Type 0 where
  pub question : String
  pub resolution_criteria : String
  pub deadline : ℕ
  pub initial_odds_yes : ℕ
  pub category : Option String
  pub min_stake : Option ℕ
  pub max_stake : Option ℕ

abbrev pub slug_taken : String → List Market → Bool
slug_taken slug [] = false
slug_taken slug (m ∷ ms) = text_eq m.slug slug || slug_taken slug ms

-- INSERT INTO markets, whose `slug` is UNIQUE
unfoldable pub insert_market : Market → Action ⊤
insert_market m s =
    if slug_taken m.slug s.markets
    then (err unique_violation, s)
    else (ok tt, record s { markets = s.markets ++ m ∷ [] })

abbrev pub house_market : ℕ → String → MarketCreate → Market
house_market id slug body = record {
  id = id;
  question = body.question;
  slug = slug;
  resolution_criteria = body.resolution_criteria;
  category = body.category;
  source = house;
  source_market_id = none;
  condition_id = none;
  polymarket_slug = none;
  volume = 0;
  volume_24hr = 0;
  status = open_status;
  deadline = body.deadline;
  bet_count = 0;
  closed_at = none;
  uma_resolved_at = none;
  group_id = none;
  group_item_title = none;
  outcomes = [];
  min_stake = body.min_stake;
  max_stake = body.max_stake;
  winning_outcome_id = none;
  resolution_source = none;
  resolution_justification = none;
  resolved_at = none;
}

abbrev pub binary_outcomes : ℕ → ℕ → ℕ → List Outcome
binary_outcomes yes_id no_id odds =
    record { id = yes_id; label = "YES"; initial_odds = odds; current_odds = odds }
    ∷ record {
      id = no_id;
      label = "NO";
      initial_odds = one_odds - odds;
      current_odds = one_odds - odds;
    }
    ∷ []

-- One turn of the loop over three attempts. `session.begin_nested()` flushes what is pending before
-- it opens the SAVEPOINT, so the INSERT runs there and a clash of slugs is raised by it: `nested` is
-- not set yet when the handler reads it. The loop takes no second turn.
abbrev flush_market : Market → Action ⊤
flush_market m = on_unique_violation (insert_market m) (raise unbound_local_error)

add_market : (String → String) → MarketCreate → Action Market
unfolding ◌>>=◌ uuid4 insert_market on_unique_violation pure raise
add_market slugify body = do
  suffix ← uuid4
  id ← uuid4
  flush_market (house_market id (generate_slug slugify body.question suffix) body)
  pure (house_market id (generate_slug slugify body.question suffix) body)

-- The rows that belong to a market which was added.
add_outcomes : ℕ → ℕ → MarketCreate → Market → Action Market
unfolding ◌>>=◌ uuid4 write_market add_snapshots record_audit pure
add_outcomes now admin body m = do
  yes_id ← uuid4
  no_id ← uuid4
  write_market (record m { outcomes = binary_outcomes yes_id no_id body.initial_odds_yes })
  add_snapshots (map (snapshot now m.id) (binary_outcomes yes_id no_id body.initial_odds_yes))
  record_audit (some admin) (market_created m.id body.question)
  pure (record m { outcomes = binary_outcomes yes_id no_id body.initial_odds_yes })

-- `MarketService.create_market`
unfoldable pub create_market : (String → String) → ℕ → ℕ → MarketCreate → Action Market
unfolding ◌>>=◌ add_market add_outcomes
create_market slugify now admin body = do m ← add_market slugify body; add_outcomes now admin body m
