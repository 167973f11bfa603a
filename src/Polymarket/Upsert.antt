-- ===== src/Polymarket/Upsert.antt =====
-- `PolymarketAdapter._upsert_one_market` of backend/app/integrations/polymarket/adapter.py: one market
-- of Gamma is written into the mirror, in a SAVEPOINT of its own. `slugify` is the package
-- python-slugify, and `decimal` Python's `Decimal` on a text. `now` is `datetime.now(UTC)`.
pub mod Status
use Prim.Native.String.{◌++◌ as ◌++ₛ◌}
use xpredict.Prelude.{
  ℕ, zero, suc, ◌+◌, ⊤, Bool, true, false, ◌&&◌, String, Option, none, some, List, [], ◌∷◌, ◌++◌,
  ltb, leb, ◌==◌, if◌then◌else◌, where_rows, length, text_eq, is_text, first_chars,
}
use xpredict.Prelude.Int.{ℤ, pos, negsuc}
use xpredict.Money.Errors.{
  Error, Result, ok, err, unique_violation, check_violation, foreign_key_violation,
  invalid_operation, multiple_results,
}
use xpredict.Database.Rows.{Db, Market, MarketSource, polymarket, Outcome}
use xpredict.Session.{Action, pure, raise, gets, lift, raise_if, uuid4, ◌>>=◌, ◌>>◌}
use xpredict.Events.{is_polymarket}
use xpredict.Markets.{OddsDelta, delta, one_odds}
use xpredict.Markets.Creation.{generate_slug, slug_taken}
use xpredict.Polymarket.Gamma.{GammaMarket, internal_status}

-- What `Decimal` makes of a text, in millionths, the scale of the column that it goes to.
pub data Price : Type 0 where
  number : ℤ → Price
  not_finite not_a_number : Price

abbrev pub same_text : Option String → String → Bool
same_text none x = false
same_text (some y) x = text_eq y x

-- The conflict target of the INSERT: (source, source_market_id).
abbrev pub is_mirror_of : String → Market → Bool
is_mirror_of x m = is_polymarket m.source && same_text m.source_market_id x

abbrev pub mirrored? : String → List Market → Option Market
mirrored? x [] = none
mirrored? x (m ∷ ms) = if is_mirror_of x m then some m else mirrored? x ms

-- The row is written where the market's row is, or behind the others.
abbrev pub put_mirrored : String → Market → List Market → List Market
put_mirrored x row [] = row ∷ []
put_mirrored x row (m ∷ ms) =
    let rest = put_mirrored x row ms in if is_mirror_of x m then row ∷ ms else m ∷ rest

-- `timedelta(days=30)`, in seconds
abbrev thirty_days : ℕ
thirty_days = 2592000

abbrev deadline_of : ℕ → Option ℕ → ℕ
deadline_of now none = now + thirty_days
deadline_of now (some date) = date

abbrev text_or : String → String → String
text_or text other = if is_text text then text else other

abbrev pub mirror_slug : (String → String) → GammaMarket → ℕ → String
mirror_slug slugify parsed id =
    if is_text parsed.slug
    then first_chars 100 ("pm-" ++ₛ parsed.slug)
    else generate_slug slugify parsed.question id

-- The columns that an existing row is given: `set_`.
abbrev pub refreshed : GammaMarket → Option ℕ → Option String → Market → Market
refreshed parsed group_id category m = record m {
  question = parsed.question;
  status = internal_status parsed;
  volume = parsed.volume;
  volume_24hr = parsed.volume_24hr;
  polymarket_slug = some parsed.slug;
  category = category;
  group_id = group_id;
  group_item_title = parsed.group_item_title;
}

-- `market_values`
abbrev pub new_mirror : ℕ → ℕ → String → GammaMarket → Option ℕ → Option String → Market
new_mirror now id slug parsed group_id category = record {
  id = id;
  question = parsed.question;
  slug = slug;
  resolution_criteria = text_or parsed.description "Resolution via Polymarket UMA oracle";
  category = category;
  source = polymarket;
  source_market_id = some parsed.id;
  condition_id = some parsed.condition_id;
  polymarket_slug = some parsed.slug;
  volume = parsed.volume;
  volume_24hr = parsed.volume_24hr;
  status = internal_status parsed;
  deadline = deadline_of now parsed.end_date;
  bet_count = 0;
  closed_at = none;
  uma_resolved_at = none;
  group_id = group_id;
  group_item_title = parsed.group_item_title;
  outcomes = [];
  min_stake = none;
  max_stake = none;
  winning_outcome_id = none;
  resolution_source = none;
  resolution_justification = none;
  resolved_at = none;
}

abbrev mirror_row :
    ℕ
    → ℕ
    → String
    → GammaMarket
    → Option ℕ
    → Option String
    → List Market
    → Option Market
    → Result Market
mirror_row now id slug parsed group_id category markets (some m) =
    ok (refreshed parsed group_id category m)
mirror_row now id slug parsed group_id category markets none =
    if slug_taken slug markets
    then err unique_violation
    else ok (new_mirror now id slug parsed group_id category)

-- CHECK current_odds BETWEEN 0 AND 1
abbrev pub checked_odds : Price → Result ℕ
checked_odds (number (pos n)) = if leb n one_odds then ok n else err check_violation
checked_odds (number (negsuc n)) = err check_violation
checked_odds not_finite = err check_violation
checked_odds not_a_number = err invalid_operation

-- The first two labels, each with its price; 0.5 where there is no price.
abbrev pub priced_labels : ℕ → (String → Price) → List String → List String → List (String × Price)
priced_labels zero decimal labels prices = []
priced_labels (suc n) decimal [] prices = []
priced_labels (suc n) decimal (label ∷ labels) [] =
    (label, number (pos 500000)) ∷ priced_labels n decimal labels []
priced_labels (suc n) decimal (label ∷ labels) (p ∷ prices) =
    (label, decimal p) ∷ priced_labels n decimal labels prices

-- `.scalar_one_or_none()`
abbrev at_most_one : List Outcome → Result (Option Outcome)
at_most_one [] = ok none
at_most_one (o ∷ []) = ok (some o)
at_most_one (o ∷ p ∷ rest) = err multiple_results

abbrev repriced : ℕ → ℕ → List Outcome → List Outcome
repriced x odds [] = []
repriced x odds (o ∷ outcomes) =
    let rest = repriced x odds outcomes in
    if o.id == x then record o { current_odds = odds } ∷ outcomes else o ∷ rest

-- One outcome is updated when its odds differ, or inserted; the trigger `trg_binary_outcomes_only`
-- admits two outcomes.
write_outcome : ℕ → Market → String → Option Outcome → Action (Market × List OddsDelta)
unfolding ◌>>=◌ pure raise_if uuid4
write_outcome odds m label (some o) =
    if o.current_odds == odds
    then pure (m, [])
    else pure (
      record m { outcomes = repriced o.id odds m.outcomes },
      record { outcome_id = o.id; odds = odds } ∷ [],
    )
write_outcome odds m label none = do
  raise_if (leb 2 (length m.outcomes)) check_violation
  id ← uuid4
  pure (
    record m {
      outcomes =
          m.outcomes
          ++ record { id = id; label = label; initial_odds = odds; current_odds = odds } ∷ [];
    },
    [],
  )

upsert_outcome : Market → String → Price → Action (Market × List OddsDelta)
unfolding ◌>>=◌ lift write_outcome
upsert_outcome m label price = do
  existing ← lift (at_most_one (where_rows (λ (o : Outcome). text_eq o.label label) m.outcomes))
  odds ← lift (checked_odds price)
  write_outcome odds m label existing

pub upsert_outcomes : Market → List (String × Price) → Action (Market × List OddsDelta)
unfolding ◌>>=◌ pure upsert_outcome
upsert_outcomes m [] = pure (m, [])
upsert_outcomes m ((label, price) ∷ rest) = do
  first ← upsert_outcome m (first_chars 50 label) price
  others ← upsert_outcomes first.0 rest
  pure (others.0, first.1 ++ others.1)

-- `if parsed.outcomes_raw and parsed.outcome_prices_raw`, and `[:2]`
abbrev pub prices_of : (String → Price) → GammaMarket → List (String × Price)
prices_of decimal parsed = elim parsed.outcome_prices_raw [
  | [] ↦ []
  | p ∷ prices ↦ priced_labels 2 decimal parsed.outcomes_raw (p ∷ prices)
]

-- What was written: the market's id, and the odds that changed.
pub record Synced : Type 0 where
  pub market_id : ℕ
  pub deltas : List OddsDelta

unfoldable pub put_row : String → Market → Action ⊤
put_row x row s = (ok tt, record s { markets = put_mirrored x row s.markets })

-- The body of the SAVEPOINT. The row and its outcomes are written at once, at the end.
unfoldable pub upsert_row :
    (String → String)
    → (String → Price)
    → ℕ
    → GammaMarket
    → Option ℕ
    → Option String
    → Action Synced
unfolding ◌>>=◌ uuid4 lift upsert_outcomes put_row pure
upsert_row slugify decimal now parsed group_id category = do
  suffix ← uuid4
  id ← uuid4
  markets ← gets (λ s. s.markets)
  row ← lift (
      mirror_row now id (mirror_slug slugify parsed suffix) parsed group_id category markets
        (mirrored? parsed.id markets))
  written ← upsert_outcomes row (prices_of decimal parsed)
  put_row parsed.id written.0
  pure (record { market_id = written.0.id; deltas = written.1 })

abbrev pub is_integrity_error : Error → Bool
is_integrity_error unique_violation = true
is_integrity_error check_violation = true
is_integrity_error foreign_key_violation = true
is_integrity_error _ = false

-- `await nested.commit()`, or `await nested.rollback()` on an IntegrityError, which is logged
abbrev pub release_savepoint : Db → Result Synced × Db → Result (Option Synced) × Db
release_savepoint before (ok r, s) = (ok (some r), s)
release_savepoint before (err e, s) = if is_integrity_error e then (ok none, before) else (err e, s)

-- `_upsert_one_market`: `none` stands for `False`.
unfoldable pub upsert_one_market :
    (String → String)
    → (String → Price)
    → ℕ
    → GammaMarket
    → Option ℕ
    → Option String
    → Action (Option Synced)
unfolding upsert_row
upsert_one_market slugify decimal now parsed group_id category s =
    release_savepoint s (upsert_row slugify decimal now parsed group_id category s)
