-- ===== src/Markets.antt =====
-- `MarketService` of backend/app/markets/service.py: an admin edits and closes a market. The `ip` of
-- the audit rows is left out; `now` is `datetime.now(UTC)` and the time of the database.
pub mod Creation
pub mod Criteria
pub mod Router
pub mod History
pub mod Edits
pub mod Closing
use xpredict.Prelude.{
  ℕ, ◌-◌, ⊤, Bool, true, false, ◌&&◌, not, String, Option, none, some, List, [], ◌∷◌, ◌++◌, map,
  ltb, if◌then◌else◌, is_yes, any,
}
use xpredict.Money.Errors.{ok, http_exception}
use xpredict.Database.Rows.{
  Db, Market, MarketStatus, open_status, closed_status, Outcome, OddsSnapshot, market_updated,
  market_closed,
}
use xpredict.Session.{Action, pure, gets, or_raise, raise_if, begin, ◌>>=◌, ◌>>◌}
use xpredict.Ledger.{record_audit}
use xpredict.Settlement.Port.{market?, write_market}

-- `MarketUpdate`, after its validators. For a field that may be cleared, the outer `none` says that
-- the request leaves it out (`model_fields_set`). Odds are in millionths, more than 0 and less than
-- `one_odds`.
pub record MarketUpdate : Type 0 where
  pub resolution_criteria : Option String
  pub deadline : Option ℕ
  pub category : Option (Option String)
  pub min_stake : Option (Option ℕ)
  pub max_stake : Option (Option ℕ)
  pub odds_yes : Option ℕ

-- The odds 1.
abbrev pub one_odds : ℕ
one_odds = 1000000

abbrev pub is_open_market : MarketStatus → Bool
is_open_market open_status = true
is_open_market _ = false

abbrev pub is_given : {A : Type 0} → Option A → Bool
is_given none = false
is_given (some a) = true

abbrev pub given_or : {A : Type 0} → Option A → A → A
given_or none old = old
given_or (some new) old = new

-- The outcome after `odds_yes` was edited.
abbrev pub edited : ℕ → Outcome → Outcome
edited odds o = record o { current_odds = if is_yes o.label then odds else one_odds - odds }

abbrev edited_outcomes : Option ℕ → List Outcome → List Outcome
edited_outcomes none outcomes = outcomes
edited_outcomes (some odds) outcomes = map (edited odds) outcomes

abbrev pub snapshot : ℕ → ℕ → Outcome → OddsSnapshot
snapshot now market_id o = record {
  market_id = market_id;
  outcome_id = o.id;
  probability = o.current_odds;
  snapshot_at = now;
}

-- The assignments of `update_market`.
abbrev pub updated_market : MarketUpdate → Market → Market
updated_market body m = record m {
  resolution_criteria = given_or body.resolution_criteria m.resolution_criteria;
  deadline = given_or body.deadline m.deadline;
  category = given_or body.category m.category;
  min_stake = given_or body.min_stake m.min_stake;
  max_stake = given_or body.max_stake m.max_stake;
  outcomes = edited_outcomes body.odds_yes m.outcomes;
}

abbrev named : {A : Type 0} → Option A → String → List String
named none name = []
named (some a) name = name ∷ []

-- `changed_fields`
abbrev pub changed_fields : MarketUpdate → List String
changed_fields body =
    named body.resolution_criteria "resolution_criteria"
    ++ named body.deadline "deadline"
    ++ named body.category "category"
    ++ named body.min_stake "min_stake"
    ++ named body.max_stake "max_stake"
    ++ named body.odds_yes "odds"

-- An entry of `odds_deltas`.
pub record OddsDelta : Type 0 where
  pub outcome_id : ℕ
  pub odds : ℕ

abbrev pub delta : Outcome → OddsDelta
delta o = record { outcome_id = o.id; odds = o.current_odds }

-- The outcomes whose odds the request sets, with their new odds.
abbrev pub set_outcomes : Option ℕ → List Outcome → List Outcome
set_outcomes none outcomes = []
set_outcomes (some odds) outcomes = map (edited odds) outcomes

unfoldable pub add_snapshots : List OddsSnapshot → Action ⊤
add_snapshots rows s = (ok tt, record s { odds_snapshots = s.odds_snapshots ++ rows })

pub audit_changes : ℕ → ℕ → List String → Action ⊤
unfolding pure record_audit
audit_changes admin market_id [] = pure tt
audit_changes admin market_id (name ∷ names) =
    record_audit (some admin) (market_updated market_id (name ∷ names))

-- `MarketService.update_market`, on the row `m` that the caller loaded.
unfoldable pub update_market : ℕ → ℕ → Market → MarketUpdate → Action (Market × List OddsDelta)
unfolding ◌>>=◌ raise_if write_market add_snapshots audit_changes
update_market now admin m body = do
  raise_if (not (is_open_market m.status)) (http_exception 409)
  raise_if (ltb 0 m.bet_count && is_given body.resolution_criteria) (http_exception 423)
  write_market (updated_market body m)
  add_snapshots (map (snapshot now m.id) (set_outcomes body.odds_yes m.outcomes))
  audit_changes admin m.id (changed_fields body)
  pure (updated_market body m, map delta (set_outcomes body.odds_yes m.outcomes))

abbrev pub closed_market : ℕ → Market → Market
closed_market now m = record m { status = closed_status; closed_at = some now }

-- `MarketService.close_market`
unfoldable pub close_market : ℕ → ℕ → Market → Action Market
unfolding ◌>>=◌ raise_if write_market record_audit
close_market now admin m = do
  raise_if (not (is_open_market m.status)) (http_exception 409)
  write_market (closed_market now m)
  record_audit (some admin) (market_closed m.id)
  pure (closed_market now m)
