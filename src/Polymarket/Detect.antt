-- ===== src/Polymarket/Detect.antt =====
-- `_run_detect_resolutions` of backend/app/integrations/polymarket/tasks.py: the task that settles
-- the mirrored markets which Gamma reports as resolved, after a grace period.
pub mod Cases
pub mod Soundness
pub mod Ticks
use xpredict.Prelude.{
  ℕ, ◌+◌, ⊤, Bool, true, false, ◌&&◌, String, Option, none, some, List, [], ◌∷◌, ltb, ◌==◌,
  if◌then◌else◌, where_rows,
}
use xpredict.Money.Errors.{Error, Result, ok, err}
use xpredict.Database.Rows.{Db, Market, MarketStatus, open_status, closed_status}
use xpredict.Session.{Action, pure, raise, ◌>>=◌, ◌>>◌}
use xpredict.Settlement.Port.{house_adapter}
use xpredict.Settlement.Service.{resolve_market}
use xpredict.Events.{is_polymarket, is_resolved}
use xpredict.Polymarket.Gamma.{GammaMarket, internal_status}
use xpredict.Polymarket.Winner.{Answer, missing, malformed, market, failed, map_winning_outcome_id}

abbrev pub is_live : MarketStatus → Bool
is_live open_status = true
is_live closed_status = true
is_live _ = false

-- The SELECT of the candidates.
abbrev pub is_candidate : ℕ → Market → Bool
is_candidate now m = is_polymarket m.source && is_live m.status && ltb m.deadline now

abbrev pub candidates : ℕ → Db → List Market
candidates now s = where_rows (is_candidate now) s.markets

abbrev stamp_row : ℕ → ℕ → Market → Option ℕ → Market
stamp_row now x m (some t) = m
stamp_row now x m none = if m.id == x then record m { uma_resolved_at = some now } else m

-- UPDATE markets SET uma_resolved_at = :now WHERE id = :id AND uma_resolved_at IS NULL
abbrev pub stamp : ℕ → ℕ → List Market → List Market
stamp now x [] = []
stamp now x (m ∷ ms) = stamp_row now x m m.uma_resolved_at ∷ stamp now x ms

unfoldable pub start_grace : ℕ → ℕ → Action ⊤
start_grace now x s = (ok tt, record s { markets = stamp now x s.markets })

abbrev pub auto_text : String
auto_text = "Auto-resolved: Polymarket UMA oracle confirmed resolution"

-- A settlement that raises is logged and left.
abbrev pub settle_winner : ℕ → Market → Result ℕ → Action ⊤
settle_winner now m (err e) s = (ok tt, s)
settle_winner now m (ok w) s =
    (ok tt, (resolve_market (house_adapter now) m.id w auto_text none s).1)

-- `elapsed < timedelta(minutes=…)`, where `elapsed` may be negative
abbrev pub in_grace : ℕ → ℕ → ℕ → Bool
in_grace now grace since = ltb now (since + grace)

settle_after_grace : ℕ → ℕ → Market → GammaMarket → Option ℕ → Action ⊤
unfolding start_grace map_winning_outcome_id pure resolve_market
settle_after_grace now grace m parsed none = start_grace now m.id
settle_after_grace now grace m parsed (some since) =
    if in_grace now grace since
    then pure tt
    else settle_winner now m
        (map_winning_outcome_id parsed.outcome_prices_raw parsed.outcomes_raw m.outcomes)

on_answer : ℕ → ℕ → Market → Answer → Action ⊤
unfolding settle_after_grace pure raise
on_answer now grace m missing = pure tt
on_answer now grace m malformed = pure tt
on_answer now grace m (failed e) = raise e
on_answer now grace m (market parsed) =
    if is_resolved (internal_status parsed)
    then settle_after_grace now grace m parsed m.uma_resolved_at
    else pure tt

detect_source : ℕ → ℕ → (String → Answer) → Market → Option String → Action ⊤
unfolding on_answer pure
detect_source now grace fetch m none = pure tt
detect_source now grace fetch m (some source_id) = on_answer now grace m (fetch source_id)

-- The body of the loop, for one candidate as the SELECT loaded it.
unfoldable pub detect_candidate : ℕ → ℕ → (String → Answer) → Market → Action ⊤
unfolding detect_source
detect_candidate now grace fetch m = detect_source now grace fetch m m.source_market_id

unfoldable pub detect_each : ℕ → ℕ → (String → Answer) → List Market → Action ⊤
unfolding detect_candidate ◌>>=◌ pure
detect_each now grace fetch [] = pure tt
detect_each now grace fetch (m ∷ ms) = do
  detect_candidate now grace fetch m
  detect_each now grace fetch ms

-- An exception ends the loop and is logged; what was committed stays.
unfoldable pub run_detect_resolutions : ℕ → ℕ → (String → Answer) → Db → Db
unfolding detect_each
run_detect_resolutions now grace fetch s = (detect_each now grace fetch (candidates now s) s).1
