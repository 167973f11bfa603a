-- ===== src/Markets/History.antt =====
-- `MarketService.price_history` of backend/app/markets/service.py: the points of a market's chart.
-- Times are seconds, so that `date_trunc('hour', …)` is a quotient by 3600.
pub mod Hours
use xpredict.Prelude.{
  ℕ, ◌-◌, ◌*◌, ◌/◌, Bool, true, false, ◌&&◌, String, Option, none, some, List, [], ◌∷◌, map, leb,
  ◌==◌, if◌then◌else◌, where_rows, is_yes,
}
use xpredict.Money.Errors.{Result, ok, err, http_exception, multiple_results}
use xpredict.Database.Rows.{
  Db, Market, MarketStatus, open_status, closed_status, Outcome, OddsSnapshot,
}
use xpredict.Markets.Router.{market_by_slug}

pub data Window : Type 0 where
  last_day last_week last_month : Window

-- `_WINDOW_CUTOFFS`
abbrev pub window_length : Window → ℕ
window_length last_day = 24 * 3600
window_length last_week = 7 * 24 * 3600
window_length last_month = 30 * 24 * 3600

pub record PricePoint : Type 0 where
  pub ts : ℕ
  pub probability : ℕ

abbrev pub point : OddsSnapshot → PricePoint
point p = record { ts = p.snapshot_at; probability = p.probability }

abbrev pub hour_of : PricePoint → ℕ
hour_of p = p.ts / 3600

-- ORDER BY snapshot_at
abbrev pub insert_point : PricePoint → List PricePoint → List PricePoint
insert_point p [] = p ∷ []
insert_point p (q ∷ qs) =
    let rest = insert_point p qs in if leb p.ts q.ts then p ∷ q ∷ qs else q ∷ rest

abbrev pub by_time : List PricePoint → List PricePoint
by_time [] = []
by_time (p ∷ ps) = insert_point p (by_time ps)

abbrev pub begins_in : ℕ → List PricePoint → Bool
begins_in hour [] = false
begins_in hour (p ∷ ps) = hour_of p == hour

-- DISTINCT ON the hour, latest first, and then by time: in the order of time, the points which are
-- the last ones of their hour. Which one of two points of one time is kept is open in PostgreSQL.
abbrev pub latest_of_hours : List PricePoint → List PricePoint
latest_of_hours [] = []
latest_of_hours (p ∷ ps) =
    let rest = latest_of_hours ps in if begins_in (hour_of p) ps then rest else p ∷ rest

abbrev pub series : Window → List PricePoint → List PricePoint
series last_month points = latest_of_hours (by_time points)
series window points = by_time points

abbrev pub is_charted : MarketStatus → Bool
is_charted open_status = true
is_charted closed_status = true
is_charted _ = false

abbrev pub points_of : ℕ → ℕ → List OddsSnapshot → List PricePoint
points_of outcome_id cutoff rows =
    map point (
      where_rows (λ (p : OddsSnapshot). p.outcome_id == outcome_id && leb cutoff p.snapshot_at)
        rows)

abbrev yes_points : ℕ → Window → Db → List Outcome → Result (List PricePoint)
yes_points now window s [] = ok []
yes_points now window s (o ∷ []) =
    ok (series window (points_of o.id (now - window_length window) s.odds_snapshots))
yes_points now window s (o ∷ p ∷ os) = err multiple_results

abbrev charted : ℕ → Window → Db → Option Market → Result (List PricePoint)
charted now window s none = err (http_exception 404)
charted now window s (some m) =
    if is_charted m.status
    then yes_points now window s (where_rows (λ (o : Outcome). is_yes o.label) m.outcomes)
    else err (http_exception 404)

-- `MarketService.price_history`
unfoldable pub price_history : ℕ → String → Window → Db → Result (List PricePoint)
price_history now slug window s = charted now window s (market_by_slug slug s.markets)
