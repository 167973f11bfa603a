-- ===== src/Examples/History.antt =====
-- The theorem on `MarketService.price_history` (backend/app/markets/service.py), on a few points.
use xpredict.Prelude.{ℕ, ◌≡◌, refl, List, [], ◌∷◌, is_yes}
use xpredict.Money.Errors.{ok}
use xpredict.Database.Rows.{Db, OddsSnapshot}
use xpredict.Markets.History.{PricePoint, last_month, price_history}
use xpredict.Examples.Data.{seeded}

abbrev recorded : ℕ → ℕ → ℕ → OddsSnapshot
recorded outcome_id odds time = record {
  market_id = 500;
  outcome_id = outcome_id;
  probability = odds;
  snapshot_at = time;
}

-- The rows are in no order; one is of the other outcome.
abbrev priced : Db
priced = record seeded {
  odds_snapshots =
      recorded 501 300000 7300
      ∷ recorded 502 700000 7300
      ∷ recorded 501 250000 3700
      ∷ recorded 501 260000 3900
      ∷ [];
}

abbrev chart : List PricePoint
chart = record { ts = 3900; probability = 260000 } ∷ record { ts = 7300; probability = 300000 } ∷ []

chart_runs : price_history 9000 "rain" last_month priced ≡ ok chart
unfolding seeded price_history is_yes
chart_runs = refl
