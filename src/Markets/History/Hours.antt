-- ===== src/Markets/History/Hours.antt =====
-- The downsampling of a month's points by `MarketService.price_history`
-- (backend/app/markets/service.py): the last point of each hour.
use xpredict.Prelude.{
  ◌≤◌, ◌<◌, ◌≡◌, Bool, true, ◌&&◌, List, [], ◌∷◌, leb, ◌==◌, where_rows, any, All,
}
use xpredict.Markets.History.{PricePoint, hour_of}

-- In the order of time.
abbrev Ordered : List PricePoint → Type 0
Ordered [] = Unit
Ordered (p ∷ ps) = All (λ (q : PricePoint). p.ts ≤ q.ts) ps × Ordered ps

-- In the order of time, no two in one hour.
abbrev pub OnePerHour : List PricePoint → Type 0
OnePerHour [] = Unit
OnePerHour (p ∷ ps) = All (λ (q : PricePoint). hour_of p < hour_of q) ps × OnePerHour ps

-- `r` is of the hour of `q`, and not before it.
abbrev pub stands_for : PricePoint → PricePoint → Bool
stands_for q r = hour_of r == hour_of q && leb q.ts r.ts

-- Some point of `kept` stands for `q`.
abbrev pub Represented : List PricePoint → PricePoint → Type 0
Represented kept q = any (where_rows (stands_for q) kept) ≡ true
