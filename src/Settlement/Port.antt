-- ===== src/Settlement/Port.antt =====
-- backend/app/settlement/market_port.py and adapters.py: the port through which a settlement marks
-- the market's row, as an interface with the one law that the settlement relies on, and the
-- implementation over the `markets` table.
use xpredict.Prelude.{
  ℕ, ⊤, arith, refl, String, Option, none, some, List, [], ◌∷◌, ◌==◌, if◌then◌else◌,
}
use xpredict.Money.Errors.{ok, no_result_found, value_error}
use xpredict.Database.Rows.{
  Market, MarketStatus, closed_status, resolved, cancelled, ResolutionSource,
}
use xpredict.Session.{Action, pure, raise, gets, ◌>>=◌, or_raise}
use xpredict.Session.Rules.{Does, does_rules}
use xpredict.Session.Untouched.{untouched}

-- `MarketResolvePort`. An implementation writes on the caller's session, and only the market's row.
pub record MarketResolvePort : Type 0 where
  pub mark_resolved : ℕ → ℕ → ResolutionSource → String → Action ⊤
  pub mark_unresolved : ℕ → Action ⊤
  pub mark_resolved-Untouched :
      (market outcome : ℕ) (source : ResolutionSource) (text : String)
      → Does untouched (mark_resolved market outcome source text)
  pub mark_unresolved-Untouched : (market : ℕ) → Does untouched (mark_unresolved market)

-- `session.get(Market, market_id)`
unfoldable pub market? : ℕ → List Market → Option Market
market? x [] = none
market? x (m ∷ rest) = if m.id == x then some m else market? x rest

unfoldable pub set_market : Market → List Market → List Market
set_market m' [] = []
set_market m' (m ∷ rest) = if m.id == m'.id then m' ∷ rest else m ∷ set_market m' rest

unfoldable pub write_market : Market → Action ⊤
write_market m s = (ok tt, record s { markets = set_market m s.markets })

write_resolution : ℕ → ℕ → ResolutionSource → String → MarketStatus → Market → Action ⊤
write_resolution now outcome source text cancelled m = raise value_error
write_resolution now outcome source text resolved m = pure tt
write_resolution now outcome source text _ m = write_market (record m {
  status = resolved;
  resolved_at = some now;
  winning_outcome_id = some outcome;
  resolution_source = some source;
  resolution_justification = some text;
})

-- `HouseMarketResolveAdapter.mark_resolved`; `now` is `datetime.now(UTC)`.
unfoldable pub house_mark_resolved : ℕ → ℕ → ℕ → ResolutionSource → String → Action ⊤
unfolding ◌>>=◌ write_resolution write_market
house_mark_resolved now market outcome source text = do
  found ← gets (λ s. market? market s.markets)
  m ← or_raise found no_result_found
  write_resolution now outcome source text m.status m

unfoldable pub house_mark_unresolved : ℕ → Action ⊤
unfolding ◌>>=◌ write_market
house_mark_unresolved market = do
  found ← gets (λ s. market? market s.markets)
  m ← or_raise found no_result_found
  write_market (record m { status = closed_status; resolved_at = none })

Does-write_market : (m : Market) → Does untouched (write_market m)
unfolding write_market
Does-write_market m = record {
  at = λ s. record {
    accounts = refl;
    transfers = refl;
    entries = refl;
    bets = refl;
    ids_grow = omega arith;
  };
}

Does-write_resolution :
    (now outcome : ℕ) (source : ResolutionSource) (text : String) (status : MarketStatus)
    (m : Market)
    → Does untouched (write_resolution now outcome source text status m)
unfolding write_resolution
Does-write_resolution now outcome source text cancelled m = search does_rules
Does-write_resolution now outcome source text resolved m = search does_rules
Does-write_resolution now outcome source text _ m = Does-write_market _

pub house_mark_resolved-Untouched :
    (now market outcome : ℕ) (source : ResolutionSource) (text : String)
    → Does untouched (house_mark_resolved now market outcome source text)
unfolding house_mark_resolved
house_mark_resolved-Untouched now market outcome source text =
    search (does_rules, Does-write_resolution)

pub house_mark_unresolved-Untouched : (market : ℕ) → Does untouched (house_mark_unresolved market)
unfolding house_mark_unresolved
house_mark_unresolved-Untouched market = search (does_rules, Does-write_market)

-- `HouseMarketResolveAdapter` fills the interface.
abbrev pub house_adapter : ℕ → MarketResolvePort
house_adapter now = record {
  mark_resolved = house_mark_resolved now;
  mark_unresolved = house_mark_unresolved;
  mark_resolved-Untouched = house_mark_resolved-Untouched now;
  mark_unresolved-Untouched = house_mark_unresolved-Untouched;
}
