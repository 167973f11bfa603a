-- ===== src/Markets/Closing.antt =====
-- `MarketService.close_market` (backend/app/markets/service.py) and then `BetService.place_bet`
-- (backend/app/bets/service.py).
use xpredict.Prelude.{
  ℕ, ◌≡◌, refl, sym, ap, ◌∙◌, true, false, some, List, [], ◌∷◌, arith, ◌==◌, Bool-cases, inl, inr,
  not,
}
use xpredict.Prelude.Int.{ℤ}
use xpredict.Money.Errors.{ok, http_exception}
use xpredict.Database.Rows.{Db, Market, Bet, market_closed}
use xpredict.Session.{pure, ◌>>=◌}
use xpredict.Session.Inversion.{returned, raise_if-then}
use xpredict.Ledger.{record_audit}
use xpredict.Settlement.Port.{market?, set_market, write_market}
use xpredict.Bets.{StakeSettings, place_bet}
use xpredict.Bets.MarketPort.{house_read_adapter, house_read_adapter-is_open}
use xpredict.Bets.Placement.{place_bet_effect}
use xpredict.Markets.{closed_market, close_market, is_open_market}

market?-set_self :
    (m m' : Market) (ms : List Market)
    → m'.id ≡ m.id
    → market? m.id ms ≡ some m
    → market? m.id (set_market m' ms) ≡ some m'
unfolding market? set_market
market?-set_self m m' [] same found = absurd (cc found)
market?-set_self m m' (x ∷ ms) same found = elim (Bool-cases (x.id == m.id)) [
  | inl e ↦
      let e' : (x.id == m'.id) ≡ true = ground (arith, same, e) in
      let e2 : (m'.id == m.id) ≡ true = ground (arith, same) in rw (e', e2) refl
  | inr ne ↦
      let ne' : (x.id == m'.id) ≡ false = ground (arith, same, ne) in
      let rest : market? m.id ms ≡ some m = ground (arith, ne, found) in
      rw (ne', ne) (market?-set_self m m' ms same rest)
]

close_market-ok :
    (now admin : ℕ) (m m' : Market) (s u : Db)
    → close_market now admin m s ≡ (ok m', u)
    → u.markets ≡ set_market (closed_market now m) s.markets
unfolding close_market write_market record_audit pure ◌>>=◌
close_market-ok now admin m m' s u h =
    let (_, h1) =
      raise_if-then {s = s} (not (is_open_market m.status)) (http_exception 409)
        (λ _. write_market (closed_market now m) >>= λ _.
          record_audit (some admin) (market_closed m.id) >>= λ _. pure (closed_market now m))
        h in
    ap (λ (v : Db). v.markets) (returned h1).1

-- No bet is taken on a market that an admin has closed, at any time and of any amount.
pub closed_market_takes_no_bets :
    (now admin : ℕ) (m m' : Market) (s u : Db) (settings : StakeSettings) (later user o : ℕ)
    (amount : ℤ) (bet : Bet) (v : Db)
    → market? m.id s.markets ≡ some m
    → close_market now admin m s ≡ (ok m', u)
    → ¬ (place_bet house_read_adapter settings later user m.id o amount u ≡ (ok bet, v))
closed_market_takes_no_bets now admin m m' s u settings later user o amount bet v found closes
      placed =
    let (n, _, p) =
      place_bet_effect house_read_adapter settings later user m.id o amount u bet v placed in
    let row : market? m.id u.markets ≡ some (closed_market now m) =
      ap (market? m.id) (close_market-ok now admin m m' s u closes)
      ∙ market?-set_self m (closed_market now m) s.markets refl found in
    let shut =
      house_read_adapter-is_open u m.id later (closed_market now m) p.accepted.view row
        p.accepted.market_found in
    cc (sym shut ∙ p.accepted.market_open)
