-- ===== src/Bets/SaleChecks.antt =====
-- What the guards of `BetService.sell_position` (backend/app/bets/service.py) have checked when they
-- let it pass.
use xpredict.Prelude.{ℕ, ◌≡◌, ⊤, true, not, some, List, [], ◌∷◌, ◌++◌, ◌==◌, where_rows, arith}
use mathlib.Core.Path.{subst}
use xpredict.Money.Errors.{
  ok, bet_not_found, bet_not_closable, market_not_found, market_closed, invalid_outcome,
}
use xpredict.Database.Rows.{Db, Bet, bet_row}
use xpredict.Session.{Action, gets, lock_row, ◌>>=◌}
use xpredict.Session.Inversion.{
  or_raise-then, raise_if-then, raise_if-eq-ok, returned, scalar_one-then, >>=-eq-ok,
}
use xpredict.Ledger.{is_pending}
use xpredict.Bets.{bet?, check_owner, live_price, lock_bet}
use xpredict.Bets.MarketPort.{MarketReadPort, MarketView, OutcomeView, is_open, outcome?}

pub where-bet? :
    (x : ℕ) (rows : List Bet) (b : Bet) (rest : List Bet)
    → where_rows (λ (r : Bet). r.id == x) rows ≡ b ∷ rest
    → bet? x rows ≡ some b
unfolding bet?
where-bet? x [] b rest h = absurd (cc h)
where-bet? x (r ∷ rows) b rest h = ground (arith, where-bet? x rows b rest)

module _ {B : Type 0} {s : Db} {b : B} {u : Db} where
  pub check_owner-then :
      (bet_id user : ℕ) (k : ⊤ → Action B)
      → (check_owner bet_id user >>= k) s ≡ (ok b, u)
      → (bet : Bet) × (bet? bet_id s.bets ≡ some bet) × (bet.user_id ≡ user) × (k tt s ≡ (ok b, u))
  unfolding check_owner gets ◌>>=◌
  check_owner-then bet_id user k h =
      let (a, t, h1, h2) = >>=-eq-ok (check_owner bet_id user) k s h in
      let (bet, found, h3) = or_raise-then {s = s} (bet? bet_id s.bets) bet_not_found _ h1 in
      let (owned, h4) = raise_if-then (not (bet.user_id == user)) bet_not_found _ h3 in
      let (_, same) = raise_if-eq-ok {s = s} (not (is_pending bet.status)) bet_not_closable h4 in
      (bet, found, ground arith, subst (λ (v : Db). k tt v ≡ (ok b, u)) same h2)

-- The locked read finds the only row under the id, still pending.
pub lock_bet-then :
    {B : Type 0} (s : Db) {b : B} {u : Db} (bet_id : ℕ) (k : Bet → Action B)
    → (lock_bet bet_id >>= k) s ≡ (ok b, u)
    → (bet : Bet) × (where_rows (λ (r : Bet). r.id == bet_id) s.bets ≡ bet ∷ [])
      × (is_pending bet.status ≡ true)
      × (k bet (record s { locks = s.locks ++ bet_row bet_id ∷ [] }) ≡ (ok b, u))
unfolding lock_bet lock_row gets ◌>>=◌
lock_bet-then s {b = b} {u = u} bet_id k h =
    let s' : Db = record s { locks = s.locks ++ bet_row bet_id ∷ [] } in
    let (bet, t, h1, h2) = >>=-eq-ok (lock_bet bet_id) k s h in
    let (locked, found, h3) =
      scalar_one-then {s = s'} (where_rows (λ (r : Bet). r.id == bet_id) s.bets) _ h1 in
    let (waits, h4) =
      raise_if-then {s = s'} (not (is_pending locked.status)) bet_not_closable _ h3 in
    let (e, e') = returned {s = s'} h4 in
    (
      locked,
      found,
      ground arith,
      subst (λ (p : Bet × Db). k p.0 p.1 ≡ (ok b, u)) (λ i. (e i, e' i)) h2,
    )

-- The market was open, and `price` is the live price of the bet's outcome.
pub record Live (port : MarketReadPort) (now : ℕ) (bet : Bet) (s : Db) (price : ℕ) : Type 0 where
  pub view : MarketView
  pub chosen : OutcomeView
  pub market_found : port s bet.market_id ≡ some view
  pub market_open : is_open view now ≡ true
  pub outcome_found : outcome? bet.outcome_id view.outcomes ≡ some chosen
  pub price_live : price ≡ chosen.price

pub live_price-then :
    {B : Type 0} {s : Db} {b : B} {u : Db} (port : MarketReadPort) (now : ℕ) (bet : Bet)
    (k : ℕ → Action B)
    → (live_price port now bet >>= k) s ≡ (ok b, u)
    → (price : ℕ) × Live port now bet s price × (k price s ≡ (ok b, u))
unfolding live_price gets ◌>>=◌
live_price-then {s = s} {b = b} {u = u} port now bet k h =
    let (c, t, h1, h2) = >>=-eq-ok (live_price port now bet) k s h in
    let (view, found, h3) = or_raise-then {s = s} (port s bet.market_id) market_not_found _ h1 in
    let (opened, h4) = raise_if-then (not (is_open view now)) market_closed _ h3 in
    let (chosen, there, h5) =
      or_raise-then (outcome? bet.outcome_id view.outcomes) invalid_outcome _ h4 in
    let (e, e') = returned h5 in
    (
      c,
      record {
        view = view;
        chosen = chosen;
        market_found = found;
        market_open = ground arith;
        outcome_found = there;
        price_live = e;
      },
      subst (λ (v : Db). k c v ≡ (ok b, u)) e' h2,
    )

pub where-id :
    (x : ℕ) (rows : List Bet) (b : Bet) (rest : List Bet)
    → where_rows (λ (r : Bet). r.id == x) rows ≡ b ∷ rest
    → b.id ≡ x
where-id x [] b rest h = absurd (cc h)
where-id x (r ∷ rows) b rest h = ground (arith, where-id x rows b rest)
