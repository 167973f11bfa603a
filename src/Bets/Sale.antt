-- ===== src/Bets/Sale.antt =====
-- What `BetService.sell_position` (backend/app/bets/service.py) has checked and done when it
-- returns.
use xpredict.Prelude.{
  ℕ, ◌+◌, ◌-◌, ◌≡◌, refl, ap, sym, ◌∙◌, ⊤, true, Option, some, [], ◌∷◌, ◌==◌, if◌then◌else◌,
  where_rows, arith,
}
use mathlib.Core.Path.{subst}
use xpredict.Money.{cashout_value, profit_or_loss}
use xpredict.Money.Errors.{ok}
use xpredict.Database.Keys.{close}
use xpredict.Database.Rows.{Db, Bet, bet_row, house_promo_id, house_revenue_id}
use xpredict.Database.Tables.{account?, balance_or_zero}
use xpredict.Session.{◌>>=◌, sorted_ids}
use xpredict.Session.Inversion.{begin-eq-ok, lift-then, returned, >>=-eq-ok}
use xpredict.Session.Untouched.{Untouched}
use xpredict.Wallet.Effects.{locked-then}
use xpredict.Wallet.Posting.{balance}
use xpredict.Wallet.Queries.{HasWallet, read_balance-then, resolve_user_wallet_id-then}
use xpredict.Ledger.{touched, lock_touched, post_specs, is_pending, update_bet, write_bet}
use xpredict.Ledger.Flow.{paid_out, paid_in, post_specs-flow, post_specs-bets}
use xpredict.Ledger.Queries.{HasLiability, resolve_market_liability_id-then}
use xpredict.Bets.{SaleResult, bet?, close_bet, close_specs, closed_bet, closing, sell_position}
use xpredict.Bets.MarketPort.{MarketReadPort}
use xpredict.Bets.SaleChecks.{
  Live, where-bet?, where-id, check_owner-then, lock_bet-then, live_price-then,
}

module _ (x bet_id l w n p : ℕ) where
  close_specs-out :
      paid_out x (close_specs bet_id l w n p)
      ≡ (if l == x then n else 0) + (if house_promo_id == x then p - n else 0)
  unfolding paid_out
  close_specs-out = ground arith

  close_specs-in :
      paid_in x (close_specs bet_id l w n p)
      ≡ (if w == x then p else 0) + (if house_revenue_id == x then n - p else 0)
  unfolding paid_in
  close_specs-in = ground arith

-- The balances after `bet` has been closed for `payout`: the liability account `l` gives up the
-- stake, `house_promo` pays a gain and `house_revenue` takes a loss, and the wallet `w` gets the
-- payout. The bet is closed at `price`; the other bets stay.
pub record Closed (now l w price payout : ℕ) (bet : Bet) (s u : Db) : Type 0 where
  pub balances :
      (x : ℕ)
      → balance x u
          + (if l == x then bet.stake else 0)
          + (if house_promo_id == x then payout - bet.stake else 0)
        ≡ balance x s
          + (if w == x then payout else 0)
          + (if house_revenue_id == x then bet.stake - payout else 0)
  pub bets : u.bets ≡ update_bet bet.id (closed_bet now price) s.bets

-- Posting the legs of a cash-out and closing the bet, from a state that has not touched the ledger.
legs-Closed :
    (actor : Option ℕ) (now l w price payout bet_id : ℕ) (bet : Bet) (s t v u : Db) {a : ⊤}
    → bet.id ≡ bet_id
    → Untouched (record s { locks = bet_row bet_id ∷ [] }) t
    → post_specs close actor bet.market_id (close_specs bet_id l w bet.stake payout) t ≡ (ok a, v)
    → u ≡ record v { bets = update_bet bet_id (closed_bet now price) v.bets }
    → Closed now l w price payout bet s u
legs-Closed actor now l w price payout bet_id bet s t v u same q h e = record {
  balances = λ x. omega (
    arith,
    post_specs-flow close actor bet.market_id (close_specs bet_id l w bet.stake payout) t _ v h x,
    close_specs-out x bet_id l w bet.stake payout,
    close_specs-in x bet_id l w bet.stake payout,
    ap (λ rows. balance_or_zero (account? x rows)) q.accounts,
    ap (λ (z : Db). balance_or_zero (account? x z.accounts)) e,
  );
  bets = ap (λ (z : Db). z.bets) e ∙ (λ i. update_bet (sym same i) (closed_bet now price) (
      (post_specs-bets close actor bet.market_id (close_specs bet_id l w bet.stake payout) t _ v h
          ∙ q.bets)
        i));
}

-- What a cash-out that returned stands for: the bet was the caller's own and pending, its market
-- was open, and it was closed for its cash-out value at the live price.
pub record Sold (port : MarketReadPort) (now bet_id user : ℕ) (s : Db) (sale : SaleResult) (u : Db)
    : Type 0 where
  pub bet : Bet
  pub row : where_rows (λ (r : Bet). r.id == bet_id) s.bets ≡ bet ∷ []
  pub owner : bet.user_id ≡ user
  pub waiting : is_pending bet.status ≡ true
  pub live : Live port now bet (record s { locks = bet_row bet_id ∷ [] }) sale.exit_odds
  pub value : cashout_value bet.stake bet.odds_at_placement sale.exit_odds ≡ ok sale.payout
  pub pnl : sale.pnl ≡ profit_or_loss bet.stake sale.payout
  pub wallet : ℕ
  pub wallet_found : HasWallet user s wallet
  pub liability : ℕ
  pub liability_found : HasLiability bet.market_id s liability
  pub effect : Closed now liability wallet sale.exit_odds sale.payout bet s u
  pub new_balance : sale.new_balance ≡ balance wallet u

-- What the unit of work has done, with the wallet, the stake, the payout and the price it returns.
record Closing (port : MarketReadPort) (now bet_id user : ℕ) (s : Db) (sale : ℕ × ℕ × ℕ × ℕ)
    (u : Db) : Type 0 where
  bet : Bet
  row : where_rows (λ (r : Bet). r.id == bet_id) s.bets ≡ bet ∷ []
  waiting : is_pending bet.status ≡ true
  live : Live port now bet (record s { locks = bet_row bet_id ∷ [] }) sale.3
  value : cashout_value bet.stake bet.odds_at_placement sale.3 ≡ ok sale.2
  stake : sale.1 ≡ bet.stake
  wallet_found : HasWallet user s sale.0
  liability : ℕ
  liability_found : HasLiability bet.market_id s liability
  effect : Closed now liability sale.0 sale.3 sale.2 bet s u

close_bet-Closing :
    (port : MarketReadPort) (now bet_id user : ℕ) (s : Db) (sale : ℕ × ℕ × ℕ × ℕ) (u : Db)
    → close_bet port now bet_id user s ≡ (ok sale, u)
    → Closing port now bet_id user s sale u
unfolding close_bet closing lock_touched write_bet ◌>>=◌
close_bet-Closing port now bet_id user s sale u h =
    let h' = begin-eq-ok (closing port now bet_id user) s h in
    let (bet, row, waits, h1) = lock_bet-then (record s { locks = [] }) bet_id _ h' in
    let s1 : Db = record s { locks = bet_row bet_id ∷ [] } in
    let (price, live, h2) = live_price-then {s = s1} port now bet _ h1 in
    let (payout, value, h3) =
      lift-then {s = s1} (cashout_value bet.stake bet.odds_at_placement price) _ h2 in
    let (w, has, h4) = resolve_user_wallet_id-then {s = s1} user _ h3 in
    let (l, found, h5) = resolve_market_liability_id-then {s = s1} bet.market_id _ h4 in
    let specs = close_specs bet_id l w bet.stake payout in
    let (_, t, q, _, h6) = locked-then (sorted_ids (touched specs)) _ h5 in
    let (a, v, h7, h8) = >>=-eq-ok (post_specs close (some user) bet.market_id specs) _ t h6 in
    let (e, e') = returned h8 in
    subst (λ r. Closing port now bet_id user s r u) (sym e)
      (record {
        bet = bet;
        row = row;
        waiting = waits;
        live = live;
        value = value;
        stake = refl;
        wallet_found = has;
        liability = l;
        liability_found = found;
        effect =
            legs-Closed (some user) now l w price payout bet_id bet s t v u
              (where-id bet_id s.bets bet [] row) q h7 e';
      })

Closing-Sold :
    {port : MarketReadPort} {now bet_id user : ℕ} {s : Db} {sale : ℕ × ℕ × ℕ × ℕ} {u : Db}
    {first : Bet} {n : ℕ}
    → bet? bet_id s.bets ≡ some first
    → first.user_id ≡ user
    → Closing port now bet_id user s sale u
    → n ≡ balance sale.0 u
    → Sold port now bet_id user s
        (record {
          bet_id = bet_id;
          payout = sale.2;
          pnl = profit_or_loss sale.1 sale.2;
          exit_odds = sale.3;
          new_balance = n;
        })
        u
Closing-Sold {bet_id = bet_id} {s = s} {sale = sale} {first = first} there owned c h =
    let found : some first ≡ some c.bet = sym there ∙ where-bet? bet_id s.bets c.bet [] c.row in
    let same : first ≡ c.bet = cc found in
    record {
      bet = c.bet;
      row = c.row;
      owner = ap (λ (b : Bet). b.user_id) (sym same) ∙ owned;
      waiting = c.waiting;
      live = c.live;
      value = c.value;
      pnl = ap (λ n. profit_or_loss n sale.2) c.stake;
      wallet = sale.0;
      wallet_found = c.wallet_found;
      liability = c.liability;
      liability_found = c.liability_found;
      effect = c.effect;
      new_balance = h;
    }

-- A cash-out that returns is as `Sold` says: it closed the caller's own pending bet of an open
-- market, for its cash-out value at the live price of its outcome, and the balances moved by
-- exactly that.
pub sell_position_effect :
    (port : MarketReadPort) (now bet_id user : ℕ) (s : Db) (sale : SaleResult) (u : Db)
    → sell_position port now bet_id user s ≡ (ok sale, u)
    → (sale.bet_id ≡ bet_id) × Sold port now bet_id user s sale u
unfolding sell_position
sell_position_effect port now bet_id user s sale u h =
    let (first, there, owned, h1) = check_owner-then {s = s} bet_id user _ h in
    let (sold, t, h2, h3) = >>=-eq-ok (close_bet port now bet_id user) _ s h1 in
    let (a, row, h4) = read_balance-then sold.0 _ h3 in
    let c = close_bet-Closing port now bet_id user s sold t h2 in
    let read : balance sold.0 t ≡ a.balance = ap balance_or_zero row in
    let (e, e') = returned h4 in
    (
      ap (λ (r : SaleResult). r.bet_id) e,
      subst (λ (p : SaleResult × Db). Sold port now bet_id user s p.0 p.1)
          (λ i. (sym e i, sym e' i)) (Closing-Sold there owned c (sym read)),
    )
