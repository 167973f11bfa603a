-- ===== src/Bets/Placement.antt =====
-- What `BetService.place_bet` (backend/app/bets/service.py) has checked and done when it returns.
use xpredict.Prelude.{
  ℕ, ◌+◌, ◌≤◌, ◌≡◌, refl, ap, sym, ◌∙◌, Bool, true, false, ◌&&◌, not, none, some, List, [], ◌∷◌,
  ◌++◌, ◌==◌, if◌then◌else◌, where_rows, arith, leb, ltb,
}
use mathlib.Core.Path.{subst}
use xpredict.Prelude.Int.{ℤ, pos}
use xpredict.Money.Errors.{
  ok, market_not_found, market_closed, invalid_outcome, stake_out_of_range, insufficient_balance,
}
use xpredict.Database.Rows.{Db, Account, Bet, pending, Transfer, bet_placed, placed, Metadata}
use xpredict.Database.Tables.{account?-append}
use xpredict.Session.{Action, pure, gets, ◌>>=◌, uuid4, sorted_pair}
use xpredict.Session.Inversion.{
  positive-then, begin-eq-ok, or_raise-then, raise_if-then, returned, >>=-eq-ok,
}
use xpredict.Session.Untouched.{Untouched}
use xpredict.Wallet.{is_wallet_of, post_transfer}
use xpredict.Wallet.Posting.{balance, debit_entry, credit_entry, Posted, post_transfer-Posted}
use xpredict.Wallet.Effects.{Moved, Posted-Moved, locked-then}
use xpredict.Wallet.Queries.{HasWallet, read_balance-then, resolve_user_wallet_id-then}
use xpredict.Ledger.{is_liability_of}
use xpredict.Bets.{
  StakeSettings, or_default, new_liability, upsert_liability, find_or_add_liability,
  ensure_market_liability_account, check_market, check_view, insert_bet, stake_bet, staked_bet,
  place_bet,
}
use xpredict.Bets.MarketPort.{MarketReadPort, MarketView, OutcomeView, is_open, outcome?}

-- No balance, wallet, bet or entry differs: at most an empty account of a market is new.
pub record Harmless (s u : Db) : Type 0 where
  pub balances : (x : ℕ) → balance x u ≡ balance x s
  pub wallets :
      (user : ℕ)
      → where_rows (is_wallet_of user) u.accounts ≡ where_rows (is_wallet_of user) s.accounts
  pub bets : u.bets ≡ s.bets
  pub entries : u.entries ≡ s.entries
  pub transfers : u.transfers ≡ s.transfers

where_rows-skip :
    (p : Account → Bool) (rows : List Account) (a : Account)
    → p a ≡ false
    → where_rows p (rows ++ a ∷ []) ≡ where_rows p rows
where_rows-skip p [] a h = rw h refl
where_rows-skip p (r ∷ rows) a h = ground (arith, where_rows-skip p rows a)

upsert_liability-Harmless :
    (m id : ℕ) (rows : List Account) (s : Db) {l : ℕ} {u : Db}
    → upsert_liability m id rows s ≡ (ok l, u)
    → Harmless s u
unfolding upsert_liability
upsert_liability-Harmless m id [] s h = rw (returned h).1 (record {
  balances = λ x. ground (arith, account?-append x s.accounts (new_liability m id));
  wallets = λ user. where_rows-skip (is_wallet_of user) s.accounts (new_liability m id) refl;
  bets = refl;
  entries = refl;
  transfers = refl;
})
upsert_liability-Harmless m id (a ∷ rows) s h = rw (returned h).1 (record {
  balances = λ x. refl;
  wallets = λ user. refl;
  bets = refl;
  entries = refl;
  transfers = refl;
})

pub ensure-Harmless :
    (m : ℕ) (s : Db) {l : ℕ} {u : Db}
    → ensure_market_liability_account m s ≡ (ok l, u)
    → Harmless s u
unfolding ensure_market_liability_account find_or_add_liability uuid4 gets ◌>>=◌
ensure-Harmless m s h =
    let h' = begin-eq-ok (find_or_add_liability m) s h in
    let q =
      upsert_liability-Harmless m s.next_id (where_rows (is_liability_of m) s.accounts)
        (record s { next_id = s.next_id + 1; locks = [] }) h' in
    record {
      balances = q.balances;
      wallets = q.wallets;
      bets = q.bets;
      entries = q.entries;
      transfers = q.transfers;
    }

-- The checks on the market and the stake.
pub record Accepted (port : MarketReadPort) (settings : StakeSettings) (now m o n : ℕ) (s : Db)
    (price : ℕ) : Type 0 where
  pub view : MarketView
  pub chosen : OutcomeView
  pub market_found : port s m ≡ some view
  pub market_open : is_open view now ≡ true
  pub outcome_found : outcome? o view.outcomes ≡ some chosen
  pub price_live : price ≡ chosen.price
  pub stake_min : or_default view.min_stake settings.bet_min_stake ≤ n
  pub stake_max : n ≤ or_default view.max_stake settings.bet_max_stake

check_market-then :
    {B : Type 0} {s : Db} {b : B} {u : Db} (port : MarketReadPort) (settings : StakeSettings)
    (now m o n : ℕ) (k : OutcomeView → Action B)
    → (check_market port settings now m o n >>= k) s ≡ (ok b, u)
    → (chosen : OutcomeView) × Accepted port settings now m o n s chosen.price
      × (k chosen s ≡ (ok b, u))
unfolding check_market check_view gets ◌>>=◌
check_market-then {s = s} {b = b} {u = u} port settings now m o n k h =
    let (c, t, h1, h2) = >>=-eq-ok (check_market port settings now m o n) k s h in
    let (view, found, h4) =
      or_raise-then {s = s} (port s m) market_not_found (check_view settings now o n) h1 in
    let (opened, h5) = raise_if-then (not (is_open view now)) market_closed _ h4 in
    let (chosen, there, h6) = or_raise-then (outcome? o view.outcomes) invalid_outcome _ h5 in
    let low = or_default view.min_stake settings.bet_min_stake in
    let high = or_default view.max_stake settings.bet_max_stake in
    let (within, h7) = raise_if-then (not (leb low n && leb n high)) stake_out_of_range _ h6 in
    let (e, e') = returned h7 in
    (
      chosen,
      record {
        view = view;
        chosen = chosen;
        market_found = found;
        market_open = ground arith;
        outcome_found = there;
        price_live = refl;
        stake_min = ground arith;
        stake_max = ground arith;
      },
      subst (λ (p : OutcomeView × Db). k p.0 p.1 ≡ (ok b, u)) (λ i. (e i, e' i)) h2,
    )

abbrev pub new_bet : ℕ → ℕ → ℕ → ℕ → ℕ → ℕ → Bet
new_bet id user m o n price = record {
  id = id;
  user_id = user;
  market_id = m;
  outcome_id = o;
  stake = n;
  odds_at_placement = price;
  status = pending;
  closed_at = none;
  exit_odds = none;
}

-- The state in which the stake is posted.
abbrev with_bet : Bet → Db → Db
with_bet bet s = record s { next_id = s.next_id + 1; bets = s.bets ++ bet ∷ [] }

record Staked (user m o n price l : ℕ) (s : Db) (bet : Bet) (u : Db) : Type 0 where
  id : ℕ
  wallet : ℕ
  transfer : Transfer
  row : bet ≡ new_bet id user m o n price
  wallet_found : HasWallet user s wallet
  moved : Moved wallet l n s transfer u
  bets : u.bets ≡ s.bets ++ bet ∷ []

Posted-Staked :
    {user m o n price l w : ℕ} {meta : Metadata} (s s1 : Db)
    → Untouched (record s { locks = [] }) s1
    → (b : Bet) (t : Transfer) (bet : Bet) (u v : Db) → HasWallet user s w
    → Posted bet_placed none (some user) w l n meta (with_bet b s1) t v
    → bet ≡ b
    → u ≡ v
    → b ≡ new_bet s1.next_id user m o n price
    → Staked user m o n price l s bet u
Posted-Staked {w = w} s s1 q b t bet u v has p e e' row = record {
  id = s1.next_id;
  wallet = w;
  transfer = t;
  row = e ∙ row;
  wallet_found = has;
  moved = subst (Moved w _ _ s t) (sym e') (
      Posted-Moved (record { accounts = q.accounts; transfers = q.transfers; entries = q.entries })
        p);
  bets =
      ap (λ (z : Db). z.bets) (e' ∙ p.after)
      ∙ ap (λ l. l ++ b ∷ []) q.bets
      ∙ ap (λ c. s.bets ++ c ∷ []) (sym e);
}

stake_bet_lem :
    (user m o n price l : ℕ) (s : Db) (bet : Bet) (u : Db)
    → stake_bet user m o n price l s ≡ (ok bet, u)
    → Staked user m o n price l s bet u
unfolding stake_bet staked_bet uuid4 insert_bet ◌>>=◌
stake_bet_lem user m o n price l s bet u h =
    let h' = begin-eq-ok (staked_bet user m o n price l) s h in
    let (w, has, h1) = resolve_user_wallet_id-then {s = record s { locks = [] }} user _ h' in
    let (_, s1, q, _, h2) = locked-then (sorted_pair w l) _ h1 in
    let (a, found, h3) = read_balance-then w _ h2 in
    let (_, h4) = raise_if-then (ltb a.balance n) insufficient_balance _ h3 in
    let b = new_bet s1.next_id user m o n price in
    let (t, v, h5, h6) =
      >>=-eq-ok (post_transfer bet_placed none (some user) w l n (placed s1.next_id m o))
        (λ _. pure b) (with_bet b s1) h4 in
    let p =
      post_transfer-Posted bet_placed none (some user) w l n (placed s1.next_id m o) (with_bet b s1)
        t v h5 in
    let (e, e') = returned h6 in Posted-Staked s s1 q b t bet u v has p e e' refl

-- What a placed bet stands for: the market was open, the outcome was one of its outcomes and its
-- live price was locked, the stake was within the limits and covered by the wallet, and it went
-- from the wallet to the liability account `liability`, in one transfer.
pub record Placed (port : MarketReadPort) (settings : StakeSettings) (now user m o n : ℕ) (s : Db)
    (bet : Bet) (u : Db) : Type 0 where
  pub price : ℕ
  pub accepted : Accepted port settings now m o n s price
  pub id : ℕ
  pub row : bet ≡ new_bet id user m o n price
  pub wallet : ℕ
  pub wallet_found : HasWallet user s wallet
  pub liability : ℕ
  pub covered : n ≤ balance wallet s
  pub balances :
      (x : ℕ)
      → balance x u + (if wallet == x then n else 0)
        ≡ balance x s + (if liability == x then n else 0)
  pub transfer : Transfer
  pub entries :
      u.entries
      ≡ (s.entries ++ debit_entry transfer.id wallet n ∷ [])
        ++ credit_entry transfer.id liability n ∷ []
  pub bets : u.bets ≡ s.bets ++ bet ∷ []

Staked-Placed :
    {port : MarketReadPort} {settings : StakeSettings} {now user m o n price l : ℕ} {s s' : Db}
    {bet : Bet} {u : Db}
    → Accepted port settings now m o n s price
    → Harmless s s'
    → Staked user m o n price l s' bet u
    → Placed port settings now user m o n s bet u
Staked-Placed {user = user} {n = n} {price = price} {l = l} {s = s} {s' = s'} {bet = bet} acc q k =
    let (a, found, e) = k.wallet_found in
    record {
      price = price;
      accepted = acc;
      id = k.id;
      row = k.row;
      wallet = k.wallet;
      wallet_found = (a, sym (q.wallets user) ∙ found, e);
      liability = l;
      covered = omega (arith, k.moved.covered, q.balances k.wallet);
      balances = λ x. omega (arith, k.moved.balances x, q.balances x);
      transfer = k.transfer;
      entries =
          k.moved.entries
          ∙ ap
              (λ es.
                (es ++ debit_entry k.transfer.id k.wallet n ∷ [])
                ++ credit_entry k.transfer.id l n ∷ [])
              q.entries;
      bets = k.bets ∙ ap (λ bs. bs ++ bet ∷ []) q.bets;
    }

-- A placement that returns had a positive stake, and is as `Placed` says.
pub place_bet_effect :
    (port : MarketReadPort) (settings : StakeSettings) (now user m o : ℕ) (amount : ℤ) (s : Db)
    (bet : Bet) (u : Db)
    → place_bet port settings now user m o amount s ≡ (ok bet, u)
    → (n : ℕ) × (amount ≡ pos n) × Placed port settings now user m o n s bet u
unfolding place_bet
place_bet_effect port settings now user m o amount s bet u h =
    let (n, e, _, h1) = positive-then amount _ h in
    let (chosen, acc, h2) = check_market-then port settings now m o n _ h1 in
    let (l, t, h3, h4) = >>=-eq-ok (ensure_market_liability_account m) _ s h2 in
    (
      n,
      e,
      Staked-Placed acc (ensure-Harmless m s h3)
          (stake_bet_lem user m o n chosen.price l t bet u h4),
    )
