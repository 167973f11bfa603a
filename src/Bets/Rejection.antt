-- ===== src/Bets/Rejection.antt =====
-- A rejected `BetService.place_bet` (backend/app/bets/service.py) moves no money and records no bet.
use xpredict.Prelude.{ℕ, ◌≡◌, refl, ◌∙◌, List, ◌≤◌, inl, inr}
use xpredict.Prelude.Int.{ℤ}
use xpredict.Money.Errors.{Error, err}
use xpredict.Database.Rows.{Db, RowLock, Bet}
use xpredict.Session.{Action, positive, ◌>>=◌}
use xpredict.Session.Rules.{Preorder, AlwaysDoes, Always-positive}
use xpredict.Session.Inversion.{begin-eq-err, >>=-eq-err, always-rel}
use xpredict.Bets.{
  StakeSettings, find_or_add_liability, ensure_market_liability_account, check_market, stake_bet,
  staked_bet, place_bet,
}
use xpredict.Bets.MarketPort.{MarketReadPort}
use xpredict.Bets.Soundness.{Always-check_market}
use xpredict.Bets.Placement.{Harmless, ensure-Harmless}

Harmless-reflexive : (s : Db) → Harmless s s
Harmless-reflexive s = record {
  balances = λ x. refl;
  wallets = λ user. refl;
  bets = refl;
  entries = refl;
  transfers = refl;
}

Harmless-transitive : (s t u : Db) → Harmless s t → Harmless t u → Harmless s u
Harmless-transitive s t u p q = record {
  balances = λ x. q.balances x ∙ p.balances x;
  wallets = λ user. q.wallets user ∙ p.wallets user;
  bets = q.bets ∙ p.bets;
  entries = q.entries ∙ p.entries;
  transfers = q.transfers ∙ p.transfers;
}

Harmless-quiet :
    (s : Db) (n : ℕ) (l : List RowLock)
    → s.next_id ≤ n
    → Harmless s (record s { next_id = n; locks = l })
Harmless-quiet s n l h = record {
  balances = λ x. refl;
  wallets = λ user. refl;
  bets = refl;
  entries = refl;
  transfers = refl;
}

abbrev harmless : Preorder
harmless = record {
  rel = Harmless;
  reflexive = Harmless-reflexive;
  transitive = Harmless-transitive;
  quiet = Harmless-quiet;
}

-- After the stake was checked, and after the market was.
checked_bet : MarketReadPort → StakeSettings → ℕ → ℕ → ℕ → ℕ → ℕ → Action Bet
checked_bet port settings now user m o n = do
  chosen ← check_market port settings now m o n
  liability_id ← ensure_market_liability_account m
  stake_bet user m o n chosen.price liability_id

funded-Harmless :
    (user m o n price : ℕ) (s : Db) (e : Error) (u : Db)
    → (ensure_market_liability_account m >>= λ l. stake_bet user m o n price l) s ≡ (err e, u)
    → Harmless s u
unfolding ensure_market_liability_account stake_bet
funded-Harmless user m o n price s e u h =
    elim (>>=-eq-err (ensure_market_liability_account m) _ s h) [
      | inl h1 ↦ rw (begin-eq-err (find_or_add_liability m) s h1) (Harmless-reflexive s)
      | inr (l, t, k, h1) ↦
          rw (begin-eq-err (staked_bet user m o n price l) t h1) (ensure-Harmless m s k)
    ]

checked-Harmless :
    (port : MarketReadPort) (settings : StakeSettings) (now user m o n : ℕ) (s : Db) (e : Error)
    (u : Db)
    → checked_bet port settings now user m o n s ≡ (err e, u)
    → Harmless s u
unfolding checked_bet
checked-Harmless port settings now user m o n s e u h =
    let checks : AlwaysDoes harmless (check_market port settings now m o n) =
      Always-check_market port settings now m o n in
    elim (>>=-eq-err (check_market port settings now m o n) _ s h) [
      | inl h1 ↦ always-rel checks h1
      | inr (chosen, t, k, h1) ↦
          Harmless-transitive s t u (always-rel checks k)
            (funded-Harmless user m o n chosen.price t e u h1)
    ]

-- A placement that raises, for whatever reason and at whatever step, leaves every balance, every
-- wallet, the bets and the ledger's rows as they were.
pub place_bet_rejected :
    (port : MarketReadPort) (settings : StakeSettings) (now user m o : ℕ) (amount : ℤ) (s : Db)
    (e : Error) (u : Db)
    → place_bet port settings now user m o amount s ≡ (err e, u)
    → Harmless s u
unfolding place_bet checked_bet
place_bet_rejected port settings now user m o amount s e u h =
    elim (>>=-eq-err (positive amount) _ s h) [
      | inl h1 ↦ always-rel {r = harmless} (Always-positive amount) h1
      | inr (n, t, k, h1) ↦
          Harmless-transitive s t u (always-rel {r = harmless} (Always-positive amount) k)
            (checked-Harmless port settings now user m o n t e u h1)
    ]
