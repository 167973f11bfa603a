-- ===== src/Bets/Soundness.antt =====
-- Placing and cashing out a bet (backend/app/bets/service.py) keep to the double entry.
use xpredict.Prelude.{ℕ, ◌+◌, where_rows, arith, refl, List, [], ◌∷◌}
use xpredict.Prelude.Int.{ℤ}
use xpredict.Database.Rows.{Db, Account, Bet}
use xpredict.Session.{gets, uuid4, ◌>>=◌}
use xpredict.Session.Rules.{
  Preorder, Does, AlwaysDoes, does_rules, always_rules, Always-begin, OnOk,
}
use xpredict.Wallet.Flow.{sound, Sound, Sound-same}
use xpredict.Wallet.{read_balance}
use xpredict.Wallet.Soundness.{new_account-Sound}
use xpredict.Ledger.{is_liability_of}
use xpredict.Ledger.Soundness.{service_rules}
use xpredict.Bets.{
  StakeSettings, upsert_liability, find_or_add_liability, ensure_market_liability_account,
  check_market, check_view, insert_bet, stake_bet, staked_bet, place_bet, check_owner, lock_bet,
  live_price, close_bet, closing, sell_position,
}
use xpredict.Bets.MarketPort.{MarketReadPort}

-- The id that is drawn goes to the new account, or to none.
Does-upsert_liability :
    (m : ℕ) (query : Db → List Account)
    → Does sound (uuid4 >>= λ id. gets query >>= λ rows. upsert_liability m id rows)
unfolding ◌>>=◌ uuid4 gets upsert_liability
Does-upsert_liability m query = record {
  at = λ s. go s (query (record s { next_id = s.next_id + 1 }));
}
  where
    go :
        (s : Db) (rows : List Account)
        → OnOk Sound s (upsert_liability m s.next_id rows (record s { next_id = s.next_id + 1 }))
    go s [] = new_account-Sound s _ refl refl
    go s (a ∷ rows) = sound.quiet s (s.next_id + 1) s.locks (omega arith)

Always-ensure : (m : ℕ) → AlwaysDoes sound (ensure_market_liability_account m)
unfolding ensure_market_liability_account find_or_add_liability
Always-ensure m =
    Always-begin _ (Does-upsert_liability m (λ s. where_rows (is_liability_of m) s.accounts))

Does-insert_bet : (b : Bet) → Does sound (insert_bet b)
unfolding insert_bet
Does-insert_bet b = record { at = λ s. Sound-same s _ refl refl refl (omega arith) }

module _ {r : Preorder} where
  pub Always-check_market :
      (port : MarketReadPort) (settings : StakeSettings) (now m o ticks : ℕ)
      → AlwaysDoes r (check_market port settings now m o ticks)
  unfolding check_market check_view
  Always-check_market port settings now m o ticks = search always_rules depth 9

  Always-check_owner : (bet user : ℕ) → AlwaysDoes r (check_owner bet user)
  unfolding check_owner
  Always-check_owner bet user = search always_rules depth 9

  Always-read_balance : (x : ℕ) → AlwaysDoes r (read_balance x)
  unfolding read_balance
  Always-read_balance x = search always_rules depth 9

  Does-lock_bet : (bet : ℕ) → Does r (lock_bet bet)
  unfolding lock_bet
  Does-lock_bet bet = search does_rules depth 9

  Does-live_price : (port : MarketReadPort) (now : ℕ) (b : Bet) → Does r (live_price port now b)
  unfolding live_price
  Does-live_price port now b = search does_rules depth 9

Always-stake_bet :
    (user m o ticks price l : ℕ) → AlwaysDoes sound (stake_bet user m o ticks price l)
unfolding stake_bet staked_bet
Always-stake_bet user m o ticks price l =
    search (always_rules, service_rules, Does-insert_bet) depth 12

-- Whatever a placement returns or raises, the ledger keeps to the double entry.
pub place_bet-Sound :
    (port : MarketReadPort) (settings : StakeSettings) (now user m o : ℕ) (amount : ℤ)
    → AlwaysDoes sound (place_bet port settings now user m o amount)
unfolding place_bet
place_bet-Sound port settings now user m o amount =
    search (always_rules, Always-check_market, Always-ensure, Always-stake_bet) depth 9

Always-close_bet :
    (port : MarketReadPort) (now bet user : ℕ) → AlwaysDoes sound (close_bet port now bet user)
unfolding close_bet closing
Always-close_bet port now bet user =
    search (always_rules, service_rules, Does-lock_bet, Does-live_price) depth 14

-- Whatever a cash-out returns or raises, the ledger keeps to the double entry.
pub sell_position-Sound :
    (port : MarketReadPort) (now bet user : ℕ) → AlwaysDoes sound (sell_position port now bet user)
unfolding sell_position
sell_position-Sound port now bet user =
    search (always_rules, Always-check_owner, Always-close_bet, Always-read_balance) depth 9
