-- ===== src/Examples/Bets.antt =====
-- The theorems on backend/app/bets/service.py, at the runs.
use xpredict.Prelude.{ℕ, ◌≡◌}
use xpredict.Prelude.Int.{ℤ, pos}
use xpredict.Money.Errors.{insufficient_balance}
use xpredict.Bets.MarketPort.{house_read_adapter}
use xpredict.Bets.Placement.{Placed, Harmless, place_bet_effect}
use xpredict.Database.Rows.{Db, open_status}
use xpredict.Money.Errors.{ok}
use xpredict.Prelude.{refl, none, some, [], ◌∷◌}
use xpredict.Database.Tables.{account?, set_balance}
use xpredict.Money.{cashout_value, compute_payout, profit_or_loss}
use xpredict.Wallet.{key_taken, create_wallet, recharge}
use xpredict.Database.Keys.{key_eq}
use xpredict.Ledger.{update_bet}
use xpredict.Bets.{SaleResult, place_bet, sell_position, bet?}
use xpredict.Bets.MarketPort.{MarketReadPort, outcome?}
use xpredict.Database.Rows.{money_limit}
use xpredict.Settlement.Port.{market?}
use xpredict.Examples.Data.{seeded}
use xpredict.Bets.Sale.{Sold, sell_position_effect}
use xpredict.Bets.Rejection.{place_bet_rejected}
use xpredict.Examples.Data.{limits, recharged, has_bet}
use xpredict.Examples.Runs.{rain_bet, place_bet_runs, broke, place_bet_refuses}

place_bet_effect_example :
    (n : ℕ) × (◌≡◌ {A = ℤ} (pos 200000) (pos n))
    × Placed house_read_adapter limits 10 7 500 501 n recharged rain_bet has_bet
place_bet_effect_example =
    place_bet_effect house_read_adapter limits 10 7 500 501 (pos 200000) recharged rain_bet has_bet
      place_bet_runs

place_bet_rejected_example : Harmless recharged broke
place_bet_rejected_example =
    place_bet_rejected house_read_adapter limits 10 7 500 501 (pos 2000000) recharged
      insufficient_balance broke place_bet_refuses

-- The price of outcome 501 has doubled to 0.5 since the bet, and the position is worth 40.0000.
abbrev risen : MarketReadPort
risen s market_id = some (record {
  id = market_id;
  status = open_status;
  deadline = 90;
  outcomes = record { id = 501; label = "YES"; price = 500000 } ∷ [];
  min_stake = none;
  max_stake = none;
  question = none;
  slug = none;
})

abbrev rain_sale : SaleResult
rain_sale = record {
  bet_id = 1003;
  payout = 400000;
  pnl = pos 200000;
  exit_odds = 500000;
  new_balance = 1200000;
}

abbrev sold : Db
sold = (sell_position risen 20 1003 7 has_bet).1

sell_position_runs : sell_position risen 20 1003 7 has_bet ≡ (ok rain_sale, sold)
unfolding seeded create_wallet recharge place_bet sell_position house_read_adapter key_taken key_eq
    account? set_balance money_limit outcome? cashout_value compute_payout profit_or_loss market?
    update_bet bet?
sell_position_runs = refl

sell_position_effect_example :
    (rain_sale.bet_id ≡ 1003) × Sold risen 20 1003 7 has_bet rain_sale sold
sell_position_effect_example =
    sell_position_effect risen 20 1003 7 has_bet rain_sale sold sell_position_runs
