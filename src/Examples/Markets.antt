-- ===== src/Examples/Markets.antt =====
-- The theorems on backend/app/markets, on the market of `Data`.
use xpredict.Prelude.{
  ◌+◌, ◌≡◌, refl, String, none, some, true, List, [], ◌∷◌, ◌↔◌, is_yes, hex6, arith,
}
use xpredict.Prelude.Int.{pos}
use xpredict.Money.Errors.{ok}
use xpredict.Database.Rows
use xpredict.Database.Rows.{Db, Market, Bet, money_limit}
use xpredict.Database.Keys.{key_eq}
use xpredict.Database.Tables.{account?, set_balance}
use xpredict.Wallet.{create_wallet, recharge, key_taken}
use xpredict.Settlement.Port.{market?, set_market}
use xpredict.Bets.{place_bet}
use xpredict.Bets.MarketPort.{house_read_adapter, MarketView, is_open}
use xpredict.Markets.{
  MarketUpdate, OddsDelta, update_market, close_market, closed_market, updated_market,
}
use xpredict.Markets.Creation.{
  MarketCreate, create_market, house_market, generate_slug, binary_outcomes, insert_market,
}
use xpredict.Markets.Creation.Opened.{Opened, create_market_effect}
use xpredict.Markets.Criteria.{only_criteria, bets_do_not_lock_criteria}
use xpredict.Markets.Closing.{closed_market_takes_no_bets}
use xpredict.Markets.Edits.{Repriced, update_market_reprices}
use xpredict.Markets.Router.{bet_check, market_by_slug}
use xpredict.Markets.Router.Guards.{bet_check_agrees}
use xpredict.Examples.Runs.{rain_bet, place_bet_runs}
use xpredict.Examples.Data.{limits, seeded, rain_market, recharged, has_bet}

rain_row : market? 500 recharged.markets ≡ some rain_market
unfolding seeded create_wallet recharge key_taken key_eq account? set_balance money_limit market?
rain_row = refl

bets_do_not_lock_criteria_example :
    (market? 500 has_bet.markets ≡ some rain_market)
    × ((update_market 20 9 rain_market (only_criteria "two gauges") has_bet).0
        ≡ ok (record rain_market { resolution_criteria = "two gauges" }, []))
bets_do_not_lock_criteria_example =
    bets_do_not_lock_criteria house_read_adapter limits 10 7 501 (pos 200000) rain_market recharged
      rain_bet has_bet 20 9 "two gauges" rain_row refl refl place_bet_runs

abbrev shut : Db
shut = (close_market 15 9 rain_market seeded).1

seeded_row : market? 500 seeded.markets ≡ some rain_market
unfolding seeded market?
seeded_row = refl

close_market_runs : close_market 15 9 rain_market seeded ≡ (ok (closed_market 15 rain_market), shut)
unfolding seeded close_market set_market
close_market_runs = refl

closed_market_takes_no_bets_example :
    ¬ (place_bet house_read_adapter limits 16 7 500 501 (pos 200000) shut ≡ (ok rain_bet, shut))
closed_market_takes_no_bets_example =
    closed_market_takes_no_bets 15 9 rain_market (closed_market 15 rain_market) seeded shut limits
      16 7 501 (pos 200000) rain_bet shut seeded_row close_market_runs

abbrev snow_request : MarketCreate
snow_request = record {
  question = "Snow?";
  resolution_criteria = "the webcam";
  deadline = 200;
  initial_odds_yes = 400000;
  category = some "Weather";
  min_stake = none;
  max_stake = some 500000;
}

abbrev snow_slug : String → String
snow_slug question = "snow"

abbrev snow_market : Market
snow_market = record (house_market 1001 (generate_slug snow_slug "Snow?" 1000) snow_request) {
  outcomes = binary_outcomes 1002 1003 400000;
}

abbrev snowed : Db
snowed = (create_market snow_slug 5 9 snow_request seeded).1

create_market_runs : create_market snow_slug 5 9 snow_request seeded ≡ (ok snow_market, snowed)
unfolding seeded create_market hex6 set_market insert_market
create_market_runs = refl

no_such_market : market? (seeded.next_id + 1) seeded.markets ≡ none
unfolding seeded market?
no_such_market = refl

create_market_effect_example : Opened 5 9 snow_request seeded snow_market snowed
create_market_effect_example =
    create_market_effect snow_slug 5 9 snow_request seeded snow_market snowed no_such_market
      create_market_runs

abbrev new_odds : MarketUpdate
new_odds = record {
  resolution_criteria = none;
  deadline = some 120;
  category = some none;
  min_stake = none;
  max_stake = none;
  odds_yes = some 600000;
}

abbrev repriced_market : Market
repriced_market = updated_market new_odds rain_market

abbrev new_prices : List OddsDelta
new_prices =
    record { outcome_id = 501; odds = 600000 } ∷ record { outcome_id = 502; odds = 400000 } ∷ []

abbrev repriced : Db
repriced = (update_market 20 9 rain_market new_odds seeded).1

update_market_runs :
    update_market 20 9 rain_market new_odds seeded ≡ (ok (repriced_market, new_prices), repriced)
unfolding seeded update_market set_market is_yes
update_market_runs = refl

update_market_reprices_example :
    Repriced 20 600000 rain_market seeded repriced_market new_prices repriced
update_market_reprices_example =
    update_market_reprices 20 9 600000 rain_market new_odds seeded repriced_market new_prices
      repriced refl (omega arith) update_market_runs

by_slug : market_by_slug "rain" seeded.markets ≡ some rain_market
unfolding seeded
by_slug = refl

abbrev rain_view : MarketView
rain_view = record {
  id = 500;
  status = Rows.open_status;
  deadline = 90;
  outcomes =
      record { id = 501; label = "YES"; price = 250000 }
      ∷ record { id = 502; label = "NO"; price = 0 }
      ∷ [];
  min_stake = none;
  max_stake = none;
  question = some "Rain?";
  slug = some "rain";
}

read_runs : house_read_adapter seeded 500 ≡ some rain_view
unfolding seeded house_read_adapter market?
read_runs = refl

bet_check_agrees_example : (bet_check 20 "rain" seeded ≡ ok true) ↔ (is_open rain_view 20 ≡ true)
bet_check_agrees_example =
    bet_check_agrees "rain" seeded 20 rain_market rain_view by_slug seeded_row read_runs
