-- ===== src/Examples/Settlement.antt =====
-- The theorems on backend/app/settlement/plan.py and service.py, on plans and at the runs.
use xpredict.Prelude.{
  ℕ, ◌≡◌, ◌≢◌, refl, ap, arith, some, List, [], ◌∷◌, map, where_rows, true, false, if◌then◌else◌,
}
use xpredict.Prelude.Int.{pos, negsuc}
use xpredict.Money.{compute_payout, profit_or_loss}
use xpredict.Money.Errors.{unique_violation, ok, err, value_error}
use xpredict.Database.Rows.{Db, BetStatus, money_limit}
use xpredict.Database.Keys.{key_eq}
use xpredict.Database.Tables.{account?, set_balance}
use xpredict.Wallet.{create_wallet, recharge, key_taken}
use xpredict.Bets.{place_bet}
use xpredict.Bets.MarketPort.{house_read_adapter, outcome?}
use xpredict.Settlement.Plan.{BetToSettle, SettlementPlan, build_settlement_plan}
use xpredict.Settlement.Plan.Correct.{
  SettlesAll, payouts, losing_stakes, all_payable, build_settlement_plan_correct,
  build_settlement_plan_total,
}
use xpredict.Settlement.Port.{house_adapter, market?}
use xpredict.Settlement.Service.{to_settle, pending_in, resolve_market}
use xpredict.Ledger.Queries.{HasLiability}
use xpredict.Settlement.Service.Effect.{Settled, resolve_market_effect}
use xpredict.Settlement.Service.Statuses.{UniqueIds}
use xpredict.Settlement.Service.Pending.{resolve_market_settles_all}
use xpredict.Settlement.Service.{reverse_settlement, settled_in}
use xpredict.Settlement.Service.Reversal.{Reversed, reverse_settlement_effect}
use xpredict.Settlement.Port.{set_market, house_mark_resolved, house_mark_unresolved}
use xpredict.Prelude.{length}
use xpredict.Ledger.{update_bet}
use xpredict.Money.{compute_payout, profit_or_loss}
use xpredict.Settlement.Service.Blocked.{resolve_market_blocked}
use xpredict.Settlement.Service.Undo.RoundTrip.{reversal_undoes_settlement}
use xpredict.Settlement.Service.Undo.Repeat.{resolve_again_blocked}
use xpredict.Wallet.Posting.{balance}
use xpredict.Examples.Data.{limits, seeded, recharged, has_bet, settled}
use xpredict.Examples.Runs.{rain_plan, resolve_market_runs}

-- 2.0000 on outcome 1 at 0.25, and 1.0000 on outcome 2 at 0.3.
abbrev two_bets : List BetToSettle
two_bets =
    record { bet_id = 10; outcome_id = 1; stake = 20000; price = 250000 }
    ∷ record { bet_id = 11; outcome_id = 2; stake = 10000; price = 300000 }
    ∷ []

abbrev two_results : SettlementPlan
two_results = record {
  winning_outcome_id = 1;
  settled =
      record {
        bet_id = 10;
        won = true;
        payout = 80000;
        pnl = pos 60000;
        status = BetStatus.settled_won;
      }
      ∷ record {
        bet_id = 11;
        won = false;
        payout = 0;
        pnl = negsuc 9999;
        status = BetStatus.settled_lost;
      }
      ∷ [];
  total_payout = 80000;
  total_loser_stake = 10000;
}

two_bets_plan : build_settlement_plan two_bets 1 ≡ ok two_results
unfolding build_settlement_plan compute_payout profit_or_loss
two_bets_plan = refl

build_settlement_plan_correct_example :
    (two_results.winning_outcome_id ≡ 1)
    × SettlesAll 1 two_bets two_results.settled
    × (two_results.total_payout ≡ payouts two_results.settled)
    × (two_results.total_loser_stake ≡ losing_stakes 1 two_bets)
build_settlement_plan_correct_example =
    build_settlement_plan_correct two_bets 1 two_results two_bets_plan

build_settlement_plan_total_example :
    if all_payable 1 two_bets
    then ((plan : SettlementPlan) × (build_settlement_plan two_bets 1 ≡ ok plan))
    else (build_settlement_plan two_bets 1 ≡ err value_error)
build_settlement_plan_total_example = build_settlement_plan_total two_bets 1

resolve_market_effect_example :
    (build_settlement_plan (map to_settle (where_rows (pending_in 500) has_bet.bets)) 501
      ≡ ok rain_plan)
    × ((l : ℕ) × (where_rows (pending_in 500) has_bet.bets ≢ [] → HasLiability 500 has_bet l)
        × Settled l 501 (where_rows (pending_in 500) has_bet.bets) rain_plan has_bet settled)
resolve_market_effect_example =
    resolve_market_effect (house_adapter 20) 500 501 "it rained" (some 9) has_bet rain_plan settled
      resolve_market_runs

-- A bet of 20.0000 on outcome 502, whose live odds are 0, is accepted.
abbrev has_zero_bet : Db
has_zero_bet = (place_bet house_read_adapter limits 10 7 500 502 (pos 200000) recharged).1

zero_bet_unpayable :
    all_payable 502 (map to_settle (where_rows (pending_in 500) has_zero_bet.bets)) ≡ false
unfolding seeded create_wallet recharge place_bet house_read_adapter key_taken key_eq account?
    set_balance money_limit outcome? all_payable market?
zero_bet_unpayable = refl

resolve_market_blocked_example :
    resolve_market (house_adapter 20) 500 502 "it stayed dry" (some 9) has_zero_bet
    ≡ (err value_error, has_zero_bet)
resolve_market_blocked_example =
    resolve_market_blocked (house_adapter 20) 500 502 "it stayed dry" (some 9) has_zero_bet
      zero_bet_unpayable

has_bet_unique : UniqueIds has_bet.bets
unfolding seeded create_wallet recharge place_bet house_read_adapter key_taken key_eq account?
    set_balance money_limit outcome? market?
has_bet_unique = (refl, tt)

resolve_market_settles_all_example : where_rows (pending_in 500) settled.bets ≡ []
resolve_market_settles_all_example =
    resolve_market_settles_all (house_adapter 20) 500 501 "it rained" (some 9) has_bet rain_plan
      settled has_bet_unique resolve_market_runs

abbrev undone : Db
undone = (reverse_settlement (house_adapter 30) 500 "it did not rain" (some 9) settled).1

reverse_settlement_runs :
    reverse_settlement (house_adapter 30) 500 "it did not rain" (some 9) settled ≡ (ok 1, undone)
unfolding seeded create_wallet recharge place_bet resolve_market reverse_settlement
    house_read_adapter house_mark_resolved house_mark_unresolved key_taken key_eq account?
    set_balance money_limit outcome? build_settlement_plan compute_payout profit_or_loss market?
    set_market update_bet
reverse_settlement_runs = refl

reverse_settlement_effect_example :
    (1 ≡ length (where_rows (settled_in 500) settled.bets))
    × ((l : ℕ) × (where_rows (settled_in 500) settled.bets ≢ [] → HasLiability 500 settled l)
        × Reversed l (where_rows (settled_in 500) settled.bets) settled undone)
reverse_settlement_effect_example =
    reverse_settlement_effect (house_adapter 30) 500 "it did not rain" (some 9) settled 1 undone
      reverse_settlement_runs

none_settled : where_rows (settled_in 500) has_bet.bets ≡ []
unfolding seeded create_wallet recharge place_bet house_read_adapter key_taken key_eq account?
    set_balance money_limit outcome? market?
none_settled = refl

reversal_undoes_settlement_example :
    ((x : ℕ) → balance x undone ≡ balance x has_bet) × (undone.bets ≡ has_bet.bets)
reversal_undoes_settlement_example =
    reversal_undoes_settlement (house_adapter 20) (house_adapter 30) 500 501 "it rained"
      "it did not rain" (some 9) (some 9) has_bet rain_plan settled 1 undone has_bet_unique
      none_settled resolve_market_runs reverse_settlement_runs

one_pending : length (where_rows (pending_in 500) has_bet.bets) ≡ 1
unfolding seeded create_wallet recharge place_bet house_read_adapter key_taken key_eq account?
    set_balance money_limit outcome? market?
one_pending = refl

some_pending : where_rows (pending_in 500) has_bet.bets ≢ []
some_pending none_left =
    let none : length (where_rows (pending_in 500) has_bet.bets) ≡ 0 = ap length none_left in
    omega (arith, none, one_pending)

resolve_again_blocked_example :
    resolve_market (house_adapter 40) 500 501 "it rained after all" (some 9) undone
    ≡ (err unique_violation, undone)
resolve_again_blocked_example =
    resolve_again_blocked (house_adapter 20) (house_adapter 30) (house_adapter 40) 500 501
      "it rained" "it did not rain" "it rained after all" (some 9) (some 9) (some 9) has_bet
      rain_plan settled 1 undone has_bet_unique none_settled some_pending resolve_market_runs
      reverse_settlement_runs
