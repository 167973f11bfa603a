-- ===== src/Examples/Runs.antt =====
-- Calls of the services on the small database of `Data`: backend/app/wallet/service.py,
-- backend/app/bets/service.py, backend/app/settlement/service.py and
-- backend/app/integrations/livebets/service.py.
use xpredict.Prelude.{◌≡◌, refl, none, some, true, [], ◌∷◌}
use xpredict.Prelude.Int.{pos}
use xpredict.Money.{compute_payout, profit_or_loss}
use xpredict.Money.Errors.{ok, err, insufficient_balance}
use xpredict.Database.Rows
use xpredict.Database.Rows.{
  Db, Transfer, empty, reason, Bet, BetStatus, LiveStatus, LiveBetsBet, money_limit,
  house_revenue_id,
}
use xpredict.Database.Keys.{other, key_eq}
use xpredict.Database.Tables.{account?, set_balance}
use xpredict.Wallet.{PaymentProvider, recharge, create_wallet, transfer, key_taken}
use xpredict.Wallet.Posting.{balance}
use xpredict.Ledger.{update_bet}
use xpredict.Bets.{place_bet}
use xpredict.Bets.MarketPort.{house_read_adapter, outcome?}
use xpredict.Settlement.Plan.{SettlementPlan, build_settlement_plan}
use xpredict.Settlement.Port.{house_adapter, house_mark_resolved, market?, set_market}
use xpredict.Settlement.Service.{resolve_market}
use xpredict.LiveBets.{
  VerifiedBet, mirror_result, mirror?, set_mirror_status, record_placed, record_settled,
}
use xpredict.Examples.Data.{limits, seeded, registered, recharged, has_bet, settled}

abbrev pub top_up : Transfer
top_up = record {
  id = 1001;
  kind = Rows.recharge;
  idempotency_key = some (other 1);
  actor_user_id = none;
  metadata = reason "top-up";
}

pub recharge_runs :
    recharge 7 (pos 1000000) "top-up" (other 1) PaymentProvider.house registered
    ≡ (ok top_up, recharged)
unfolding seeded create_wallet recharge transfer place_bet resolve_market record_placed
    record_settled house_read_adapter house_mark_resolved key_taken key_eq account? set_balance
    money_limit outcome? build_settlement_plan compute_payout profit_or_loss mirror? market?
    set_market update_bet set_mirror_status
recharge_runs = refl

abbrev pub payment : Transfer
payment = record {
  id = 1002;
  kind = Rows.opening;
  idempotency_key = none;
  actor_user_id = none;
  metadata = empty;
}

abbrev pub paid : Db
paid = (transfer Rows.opening 1000 house_revenue_id (pos 500) none none none recharged).1

pub transfer_runs :
    transfer Rows.opening 1000 house_revenue_id (pos 500) none none none recharged
    ≡ (ok payment, paid)
unfolding seeded create_wallet recharge transfer place_bet resolve_market record_placed
    record_settled house_read_adapter house_mark_resolved key_taken key_eq account? set_balance
    money_limit outcome? build_settlement_plan compute_payout profit_or_loss mirror? market?
    set_market update_bet set_mirror_status
transfer_runs = refl

abbrev pub rain_bet : Bet
rain_bet = record {
  id = 1003;
  user_id = 7;
  market_id = 500;
  outcome_id = 501;
  stake = 200000;
  odds_at_placement = 250000;
  status = BetStatus.pending;
  closed_at = none;
  exit_odds = none;
}

pub place_bet_runs :
    place_bet house_read_adapter limits 10 7 500 501 (pos 200000) recharged ≡ (ok rain_bet, has_bet)
unfolding seeded create_wallet recharge transfer place_bet resolve_market record_placed
    record_settled house_read_adapter house_mark_resolved key_taken key_eq account? set_balance
    money_limit outcome? build_settlement_plan compute_payout profit_or_loss mirror? market?
    set_market update_bet set_mirror_status
place_bet_runs = refl

abbrev pub broke : Db
broke = (place_bet house_read_adapter limits 10 7 500 501 (pos 2000000) recharged).1

pub place_bet_refuses :
    place_bet house_read_adapter limits 10 7 500 501 (pos 2000000) recharged
    ≡ (err insufficient_balance, broke)
unfolding seeded create_wallet recharge transfer place_bet resolve_market record_placed
    record_settled house_read_adapter house_mark_resolved key_taken key_eq account? set_balance
    money_limit outcome? build_settlement_plan compute_payout profit_or_loss mirror? market?
    set_market update_bet set_mirror_status
place_bet_refuses = refl

abbrev pub rain_plan : SettlementPlan
rain_plan = record {
  winning_outcome_id = 501;
  settled =
      record {
        bet_id = 1003;
        won = true;
        payout = 800000;
        pnl = pos 600000;
        status = BetStatus.settled_won;
      }
      ∷ [];
  total_payout = 800000;
  total_loser_stake = 0;
}

pub resolve_market_runs :
    resolve_market (house_adapter 20) 500 501 "it rained" (some 9) has_bet ≡ (ok rain_plan, settled)
unfolding seeded create_wallet recharge transfer place_bet resolve_market record_placed
    record_settled house_read_adapter house_mark_resolved key_taken key_eq account? set_balance
    money_limit outcome? build_settlement_plan compute_payout profit_or_loss mirror? market?
    set_market update_bet set_mirror_status
resolve_market_runs = refl

settled_wallet : balance 1000 settled ≡ 1600000
unfolding seeded create_wallet recharge transfer place_bet resolve_market record_placed
    record_settled house_read_adapter house_mark_resolved key_taken key_eq account? set_balance
    money_limit outcome? build_settlement_plan compute_payout profit_or_loss mirror? market?
    set_market update_bet set_mirror_status
settled_wallet = refl

-- Player 7 has a live bet 900 of 5.0000 mirrored, which then wins 12.0000.
abbrev pub live_placed : VerifiedBet
live_placed = record {
  status = LiveStatus.pending;
  stake = pos 50000;
  market_id = none;
  payout = none;
}

abbrev pub live_won : VerifiedBet
live_won = record {
  status = LiveStatus.won;
  stake = pos 50000;
  market_id = none;
  payout = some (pos 120000);
}

abbrev pub live_mirror : LiveBetsBet
live_mirror = record {
  bet_id = 900;
  user_id = 7;
  table_id = none;
  market_id = none;
  stake = 50000;
  status = LiveStatus.pending;
}

abbrev pub mirrored : Db
mirrored = (record_placed limits (ok live_placed) 7 900 none recharged).1

abbrev pub live_paid : Db
live_paid = (record_settled (ok live_won) 7 900 mirrored).1

pub record_settled_runs :
    record_settled (ok live_won) 7 900 mirrored
    ≡ (ok (mirror_result 900 LiveStatus.won true), live_paid)
unfolding seeded create_wallet recharge transfer place_bet resolve_market record_placed
    record_settled house_read_adapter house_mark_resolved key_taken key_eq account? set_balance
    money_limit outcome? build_settlement_plan compute_payout profit_or_loss mirror? market?
    set_market update_bet set_mirror_status
record_settled_runs = refl

pub mirror_found : mirror? 900 mirrored.livebets_bets ≡ some live_mirror
unfolding seeded create_wallet recharge transfer place_bet resolve_market record_placed
    record_settled house_read_adapter house_mark_resolved key_taken key_eq account? set_balance
    money_limit outcome? build_settlement_plan compute_payout profit_or_loss mirror? market?
    set_market update_bet set_mirror_status
mirror_found = refl

pub mirror_paid_found :
    mirror? 900 live_paid.livebets_bets ≡ some (record live_mirror { status = LiveStatus.won })
unfolding seeded create_wallet recharge transfer place_bet resolve_market record_placed
    record_settled house_read_adapter house_mark_resolved key_taken key_eq account? set_balance
    money_limit outcome? build_settlement_plan compute_payout profit_or_loss mirror? market?
    set_market update_bet set_mirror_status
mirror_paid_found = refl
