-- ===== src/Settlement/Plan.antt =====
-- backend/app/settlement/plan.py: which bets win, what each is paid, and the two aggregate flows.
pub mod Correct
use xpredict.Prelude.{ℕ, ◌+◌, Bool, true, false, List, [], ◌∷◌, ◌++◌, ◌==◌, if◌then◌else◌}
use xpredict.Prelude.Int.{ℤ}
use xpredict.Money.{compute_payout, profit_or_loss, quantize_money}
use xpredict.Money.Errors.{Result, ok, err, and_then}
use xpredict.Database.Rows.{BetStatus, settled_won, settled_lost}

pub record BetToSettle : Type 0 where
  pub bet_id : ℕ
  pub outcome_id : ℕ
  pub stake : ℕ
  pub price : ℕ

pub record SettledBet : Type 0 where
  pub bet_id : ℕ
  pub won : Bool
  pub payout : ℕ
  pub pnl : ℤ
  pub status : BetStatus

pub record SettlementPlan : Type 0 where
  pub winning_outcome_id : ℕ
  pub settled : List SettledBet
  pub total_payout : ℕ
  pub total_loser_stake : ℕ

-- A bet on the winning outcome is paid `compute_payout`, which may raise.
winner : BetToSettle → Result SettledBet
winner bet = and_then (compute_payout bet.stake bet.price) λ payout. ok (record {
  bet_id = bet.bet_id;
  won = true;
  payout = payout;
  pnl = profit_or_loss bet.stake payout;
  status = settled_won;
})

loser : BetToSettle → SettledBet
loser bet = record {
  bet_id = bet.bet_id;
  won = false;
  payout = quantize_money 0 1;
  pnl = profit_or_loss bet.stake 0;
  status = settled_lost;
}

-- The loop's variables: `settled`, `total_payout` and `total_loser_stake`, in a plan.
settle_bet : SettlementPlan → BetToSettle → Result SettlementPlan
unfolding winner loser
settle_bet acc bet =
    if bet.outcome_id == acc.winning_outcome_id
    then and_then (winner bet) (λ sb. ok (record acc {
      settled = acc.settled ++ sb ∷ [];
      total_payout = acc.total_payout + sb.payout;
    }))
    else ok (record acc {
      settled = acc.settled ++ loser bet ∷ [];
      total_loser_stake = acc.total_loser_stake + bet.stake;
    })

settle_bets : SettlementPlan → List BetToSettle → Result SettlementPlan
settle_bets acc [] = ok acc
settle_bets acc (bet ∷ bets) = and_then (settle_bet acc bet) (λ next. settle_bets next bets)

unfoldable pub build_settlement_plan : List BetToSettle → ℕ → Result SettlementPlan
unfolding settle_bets settle_bet
build_settlement_plan bets winning_outcome_id =
    and_then
      (settle_bets
        (record {
          winning_outcome_id = winning_outcome_id;
          settled = [];
          total_payout = 0;
          total_loser_stake = 0;
        })
        bets)
      (λ acc. ok (record acc {
        total_payout = quantize_money acc.total_payout 1;
        total_loser_stake = quantize_money acc.total_loser_stake 1;
      }))
