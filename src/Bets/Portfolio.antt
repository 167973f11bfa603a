-- ===== src/Bets/Portfolio.antt =====
-- backend/app/bets/portfolio.py, and `BetService.get_portfolio` of backend/app/bets/service.py: a
-- player's positions with their payouts and P&L.
use xpredict.Prelude.{
  ℕ, String, Bool, true, false, Option, none, some, List, [], ◌∷◌, ◌++◌, map, ◌==◌, if◌then◌else◌,
  where_rows,
}
use xpredict.Prelude.Int.{ℤ, pos, ltb_ℤ}
use xpredict.Money.{quantize_money, compute_payout, profit_or_loss, cashout_value}
use xpredict.Money.Errors.{Result, ok, err, value_error, and_then}
use xpredict.Database.Rows.{Bet, BetStatus, pending, settled_won, settled_lost, closed}
use xpredict.Session.{Action, gets, lift, ◌>>=◌}
use xpredict.Bets.MarketPort.{MarketReadPort, MarketView, OutcomeView, outcome?}

pub record PositionInput : Type 0 where
  pub bet_id : ℕ
  pub market_id : ℕ
  pub outcome_id : ℕ
  pub stake : ℕ
  pub odds_at_placement : ℕ
  pub status : BetStatus
  pub current_odds : Option ℕ
  pub exit_odds : Option ℕ
  pub market_question : Option String
  pub market_slug : Option String
  pub outcome_label : Option String

-- `position` holds the fields that are copied from the input.
pub record OpenPosition : Type 0 where
  pub position : PositionInput
  pub potential_payout : ℕ
  pub potential_pnl : ℤ
  pub current_odds : Option ℕ
  pub current_value : ℕ
  pub unrealized_pnl : ℤ
  pub priced : Bool

pub record SettledPosition : Type 0 where
  pub position : PositionInput
  pub won : Bool
  pub payout : ℕ
  pub realized_pnl : ℤ
  pub exit_odds : Option ℕ

pub record Portfolio : Type 0 where
  pub open_positions : List OpenPosition
  pub settled_positions : List SettledPosition

-- The live value, or the stake where no price is known.
abbrev pub current_value_of : PositionInput → Option ℕ → Result ℕ
current_value_of p none = ok (quantize_money p.stake 1)
current_value_of p (some c) = cashout_value p.stake p.odds_at_placement c

abbrev is_priced : Option ℕ → Bool
is_priced none = false
is_priced (some c) = true

open_position : PositionInput → Result OpenPosition
open_position p = and_then (compute_payout p.stake p.odds_at_placement) λ potential.
    and_then (current_value_of p p.current_odds) λ value. ok (record {
      position = p;
      potential_payout = potential;
      potential_pnl = profit_or_loss p.stake potential;
      current_odds = p.current_odds;
      current_value = value;
      unrealized_pnl = profit_or_loss p.stake value;
      priced = is_priced p.current_odds;
    })

-- A cashed-out bet, at the exit price that must be there.
closed_position : PositionInput → Option ℕ → Result SettledPosition
closed_position p none = err value_error
closed_position p (some exit_price) =
    and_then (cashout_value p.stake p.odds_at_placement exit_price) λ payout. ok (record {
      position = p;
      won = ltb_ℤ (pos 0) (profit_or_loss p.stake payout);
      payout = payout;
      realized_pnl = profit_or_loss p.stake payout;
      exit_odds = some exit_price;
    })

resolved_position : PositionInput → Bool → Result SettledPosition
resolved_position p won =
    and_then (if won then compute_payout p.stake p.odds_at_placement else ok 0) λ payout.
      ok (record {
        position = p;
        won = won;
        payout = payout;
        realized_pnl = profit_or_loss p.stake payout;
        exit_odds = none;
      })

abbrev with_open : OpenPosition → Portfolio → Portfolio
with_open o pf = record pf { open_positions = o ∷ pf.open_positions }

abbrev with_settled : SettledPosition → Portfolio → Portfolio
with_settled o pf = record pf { settled_positions = o ∷ pf.settled_positions }

-- One turn of the loop, before the positions that come after it.
add_position : BetStatus → PositionInput → Result Portfolio → Result Portfolio
unfolding open_position closed_position resolved_position
add_position pending p rest =
    and_then (open_position p) λ o. and_then rest λ pf. ok (with_open o pf)
add_position closed p rest =
    and_then (closed_position p p.exit_odds) λ o. and_then rest λ pf. ok (with_settled o pf)
add_position settled_won p rest =
    and_then (resolved_position p true) λ o. and_then rest λ pf. ok (with_settled o pf)
add_position settled_lost p rest =
    and_then (resolved_position p false) λ o. and_then rest λ pf. ok (with_settled o pf)

unfoldable pub build_portfolio : List PositionInput → Result Portfolio
unfolding add_position
build_portfolio [] = ok (record { open_positions = []; settled_positions = [] })
build_portfolio (p ∷ ps) = add_position p.status p (build_portfolio ps)

abbrev question_of : Option MarketView → Option String
question_of none = none
question_of (some view) = view.question

abbrev slug_of : Option MarketView → Option String
slug_of none = none
slug_of (some view) = view.slug

-- The outcome of the bet in the market's view, if both are there.
abbrev chosen_of : ℕ → Option MarketView → Option OutcomeView
chosen_of x none = none
chosen_of x (some view) = outcome? x view.outcomes

abbrev price_of : Option OutcomeView → Option ℕ
price_of none = none
price_of (some o) = some o.price

abbrev label_of : Option OutcomeView → Option String
label_of none = none
label_of (some o) = some o.label

abbrev pub position_input : Option MarketView → Bet → PositionInput
position_input view b =
    let chosen = chosen_of b.outcome_id view in
    record {
      bet_id = b.id;
      market_id = b.market_id;
      outcome_id = b.outcome_id;
      stake = b.stake;
      odds_at_placement = b.odds_at_placement;
      status = b.status;
      current_odds = price_of chosen;
      exit_odds = b.exit_odds;
      market_question = question_of view;
      market_slug = slug_of view;
      outcome_label = label_of chosen;
    }

-- `order_by(Bet.created_at.desc())`: the newest first.
unfoldable pub newest_first : List Bet → List Bet
newest_first [] = []
newest_first (b ∷ bets) = newest_first bets ++ b ∷ []

unfoldable pub get_portfolio : MarketReadPort → ℕ → Action Portfolio
unfolding ◌>>=◌ build_portfolio newest_first
get_portfolio port user_id = do
  inputs ← gets (λ s.
      map (λ b. position_input (port s b.market_id) b)
        (newest_first (where_rows (λ (b : Bet). b.user_id == user_id) s.bets)))
  lift (build_portfolio inputs)
