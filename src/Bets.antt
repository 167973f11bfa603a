-- ===== src/Bets.antt =====
-- `BetService` of backend/app/bets/service.py: placing a bet and cashing it out.
pub mod MarketPort
pub mod Soundness
pub mod MarketsKept
pub mod Placement
pub mod Rejection
pub mod SaleChecks
pub mod Sale
pub mod Portfolio
use xpredict.Prelude.{
  ℕ, ◌+◌, ◌-◌, ⊤, Bool, true, false, ◌&&◌, not, Option, none, some, List, [], ◌∷◌, ◌++◌, map, ltb,
  leb, ◌==◌, if◌then◌else◌, where_rows,
}
use xpredict.Prelude.Int.{ℤ}
use xpredict.Money.{cashout_value, profit_or_loss}
use xpredict.Money.Errors.{
  Error, Result, ok, err, insufficient_balance, market_not_found, market_closed, invalid_outcome,
  stake_out_of_range, bet_not_found, bet_not_closable,
}
use xpredict.Database.Rows.{
  Db, Account, market, market_liability, bet_placed, close_stake_return, close_winnings, close_loss,
  placed, Bet, BetStatus, pending, closed, bet_row, house_promo_id, house_revenue_id,
}
use xpredict.Database.Keys.{close, stake, win, loss}
use xpredict.Session.{
  Action, pure, raise, gets, lift, scalar_one, or_raise, begin, ◌>>=◌, ◌>>◌, raise_if, positive,
  uuid4, lock_row, lock_accounts, sorted_pair,
}
use xpredict.Wallet.{post_transfer, resolve_user_wallet_id, read_balance}
use xpredict.Ledger.{
  TransferSpec, lock_touched, post_specs, resolve_market_liability_id, is_liability_of, is_pending,
  write_bet,
}
use xpredict.Bets.MarketPort.{MarketReadPort, MarketView, OutcomeView, is_open, outcome?}

-- The settings that `place_bet` reads.
pub record StakeSettings : Type 0 where
  pub bet_min_stake : ℕ
  pub bet_max_stake : ℕ

abbrev pub or_default : Option ℕ → ℕ → ℕ
or_default none d = d
or_default (some n) d = n

-- `_ensure_market_liability_account`: INSERT … ON CONFLICT DO UPDATE … RETURNING id.
abbrev new_liability : ℕ → ℕ → Account
new_liability market_id id = record {
  id = id;
  owner_type = market;
  owner_id = some market_id;
  kind = market_liability;
  balance = 0;
  version = 0;
}

upsert_liability : ℕ → ℕ → List Account → Action ℕ
upsert_liability market_id id [] s =
    (ok id, record s { accounts = s.accounts ++ new_liability market_id id ∷ [] })
upsert_liability market_id id (found ∷ rest) s = (ok found.id, s)

unfoldable pub find_or_add_liability : ℕ → Action ℕ
unfolding ◌>>=◌ uuid4 upsert_liability
find_or_add_liability market_id = do
  id ← uuid4
  rows ← gets (λ s. where_rows (is_liability_of market_id) s.accounts)
  upsert_liability market_id id rows

unfoldable pub ensure_market_liability_account : ℕ → Action ℕ
unfolding begin find_or_add_liability
ensure_market_liability_account market_id = begin (find_or_add_liability market_id)

-- Validation and limits, before any unit of work: the chosen outcome's view.
unfoldable pub check_view : StakeSettings → ℕ → ℕ → ℕ → MarketView → Action OutcomeView
unfolding ◌>>=◌ raise_if
check_view settings now outcome_id ticks view = do
  raise_if (not (is_open view now)) market_closed
  chosen ← or_raise (outcome? outcome_id view.outcomes) invalid_outcome
  raise_if
      (not (
        leb (or_default view.min_stake settings.bet_min_stake) ticks
        && leb ticks (or_default view.max_stake settings.bet_max_stake)))
      stake_out_of_range
  pure chosen

unfoldable pub check_market : MarketReadPort → StakeSettings → ℕ → ℕ → ℕ → ℕ → Action OutcomeView
unfolding ◌>>=◌ check_view
check_market port settings now market_id outcome_id ticks = do
  found ← gets (λ s. port s market_id)
  view ← or_raise found market_not_found
  check_view settings now outcome_id ticks view

-- INSERT INTO bets
unfoldable pub insert_bet : Bet → Action Bet
insert_bet b s = (ok b, record s { bets = s.bets ++ b ∷ [] })

-- The unit of work of `place_bet`.
unfoldable pub staked_bet : ℕ → ℕ → ℕ → ℕ → ℕ → ℕ → Action Bet
unfolding ◌>>=◌ resolve_user_wallet_id lock_accounts read_balance raise_if uuid4 insert_bet
    post_transfer
staked_bet user_id market_id outcome_id ticks price liability_id = do
  wallet_id ← resolve_user_wallet_id user_id
  lock_accounts (sorted_pair wallet_id liability_id)
  balance ← read_balance wallet_id
  raise_if (ltb balance ticks) insufficient_balance
  id ← uuid4
  bet ← insert_bet (record {
    id = id;
    user_id = user_id;
    market_id = market_id;
    outcome_id = outcome_id;
    stake = ticks;
    odds_at_placement = price;
    status = pending;
    closed_at = none;
    exit_odds = none;
  })
  post_transfer bet_placed none (some user_id) wallet_id liability_id ticks
      (placed bet.id market_id outcome_id)
  pure bet

unfoldable pub stake_bet : ℕ → ℕ → ℕ → ℕ → ℕ → ℕ → Action Bet
unfolding begin staked_bet
stake_bet user_id market_id outcome_id ticks price liability_id =
    begin (staked_bet user_id market_id outcome_id ticks price liability_id)

-- `now` is `datetime.now(UTC)`.
unfoldable pub place_bet : MarketReadPort → StakeSettings → ℕ → ℕ → ℕ → ℕ → ℤ → Action Bet
unfolding ◌>>=◌ positive check_market ensure_market_liability_account stake_bet
place_bet port settings now user_id market_id outcome_id amount = do
  ticks ← positive amount
  chosen ← check_market port settings now market_id outcome_id ticks
  liability_id ← ensure_market_liability_account market_id
  stake_bet user_id market_id outcome_id ticks chosen.price liability_id

-- `select(Bet).where(Bet.id == bet_id)`
unfoldable pub bet? : ℕ → List Bet → Option Bet
bet? x [] = none
bet? x (b ∷ bets) = if b.id == x then some b else bet? x bets

-- The legs of a cash-out: `liability_id` gives the stake up, and the house pays the gain or takes
-- the loss. A leg of 0 is left out.
abbrev pub close_specs : ℕ → ℕ → ℕ → ℕ → ℕ → List TransferSpec
close_specs bet_id liability_id wallet_id ticks payout =
    if leb ticks payout
    then record {
      kind = close_stake_return;
      leg = stake;
      bet_id = bet_id;
      debit_id = liability_id;
      credit_id = wallet_id;
      amount = ticks;
    }
      ∷ (if ltb 0 (payout - ticks)
          then record {
            kind = close_winnings;
            leg = win;
            bet_id = bet_id;
            debit_id = house_promo_id;
            credit_id = wallet_id;
            amount = payout - ticks;
          }
            ∷ []
          else [])
    else (if ltb 0 payout
        then record {
          kind = close_stake_return;
          leg = stake;
          bet_id = bet_id;
          debit_id = liability_id;
          credit_id = wallet_id;
          amount = payout;
        }
          ∷ []
        else [])
      ++ record {
        kind = close_loss;
        leg = loss;
        bet_id = bet_id;
        debit_id = liability_id;
        credit_id = house_revenue_id;
        amount = ticks - payout;
      }
        ∷ []

-- What `sell_position` returns.
pub record SaleResult : Type 0 where
  pub bet_id : ℕ
  pub payout : ℕ
  pub pnl : ℤ
  pub exit_odds : ℕ
  pub new_balance : ℕ

abbrev pub closed_bet : ℕ → ℕ → Bet → Bet
closed_bet now price b = record b { status = closed; closed_at = some now; exit_odds = some price }

-- The first, unlocked read.
unfoldable pub check_owner : ℕ → ℕ → Action ⊤
unfolding ◌>>=◌ raise_if
check_owner bet_id user_id = do
  found ← gets (λ s. bet? bet_id s.bets)
  bet ← or_raise found bet_not_found
  raise_if (not (bet.user_id == user_id)) bet_not_found
  raise_if (not (is_pending bet.status)) bet_not_closable

-- The locked bet, read again; `scalar_one` finds it unless it is gone.
unfoldable pub lock_bet : ℕ → Action Bet
unfolding ◌>>=◌ lock_row raise_if scalar_one
lock_bet bet_id = do
  lock_row (bet_row bet_id)
  rows ← gets (λ s. where_rows (λ b. b.id == bet_id) s.bets)
  locked ← scalar_one rows
  raise_if (not (is_pending locked.status)) bet_not_closable
  pure locked

-- The market of the locked bet, still open: the live price of the bet's outcome.
unfoldable pub live_price : MarketReadPort → ℕ → Bet → Action ℕ
unfolding ◌>>=◌ raise_if
live_price port now locked = do
  found ← gets (λ s. port s locked.market_id)
  view ← or_raise found market_not_found
  raise_if (not (is_open view now)) market_closed
  chosen ← or_raise (outcome? locked.outcome_id view.outcomes) invalid_outcome
  pure chosen.price

-- The unit of work of `sell_position`: the wallet, the payout and the price.
unfoldable pub closing : MarketReadPort → ℕ → ℕ → ℕ → Action (ℕ × ℕ × ℕ × ℕ)
unfolding ◌>>=◌ lock_bet live_price resolve_user_wallet_id resolve_market_liability_id lock_touched
    post_specs write_bet
closing port now bet_id user_id = do
  locked ← lock_bet bet_id
  price ← live_price port now locked
  payout ← lift (cashout_value locked.stake locked.odds_at_placement price)
  wallet_id ← resolve_user_wallet_id user_id
  liability_id ← resolve_market_liability_id locked.market_id
  let specs = close_specs bet_id liability_id wallet_id locked.stake payout
  lock_touched specs
  post_specs close (some user_id) locked.market_id specs
  write_bet bet_id (closed_bet now price)
  pure (wallet_id, locked.stake, payout, price)

unfoldable pub close_bet : MarketReadPort → ℕ → ℕ → ℕ → Action (ℕ × ℕ × ℕ × ℕ)
unfolding begin closing
close_bet port now bet_id user_id = begin (closing port now bet_id user_id)

unfoldable pub sell_position : MarketReadPort → ℕ → ℕ → ℕ → Action SaleResult
unfolding ◌>>=◌ check_owner close_bet read_balance
sell_position port now bet_id user_id = do
  check_owner bet_id user_id
  sale ← close_bet port now bet_id user_id
  new_balance ← read_balance sale.0
  pure (record {
    bet_id = bet_id;
    payout = sale.2;
    pnl = profit_or_loss sale.1 sale.2;
    exit_odds = sale.3;
    new_balance = new_balance;
  })
