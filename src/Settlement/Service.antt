-- ===== src/Settlement/Service.antt =====
-- `SettlementService` of backend/app/settlement/service.py. The market's row is written through
-- `port`; `actor` is the admin, or `none` for the system.
pub mod Soundness
pub mod Payments
pub mod Effect
pub mod Blocked
pub mod Refunds
pub mod Reversal
pub mod Statuses
pub mod Undo
pub mod Pending
use xpredict.Prelude.{
  ℕ, ◌+◌, ⊤, String, Bool, true, false, ◌&&◌, Option, none, some, List, [], ◌∷◌, ◌++◌, map, ◌==◌,
  if◌then◌else◌, where_rows, any, length,
}
use xpredict.Prelude.Int.{pos, ltb_ℤ, pos_part}
use xpredict.Money.{compute_payout, profit_or_loss}
use xpredict.Database.Rows.{
  TransferKind, settle_stake_return, settle_winnings, settle_loss, reverse_stake_return,
  reverse_winnings, reverse_loss, Bet, BetStatus, pending, settled_won, settled_lost, closed,
  ResolutionSource, house_admin, polymarket_uma, AuditEvent, settlement_resolved,
  settlement_reversed, house_promo_id, house_revenue_id,
}
use xpredict.Database.Keys.{settle, reverse, stake, win, loss}
use xpredict.Session.{Action, pure, gets, lift, begin, ◌>>=◌, ◌>>◌}
use xpredict.Wallet.{resolve_user_wallet_id}
use xpredict.Ledger.{
  TransferSpec, lock_touched, post_specs, resolve_market_liability_id, is_pending, is_settled,
  with_status, write_bet, lock_bets, record_audit,
}
use xpredict.Settlement.Plan.{BetToSettle, SettledBet, SettlementPlan, build_settlement_plan}
use xpredict.Settlement.Port.{MarketResolvePort}

abbrev pub to_settle : Bet → BetToSettle
to_settle b = record {
  bet_id = b.id;
  outcome_id = b.outcome_id;
  stake = b.stake;
  price = b.odds_at_placement;
}

abbrev pub pending_in : ℕ → Bet → Bool
pending_in market_id b = b.market_id == market_id && is_pending b.status

abbrev pub settled_in : ℕ → Bet → Bool
settled_in market_id b = b.market_id == market_id && is_settled b.status

abbrev pub winner_specs : ℕ → ℕ → SettledBet → Bet → List TransferSpec
winner_specs liability_id wallet_id sb b =
    record {
      kind = settle_stake_return;
      leg = stake;
      bet_id = b.id;
      debit_id = liability_id;
      credit_id = wallet_id;
      amount = b.stake;
    }
    ∷ (if ltb_ℤ (pos 0) sb.pnl
        then record {
          kind = settle_winnings;
          leg = win;
          bet_id = b.id;
          debit_id = house_promo_id;
          credit_id = wallet_id;
          amount = pos_part sb.pnl;
        }
          ∷ []
        else [])

abbrev pub loser_spec : ℕ → Bet → TransferSpec
loser_spec liability_id b = record {
  kind = settle_loss;
  leg = loss;
  bet_id = b.id;
  debit_id = liability_id;
  credit_id = house_revenue_id;
  amount = b.stake;
}

-- The legs of one settled bet. The service reads the wallet of each winner once and keeps it in a
-- dict; nothing is written between the reads, so reading it for each bet finds the same.
winner_legs : ℕ → SettledBet → Bet → Action (List TransferSpec)
unfolding ◌>>=◌ resolve_user_wallet_id
winner_legs liability_id sb b = do
  wallet_id ← resolve_user_wallet_id b.user_id
  pure (winner_specs liability_id wallet_id sb b)

unfoldable pub bet_specs : ℕ → SettledBet → Bet → Action (List TransferSpec)
unfolding winner_legs
bet_specs liability_id sb b =
    if sb.won then winner_legs liability_id sb b else pure (loser_spec liability_id b ∷ [])

-- The plan lists its results in the order of the bets, so `bet_by_id[sb.bet_id]` is the bet beside
-- it.
unfoldable pub settle_specs : ℕ → List SettledBet → List Bet → Action (List TransferSpec)
unfolding ◌>>=◌ bet_specs
settle_specs liability_id [] bets = pure []
settle_specs liability_id (sb ∷ sbs) [] = pure []
settle_specs liability_id (sb ∷ sbs) (b ∷ bets) = do
  legs ← bet_specs liability_id sb b
  rest ← settle_specs liability_id sbs bets
  pure (legs ++ rest)

-- `bet.status = sb.status`
unfoldable pub flip_bets : List SettledBet → List Bet → Action ⊤
unfolding ◌>>=◌ write_bet
flip_bets [] bets = pure tt
flip_bets (sb ∷ sbs) [] = pure tt
flip_bets (sb ∷ sbs) (b ∷ bets) = do write_bet b.id (with_status sb.status); flip_bets sbs bets

-- The body of `if bets:`.
unfoldable pub settle_bets : ℕ → Option ℕ → SettlementPlan → List Bet → Action ⊤
unfolding ◌>>=◌ resolve_market_liability_id settle_specs flip_bets lock_touched post_specs
settle_bets market_id actor plan bets = do
  liability_id ← resolve_market_liability_id market_id
  specs ← settle_specs liability_id plan.settled bets
  flip_bets plan.settled bets
  lock_touched specs
  post_specs settle actor market_id specs

abbrev pub resolution_source_of : Option ℕ → ResolutionSource
resolution_source_of none = polymarket_uma
resolution_source_of (some admin) = house_admin

abbrev resolved_event : ℕ → ℕ → String → SettlementPlan → AuditEvent
resolved_event market_id winning_outcome_id justification plan =
    settlement_resolved market_id winning_outcome_id justification plan.total_payout
      plan.total_loser_stake (length plan.settled)

-- The end of the unit of work: the market's row and the audit row.
pub record_resolution :
    MarketResolvePort → ℕ → ℕ → String → Option ℕ → SettlementPlan → Action SettlementPlan
unfolding ◌>>=◌ record_audit
record_resolution port market_id winning_outcome_id justification actor plan = do
  port.mark_resolved market_id winning_outcome_id (resolution_source_of actor) justification
  record_audit actor (resolved_event market_id winning_outcome_id justification plan)
  pure plan

pub settle_if_any : ℕ → Option ℕ → SettlementPlan → List Bet → Action ⊤
unfolding settle_bets
settle_if_any market_id actor plan bets =
    if any bets then settle_bets market_id actor plan bets else pure tt

-- The unit of work, on the bets that are pending.
settle_pending : MarketResolvePort → ℕ → ℕ → String → Option ℕ → List Bet → Action SettlementPlan
unfolding ◌>>=◌ lock_bets settle_if_any record_resolution
settle_pending port market_id winning_outcome_id justification actor bets = do
  lock_bets bets
  plan ← lift (build_settlement_plan (map to_settle bets) winning_outcome_id)
  settle_if_any market_id actor plan bets
  record_resolution port market_id winning_outcome_id justification actor plan

resolution : MarketResolvePort → ℕ → ℕ → String → Option ℕ → Action SettlementPlan
unfolding ◌>>=◌ settle_pending
resolution port market_id winning_outcome_id justification actor = do
  bets ← gets (λ s. where_rows (pending_in market_id) s.bets)
  settle_pending port market_id winning_outcome_id justification actor bets

unfoldable pub resolve_market :
    MarketResolvePort → ℕ → ℕ → String → Option ℕ → Action SettlementPlan
unfolding begin resolution
resolve_market port market_id winning_outcome_id justification actor =
    begin (resolution port market_id winning_outcome_id justification actor)

-- The legs that give back what one settled bet was paid or lost, recomputed from the bet.
abbrev pub winner_reversal : ℕ → ℕ → ℕ → Bet → List TransferSpec
winner_reversal liability_id wallet_id payout b =
    record {
      kind = reverse_stake_return;
      leg = stake;
      bet_id = b.id;
      debit_id = wallet_id;
      credit_id = liability_id;
      amount = b.stake;
    }
    ∷ (if ltb_ℤ (pos 0) (profit_or_loss b.stake payout)
        then record {
          kind = reverse_winnings;
          leg = win;
          bet_id = b.id;
          debit_id = wallet_id;
          credit_id = house_promo_id;
          amount = pos_part (profit_or_loss b.stake payout);
        }
          ∷ []
        else [])

abbrev pub loser_reversal : ℕ → Bet → TransferSpec
loser_reversal liability_id b = record {
  kind = reverse_loss;
  leg = loss;
  bet_id = b.id;
  debit_id = house_revenue_id;
  credit_id = liability_id;
  amount = b.stake;
}

pub bet_reversal : BetStatus → ℕ → Bet → Action (List TransferSpec)
unfolding ◌>>=◌ resolve_user_wallet_id
bet_reversal settled_won liability_id b = do
  wallet_id ← resolve_user_wallet_id b.user_id
  payout ← lift (compute_payout b.stake b.odds_at_placement)
  pure (winner_reversal liability_id wallet_id payout b)
bet_reversal _ liability_id b = pure (loser_reversal liability_id b ∷ [])

unfoldable pub reverse_specs : ℕ → List Bet → Action (List TransferSpec)
unfolding ◌>>=◌ bet_reversal
reverse_specs liability_id [] = pure []
reverse_specs liability_id (b ∷ bets) = do
  legs ← bet_reversal b.status liability_id b
  rest ← reverse_specs liability_id bets
  pure (legs ++ rest)

-- `bet.status = BET_PENDING`
unfoldable pub reopen_bets : List Bet → Action ⊤
unfolding ◌>>=◌ write_bet
reopen_bets [] = pure tt
reopen_bets (b ∷ bets) = do write_bet b.id (with_status pending); reopen_bets bets

unfoldable pub reverse_bets : MarketResolvePort → ℕ → Option ℕ → List Bet → Action ⊤
unfolding ◌>>=◌ resolve_market_liability_id reverse_specs reopen_bets lock_touched post_specs
reverse_bets port market_id actor bets = do
  liability_id ← resolve_market_liability_id market_id
  specs ← reverse_specs liability_id bets
  reopen_bets bets
  lock_touched specs
  post_specs reverse actor market_id specs
  port.mark_unresolved market_id

reverse_if_any : MarketResolvePort → ℕ → Option ℕ → List Bet → Action ⊤
unfolding reverse_bets
reverse_if_any port market_id actor bets =
    if any bets then reverse_bets port market_id actor bets else pure tt

-- The unit of work, on the bets that are settled.
unfoldable pub reverse_settled : MarketResolvePort → ℕ → String → Option ℕ → List Bet → Action ℕ
unfolding ◌>>=◌ reverse_if_any record_audit
reverse_settled port market_id justification actor bets = do
  reverse_if_any port market_id actor bets
  record_audit actor (settlement_reversed market_id justification (length bets))
  pure (length bets)

unfoldable pub reversal : MarketResolvePort → ℕ → String → Option ℕ → Action ℕ
unfolding ◌>>=◌ reverse_settled
reversal port market_id justification actor = do
  bets ← gets (λ s. where_rows (settled_in market_id) s.bets)
  reverse_settled port market_id justification actor bets

unfoldable pub reverse_settlement : MarketResolvePort → ℕ → String → Option ℕ → Action ℕ
unfolding begin reversal
reverse_settlement port market_id justification actor =
    begin (reversal port market_id justification actor)
