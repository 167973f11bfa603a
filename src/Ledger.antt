-- ===== src/Ledger.antt =====
-- What the services that move money share: the legs that a unit of work posts, the locks that it
-- takes first, and the queries and updates on bets and accounts.
pub mod Soundness
pub mod Flow
pub mod Queries
pub mod Owners
use xpredict.Prelude.{
  ℕ, ◌+◌, ⊤, Bool, true, false, ◌&&◌, Option, none, some, List, [], ◌∷◌, ◌++◌, map, ◌==◌,
  if◌then◌else◌, where_rows,
}
use xpredict.Money.Errors.{ok}
use xpredict.Database.Rows.{
  Db, Account, OwnerType, market, AccountKind, market_liability, TransferKind, Metadata, bet_leg,
  Bet, BetStatus, pending, settled_won, settled_lost, AuditRow, AuditEvent, bet_row,
}
use xpredict.Database.Keys.{Key, Leg}
use xpredict.Session.{
  Action, pure, gets, scalar_one, modify, ◌>>=◌, ◌>>◌, lock_row, lock_accounts, sorted_ids,
}
use xpredict.Wallet.{post_transfer, same_id}

-- One transfer that a pass will post, a `_TransferSpec`.
pub record TransferSpec : Type 0 where
  pub kind : TransferKind
  pub leg : Leg
  pub bet_id : ℕ
  pub debit_id : ℕ
  pub credit_id : ℕ
  pub amount : ℕ

-- `touched`
abbrev pub touched : List TransferSpec → List ℕ
touched specs = map (λ p. p.debit_id) specs ++ map (λ p. p.credit_id) specs

-- FOR UPDATE of every touched account, in canonical order.
unfoldable pub lock_touched : List TransferSpec → Action ⊤
unfolding lock_accounts sorted_ids
lock_touched specs = lock_accounts (sorted_ids (touched specs))

-- The loop that posts every leg; `key` is the pass's `…_idempotency_key`.
unfoldable pub post_specs : (ℕ → Leg → Key) → Option ℕ → ℕ → List TransferSpec → Action ⊤
unfolding ◌>>=◌ post_transfer
post_specs key actor market_id [] = pure tt
post_specs key actor market_id (p ∷ specs) = do
  post_transfer p.kind (some (key p.bet_id p.leg)) actor p.debit_id p.credit_id p.amount
      (bet_leg p.bet_id market_id)
  post_specs key actor market_id specs

abbrev is_market : OwnerType → Bool
is_market market = true
is_market _ = false

abbrev is_market_liability : AccountKind → Bool
is_market_liability market_liability = true
is_market_liability _ = false

abbrev pub is_liability_of : ℕ → Account → Bool
is_liability_of market_id a =
    is_market a.owner_type && same_id a.owner_id market_id && is_market_liability a.kind

-- `_resolve_market_liability_id`
unfoldable pub resolve_market_liability_id : ℕ → Action ℕ
unfolding ◌>>=◌ scalar_one
resolve_market_liability_id market_id = do
  rows ← gets (λ s. where_rows (is_liability_of market_id) s.accounts)
  account ← scalar_one rows
  pure account.id

abbrev pub is_pending : BetStatus → Bool
is_pending pending = true
is_pending _ = false

abbrev pub is_settled : BetStatus → Bool
is_settled settled_won = true
is_settled settled_lost = true
is_settled _ = false

-- Attribute writes on one bet, flushed as an UPDATE by its primary key.
unfoldable pub update_bet : ℕ → (Bet → Bet) → List Bet → List Bet
update_bet x f [] = []
update_bet x f (b ∷ bets) = if b.id == x then f b ∷ bets else b ∷ update_bet x f bets

abbrev pub with_status : BetStatus → Bet → Bet
with_status status b = record b { status = status }

unfoldable pub write_bet : ℕ → (Bet → Bet) → Action ⊤
write_bet x f s = (ok tt, record s { bets = update_bet x f s.bets })

unfoldable pub lock_bets : List Bet → Action ⊤
unfolding ◌>>=◌ lock_row
lock_bets [] = pure tt
lock_bets (b ∷ bets) = do lock_row (bet_row b.id); lock_bets bets

-- `AuditService.record`, on the caller's unit of work
unfoldable pub record_audit : Option ℕ → AuditEvent → Action ⊤
record_audit actor event s =
    (ok tt, record s { audit_log = s.audit_log ++ record { actor = actor; event = event } ∷ [] })
