-- ===== src/LiveBets.antt =====
-- `LiveBetsBridge` of backend/app/integrations/livebets/service.py: the mirror of the bets of the
-- live-bets service in the ledger. What `GET /v2/bets/{id}` answered is an argument.
pub mod Soundness
pub mod Guards
pub mod Effect
use xpredict.Prelude.{
  ℕ, ⊤, Bool, true, false, ◌&&◌, ◌||◌, not, Option, none, some, List, [], ◌∷◌, ◌++◌, ltb, ◌==◌,
  if◌then◌else◌, where_rows, any,
}
use xpredict.Prelude.Int.{ℤ, pos, ltb_ℤ, pos_part, ◌-ℤ◌}
use xpredict.Money.Errors.{
  Result, ok, err, insufficient_balance, no_result_found, verification_error, ownership_error,
}
use xpredict.Database.Rows.{
  Db, LiveBetsBet, LiveStatus, TransferKind, livebets_placed, livebets_stake_return,
  livebets_winnings, livebets_loss, livebets_void_refund, livebets, livebets_table, account_row,
  house_promo_id, house_revenue_id, livebets_escrow_id,
}
use xpredict.Database.Keys.{Key, LiveStage}
use xpredict.Database.Keys
use xpredict.Session.{
  Action, pure, raise, gets, lift, or_raise, begin, on_unique_violation, ◌>>=◌, ◌>>◌, raise_if,
  lock_row, lock_accounts, sorted_ids,
}
use xpredict.Wallet.{post_transfer, resolve_user_wallet_id, read_balance}
use xpredict.Bets.{StakeSettings}

-- `VerifiedBet`, as `parse_verified_bet` reads it from the answer.
pub record VerifiedBet : Type 0 where
  pub status : LiveStatus
  pub stake : ℤ
  pub market_id : Option ℕ
  pub payout : Option ℤ

pub record MirrorResult : Type 0 where
  pub bet_id : ℕ
  pub status : LiveStatus
  pub applied : Bool

abbrev pub is_live_pending : LiveStatus → Bool
is_live_pending LiveStatus.pending = true
is_live_pending _ = false

-- LIVEBETS_SETTLED_STATUSES
abbrev pub is_live_settled : LiveStatus → Bool
is_live_settled LiveStatus.pending = false
is_live_settled LiveStatus.unknown = false
is_live_settled _ = true

unfoldable pub mirror? : ℕ → List LiveBetsBet → Option LiveBetsBet
mirror? x [] = none
mirror? x (b ∷ rest) = if b.bet_id == x then some b else mirror? x rest

abbrev pub in_band : StakeSettings → ℤ → Bool
in_band settings stake =
    not (ltb_ℤ stake (pos settings.bet_min_stake)) && not (ltb_ℤ (pos settings.bet_max_stake) stake)

-- INSERT … ON CONFLICT DO NOTHING RETURNING bet_id: whether a row was inserted.
unfoldable pub insert_mirror : LiveBetsBet → Action Bool
unfolding mirror?
insert_mirror row s = elim (mirror? row.bet_id s.livebets_bets) [
  | some old ↦ (ok false, s)
  | none ↦ (ok true, record s { livebets_bets = s.livebets_bets ++ row ∷ [] })
]

unfoldable pub debit_stake : ℕ → ℕ → Option ℕ → ℕ → Action ⊤
unfolding ◌>>=◌ resolve_user_wallet_id lock_row read_balance raise_if post_transfer
debit_stake user_id bet_id table_id ticks = do
  wallet_id ← resolve_user_wallet_id user_id
  lock_row (account_row wallet_id)
  balance ← read_balance wallet_id
  raise_if (ltb balance ticks) insufficient_balance
  post_transfer livebets_placed (some (Keys.livebets bet_id LiveStage.placed)) (some user_id)
      wallet_id livebets_escrow_id ticks (livebets_table bet_id table_id)
  pure tt

abbrev pub mirror_result : ℕ → LiveStatus → Bool → MirrorResult
mirror_result bet_id status applied = record { bet_id = bet_id; status = status; applied = applied }

unfoldable pub record_placed :
    StakeSettings → Result VerifiedBet → ℕ → ℕ → Option ℕ → Action MirrorResult
unfolding ◌>>=◌ raise_if begin insert_mirror debit_stake
record_placed settings answer user_id bet_id table_id = do
  verified ← lift answer
  raise_if (not (is_live_pending verified.status)) verification_error
  raise_if (not (in_band settings verified.stake)) verification_error
  begin do
    inserted ← insert_mirror (record {
      bet_id = bet_id;
      user_id = user_id;
      table_id = table_id;
      market_id = verified.market_id;
      stake = pos_part verified.stake;
      status = LiveStatus.pending;
    })
    if inserted then debit_stake user_id bet_id table_id (pos_part verified.stake) else pure tt
    pure (mirror_result bet_id LiveStatus.pending inserted)

-- One leg of a settlement: the kind, the key, the two accounts and the amount.
pub record LiveSpec : Type 0 where
  pub kind : TransferKind
  pub stage : LiveStage
  pub debit_id : ℕ
  pub credit_id : ℕ
  pub amount : ℕ

abbrev pub live_leg : TransferKind → LiveStage → ℕ → ℕ → ℕ → LiveSpec
live_leg kind stage debit_id credit_id amount = record {
  kind = kind;
  stage = stage;
  debit_id = debit_id;
  credit_id = credit_id;
  amount = amount;
}

abbrev pub won_specs : ℕ → ℕ → ℤ → List LiveSpec
won_specs wallet_id stake winnings =
    live_leg livebets_stake_return LiveStage.settled_stake livebets_escrow_id wallet_id stake
    ∷ (if ltb_ℤ (pos 0) winnings
        then live_leg livebets_winnings LiveStage.settled_winnings house_promo_id wallet_id
            (pos_part winnings)
          ∷ []
        else [])

-- The legs by outcome; the wallet is read for a win and a refund only.
unfoldable pub live_specs : LiveStatus → ℕ → ℕ → Option ℤ → Action (List LiveSpec)
unfolding ◌>>=◌ resolve_user_wallet_id raise_if
live_specs LiveStatus.won user_id stake answer = do
  wallet_id ← resolve_user_wallet_id user_id
  payout ← or_raise answer verification_error
  raise_if (ltb_ℤ (payout -ℤ pos stake) (pos 0)) verification_error
  pure (won_specs wallet_id stake (payout -ℤ pos stake))
live_specs LiveStatus.refunded user_id stake answer = do
  wallet_id ← resolve_user_wallet_id user_id
  pure (live_leg livebets_void_refund LiveStage.settled livebets_escrow_id wallet_id stake ∷ [])
live_specs LiveStatus.voided user_id stake answer = do
  wallet_id ← resolve_user_wallet_id user_id
  pure (live_leg livebets_void_refund LiveStage.settled livebets_escrow_id wallet_id stake ∷ [])
live_specs _ user_id stake answer =
    pure (live_leg livebets_loss LiveStage.settled livebets_escrow_id house_revenue_id stake ∷ [])

abbrev live_touched : List LiveSpec → List ℕ
live_touched [] = []
live_touched (p ∷ specs) = p.debit_id ∷ p.credit_id ∷ live_touched specs

unfoldable pub post_live_specs : ℕ → ℕ → List LiveSpec → Action ⊤
unfolding ◌>>=◌ post_transfer
post_live_specs user_id bet_id [] = pure tt
post_live_specs user_id bet_id (p ∷ specs) = do
  post_transfer p.kind (some (Keys.livebets bet_id p.stage)) (some user_id) p.debit_id p.credit_id
      p.amount (livebets bet_id)
  post_live_specs user_id bet_id specs

unfoldable pub set_mirror_status : ℕ → LiveStatus → List LiveBetsBet → List LiveBetsBet
set_mirror_status x status [] = []
set_mirror_status x status (b ∷ rest) =
    if b.bet_id == x
    then record b { status = status } ∷ rest
    else b ∷ set_mirror_status x status rest

unfoldable pub write_mirror_status : ℕ → LiveStatus → Action ⊤
write_mirror_status x status s =
    (ok tt, record s { livebets_bets = set_mirror_status x status s.livebets_bets })

-- After the ownership and replay guards.
unfoldable pub settle_mirror : ℕ → LiveBetsBet → VerifiedBet → Action MirrorResult
unfolding ◌>>=◌ raise_if live_specs lock_accounts sorted_ids post_live_specs write_mirror_status
settle_mirror user_id mirror verified = do
  raise_if (ltb_ℤ verified.stake (pos mirror.stake) || ltb_ℤ (pos mirror.stake) verified.stake)
      verification_error
  specs ← live_specs verified.status user_id mirror.stake verified.payout
  lock_accounts (sorted_ids (live_touched specs))
  post_live_specs user_id mirror.bet_id specs
  write_mirror_status mirror.bet_id verified.status
  pure (mirror_result mirror.bet_id verified.status true)

-- A mirror that is settled already is left as it is.
unfoldable pub settle_once : ℕ → LiveBetsBet → VerifiedBet → Action MirrorResult
unfolding settle_mirror
settle_once user_id mirror verified =
    if is_live_pending mirror.status
    then settle_mirror user_id mirror verified
    else pure (mirror_result mirror.bet_id mirror.status false)

-- The unit of work of `record_settled`.
unfoldable pub settle_placed : ℕ → ℕ → VerifiedBet → Action MirrorResult
unfolding ◌>>=◌ raise_if settle_once mirror?
settle_placed user_id bet_id verified = do
  found ← gets (λ s. mirror? bet_id s.livebets_bets)
  mirror ← or_raise found verification_error
  raise_if (not (mirror.user_id == user_id)) ownership_error
  settle_once user_id mirror verified

unfoldable pub settle_verified : ℕ → ℕ → VerifiedBet → Action MirrorResult
unfolding on_unique_violation begin settle_placed
settle_verified user_id bet_id verified =
    on_unique_violation (begin (settle_placed user_id bet_id verified))
      (pure (mirror_result bet_id verified.status false))

unfoldable pub record_settled : Result VerifiedBet → ℕ → ℕ → Action MirrorResult
unfolding ◌>>=◌ raise_if settle_verified
record_settled answer user_id bet_id = do
  verified ← lift answer
  raise_if (not (is_live_settled verified.status)) verification_error
  settle_verified user_id bet_id verified
