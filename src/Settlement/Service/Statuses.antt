-- ===== src/Settlement/Service/Statuses.antt =====
-- The statuses that `SettlementService.resolve_market` and `reverse_settlement`
-- (backend/app/settlement/service.py) write, bet by bet, as one pass over the rows.
use xpredict.Prelude.{
  ℕ, ◌≡◌, refl, ap, sym, ⊤, Bool, true, false, List, [], ◌∷◌, map, ◌==◌, if◌then◌else◌, where_rows,
  arith, length, Bool-cases, inl, inr,
}
use mathlib.Core.Path.{subst}
use xpredict.Money.Errors.{ok}
use xpredict.Database.Rows.{Db, Bet, BetStatus, pending, settled_won, settled_lost, closed}
use xpredict.Session.{pure, ◌>>=◌}
use xpredict.Ledger.{is_pending, is_settled, with_status, update_bet, write_bet}
use xpredict.Settlement.Plan.{SettledBet}
use xpredict.Settlement.Plan.Correct.{SettlesAs, SettlesAll}
use xpredict.Settlement.Service.{to_settle, pending_in, settled_in, flip_bets, reopen_bets}

-- The primary key: no two rows have the same id.
abbrev pub UniqueIds : List Bet → Type 0
UniqueIds [] = ⊤
UniqueIds (b ∷ bets) = (where_rows (λ (r : Bet). r.id == b.id) bets ≡ []) × UniqueIds bets

-- Writing the n-th status to the n-th bet.
unfoldable pub write_all : List BetStatus → List Bet → List Bet → List Bet
write_all [] bets rows = rows
write_all (st ∷ sts) [] rows = rows
write_all (st ∷ sts) (b ∷ bets) rows = write_all sts bets (update_bet b.id (with_status st) rows)

pub write_all-none : (sts : List BetStatus) (rows : List Bet) → write_all sts [] rows ≡ rows
unfolding write_all
write_all-none [] rows = refl
write_all-none (st ∷ sts) rows = refl

-- The same in one pass: the n-th row that the query finds gets the n-th status.
unfoldable pub pass : (Bet → Bool) → List BetStatus → List Bet → List Bet
pass p [] rows = rows
pass p (st ∷ sts) [] = []
pass p (st ∷ sts) (r ∷ rows) =
    if p r then with_status st r ∷ pass p sts rows else r ∷ pass p (st ∷ sts) rows

module _ (p : Bet → Bool) where
  -- A row whose id none of the bets has is passed over.
  write_all-skip :
      (sts : List BetStatus) (rows : List Bet) (r : Bet) (rest : List Bet)
      → where_rows (λ (b : Bet). b.id == r.id) rows ≡ []
      → write_all sts (where_rows p rows) (r ∷ rest) ≡ r ∷ write_all sts (where_rows p rows) rest
  unfolding write_all update_bet
  write_all-skip [] rows r rest h = refl
  write_all-skip (st ∷ sts) [] r rest h = refl
  write_all-skip (st ∷ sts) (b ∷ rows) r rest h = ground (
    arith,
    write_all-skip sts rows r (update_bet b.id (with_status st) rest),
    write_all-skip (st ∷ sts) rows r rest,
  )

  pub write_all-pass :
      (sts : List BetStatus) (rows : List Bet)
      → UniqueIds rows
      → write_all sts (where_rows p rows) rows ≡ pass p sts rows
  unfolding write_all pass update_bet
  write_all-pass [] rows q = refl
  write_all-pass (st ∷ sts) [] q = refl
  write_all-pass (st ∷ sts) (r ∷ rows) q = ground (
    arith,
    write_all-skip sts rows (with_status st r) rows,
    write_all-skip (st ∷ sts) rows r rows,
    write_all-pass sts rows,
    write_all-pass (st ∷ sts) rows,
  )

abbrev pub statuses : List SettledBet → List BetStatus
statuses sbs = map (λ (sb : SettledBet). sb.status) sbs

abbrev pub all_pending : List Bet → List BetStatus
all_pending [] = []
all_pending (b ∷ bets) = pending ∷ all_pending bets

pub flip_bets-eq :
    (sbs : List SettledBet) (bets : List Bet) (s : Db)
    → flip_bets sbs bets s ≡ (ok tt, record s { bets = write_all (statuses sbs) bets s.bets })
unfolding flip_bets write_all write_bet pure ◌>>=◌
flip_bets-eq [] bets s = refl
flip_bets-eq (sb ∷ sbs) [] s = refl
flip_bets-eq (sb ∷ sbs) (b ∷ bets) s =
    flip_bets-eq sbs bets (record s { bets = update_bet b.id (with_status sb.status) s.bets })

pub reopen_bets-eq :
    (bets : List Bet) (s : Db)
    → reopen_bets bets s ≡ (ok tt, record s { bets = write_all (all_pending bets) bets s.bets })
unfolding reopen_bets write_all write_bet pure ◌>>=◌
reopen_bets-eq [] s = refl
reopen_bets-eq (b ∷ bets) s =
    reopen_bets-eq bets (record s { bets = update_bet b.id (with_status pending) s.bets })

-- The bets that are written have ids of their own before and after.
pass-where :
    (p : Bet → Bool) (x : ℕ) (sts : List BetStatus) (rows : List Bet)
    → where_rows (λ (r : Bet). r.id == x) rows ≡ []
    → where_rows (λ (r : Bet). r.id == x) (pass p sts rows) ≡ []
unfolding pass
pass-where p x [] rows h = h
pass-where p x (st ∷ sts) [] h = h
pass-where p x (st ∷ sts) (r ∷ rows) h =
    ground (arith, pass-where p x sts rows, pass-where p x (st ∷ sts) rows)

pub pass-UniqueIds :
    (p : Bet → Bool) (sts : List BetStatus) (rows : List Bet)
    → UniqueIds rows
    → UniqueIds (pass p sts rows)
unfolding pass
pass-UniqueIds p [] rows q = q
pass-UniqueIds p (st ∷ sts) [] q = q
pass-UniqueIds p (st ∷ sts) (r ∷ rows) (new, q) = ground (
  arith,
  pass-where p r.id sts rows,
  pass-where p r.id (st ∷ sts) rows,
  pass-UniqueIds p sts rows,
  pass-UniqueIds p (st ∷ sts) rows,
)

-- Each status is one of the two that a settlement writes.
abbrev pub AllSettled : List BetStatus → Type 0
AllSettled [] = ⊤
AllSettled (st ∷ sts) = (is_settled st ≡ true) × AllSettled sts

-- The bets with their new statuses.
abbrev pub with_statuses : List BetStatus → List Bet → List Bet
with_statuses [] bets = []
with_statuses (st ∷ sts) [] = []
with_statuses (st ∷ sts) (b ∷ bets) = with_status st b ∷ with_statuses sts bets

pass-skip :
    (p : Bet → Bool) (sts : List BetStatus) (r : Bet) (rows : List Bet)
    → p r ≡ false
    → pass p sts (r ∷ rows) ≡ r ∷ pass p sts rows
unfolding pass
pass-skip p [] r rows h = refl
pass-skip p (st ∷ sts) r rows h = ground arith

is_pending_lem : (st : BetStatus) → is_pending st ≡ true → st ≡ pending
is_pending_lem pending h = refl
is_pending_lem settled_won h = absurd (cc h)
is_pending_lem settled_lost h = absurd (cc h)
is_pending_lem closed h = absurd (cc h)

-- A pending row that was settled and is reopened is as it was.
reopened :
    (m : ℕ) (st : BetStatus) (r : Bet)
    → pending_in m r ≡ true
    → with_status pending (with_status st r) ≡ r
reopened m st r h =
    let e : r.status ≡ pending = is_pending_lem r.status (ground arith) in
    λ i. record r { status = sym e i }

pub length-with_statuses :
    (sts : List BetStatus) (bets : List Bet)
    → length sts ≡ length bets
    → length (with_statuses sts bets) ≡ length bets
length-with_statuses [] bets h = h
length-with_statuses (st ∷ sts) [] h = absurd (omega (arith, h))
length-with_statuses (st ∷ sts) (b ∷ bets) h =
    omega (arith, length-with_statuses sts bets (omega (arith, h)))

no_rows : (rows : List Bet) → length {A = BetStatus} [] ≡ length rows → rows ≡ []
no_rows [] h = refl
no_rows (r ∷ rows) h = absurd (omega arith)

module _ (m : ℕ) where
  -- A pass over the pending bets leaves just them settled.
  pub where-pass :
      (sts : List BetStatus) (rows : List Bet)
      → AllSettled sts
      → where_rows (settled_in m) rows ≡ []
      → where_rows (settled_in m) (pass (pending_in m) sts rows)
        ≡ with_statuses sts (where_rows (pending_in m) rows)
  unfolding pass
  where-pass [] rows q h = h
  where-pass (st ∷ sts) [] q h = refl
  where-pass (st ∷ sts) (r ∷ rows) (settles, q) h =
      ground (arith, where-pass sts rows q, where-pass (st ∷ sts) rows (settles, q))

  -- A pass with a settled status for each pending bet leaves none pending.
  pub where-pass-none :
      (sts : List BetStatus) (rows : List Bet)
      → AllSettled sts
      → length sts ≡ length (where_rows (pending_in m) rows)
      → where_rows (pending_in m) (pass (pending_in m) sts rows) ≡ []
  unfolding pass
  where-pass-none [] rows q h = no_rows (where_rows (pending_in m) rows) h
  where-pass-none (st ∷ sts) [] q h = refl
  where-pass-none (st ∷ sts) (r ∷ rows) (settles, q) h =
      ground (arith, where-pass-none sts rows q, where-pass-none (st ∷ sts) rows (settles, q))

  -- A pass that reopens them restores the rows.
  pub pass-pass :
      (sts : List BetStatus) (rows : List Bet)
      → AllSettled sts
      → where_rows (settled_in m) rows ≡ []
      → pass
          (settled_in m)
          (all_pending (with_statuses sts (where_rows (pending_in m) rows)))
          (pass (pending_in m) sts rows)
        ≡ rows
  unfolding pass
  pass-pass [] rows q h = refl
  pass-pass (st ∷ sts) [] q h = refl
  pass-pass (st ∷ sts) (r ∷ rows) (settles, q) h = elim (Bool-cases (pending_in m r)) [
    | inl e ↦ rw e (ground (arith, reopened m st r e, pass-pass sts rows q))
    | inr e ↦ rw e (
        ground (
          arith,
          pass-skip (settled_in m)
              (all_pending (with_statuses (st ∷ sts) (where_rows (pending_in m) rows))) r
              (pass (pending_in m) (st ∷ sts) rows),
          pass-pass (st ∷ sts) rows (settles, q),
        ))
  ]

settled_status :
    (w : ℕ) (b : Bet) (sb : SettledBet) → SettlesAs w (to_settle b) sb → is_settled sb.status ≡ true
settled_status w b sb p = go sb.won sb.status p.status_is
  where
    go :
        (won : Bool) (status : BetStatus)
        → status ≡ (if won then settled_won else settled_lost)
        → is_settled status ≡ true
    go true status e = ap is_settled e
    go false status e = ap is_settled e

-- A plan has a settled status for each bet.
pub statuses_lem :
    (w : ℕ) (bets : List Bet) (sbs : List SettledBet)
    → SettlesAll w (map to_settle bets) sbs
    → AllSettled (statuses sbs) × (length (statuses sbs) ≡ length bets)
statuses_lem w [] [] all = (tt, refl)
statuses_lem w [] (sb ∷ sbs) all = absurd (cc all)
statuses_lem w (b ∷ bets) [] (sb, rest, e, p, all) = absurd (cc e)
statuses_lem w (b ∷ bets) (sb ∷ sbs) (sb', rest, e, p, all) =
    let same : sb ≡ sb' = cc e in
    let same_rest : sbs ≡ rest = cc e in
    let settles = settled_status w b sb (subst (SettlesAs w (to_settle b)) (sym same) p) in
    let (q, k) =
      statuses_lem w bets sbs (subst (SettlesAll w (map to_settle bets)) (sym same_rest) all) in
    ((settles, q), omega (arith, k))
