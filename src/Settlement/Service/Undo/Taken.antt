-- ===== src/Settlement/Service/Undo/Taken.antt =====
-- The second settlement of the same bets (backend/app/settlement/service.py): it posts its first leg
-- under a key that is taken.
use xpredict.Prelude.{
  ℕ, ◌≡◌, ◌≢◌, refl, ap, ◌∙◌, ⊤, Bool, true, false, Option, some, List, [], ◌∷◌, ◌++◌,
  if◌then◌else◌,
}
use xpredict.Money.Errors.{ok, err, unique_violation}
use xpredict.Database.Rows.{Db, Bet, Transfer, bet_leg}
use xpredict.Database.Keys.{settle}
use xpredict.Session.{pure, gets, scalar_one, sorted_ids, ◌>>=◌}
use xpredict.Session.Inversion.{returned, >>=-eq-ok, >>=-runs, >>=-raises}
use xpredict.Wallet.{resolve_user_wallet_id, post_transfer}
use xpredict.Wallet.Replay.{lock_accounts-runs, post_transfer-taken}
use xpredict.Ledger.{TransferSpec, touched, lock_touched, post_specs, resolve_market_liability_id}
use xpredict.Ledger.Owners.{owners}
use xpredict.Ledger.Queries.{HasLiability, resolve_market_liability_id-then}
use xpredict.Settlement.Plan.{SettledBet, SettlementPlan}
use xpredict.Settlement.Service.{
  winner_legs, loser_spec, bet_specs, settle_specs, flip_bets, settle_bets, settle_if_any,
}
use xpredict.Settlement.Service.Statuses.{statuses, write_all, flip_bets-eq}
use xpredict.Settlement.Service.Undo.Keys.{FirstTaken, post_specs-FirstTaken}
use xpredict.Settlement.Service.Undo.Again.{HasLiability-owners, settle_specs-runs}

abbrev HasFirst : List TransferSpec → Type 0
HasFirst specs = (p : TransferSpec) × (rest : List TransferSpec) × (specs ≡ p ∷ rest)

bet_specs-HasFirst :
    (l : ℕ) (sb : SettledBet) (b : Bet) (s : Db) {legs : List TransferSpec} {s1 : Db}
    → bet_specs l sb b s ≡ (ok legs, s1)
    → HasFirst legs
unfolding bet_specs winner_legs pure
bet_specs-HasFirst l sb b s {legs} {s1} h = go sb.won h
  where
    go :
        (c : Bool)
        → (if c then winner_legs l sb b else pure (loser_spec l b ∷ [])) s ≡ (ok legs, s1)
        → HasFirst legs
    go true k =
        let (v, s2, _, k1) = >>=-eq-ok (resolve_user_wallet_id b.user_id) _ s k in
        let (e, _) = returned k1 in (_, _, e)
    go false k = let (e, _) = returned k in (_, _, e)

settle_specs-HasFirst :
    (l : ℕ) (sbs : List SettledBet) (bets : List Bet) (s : Db) {specs : List TransferSpec} {s1 : Db}
    → statuses sbs ≢ []
    → bets ≢ []
    → settle_specs l sbs bets s ≡ (ok specs, s1)
    → HasFirst specs
unfolding settle_specs pure
settle_specs-HasFirst l [] bets s some_result some_bet h = absurd (some_result refl)
settle_specs-HasFirst l (sb ∷ sbs) [] s some_result some_bet h = absurd (some_bet refl)
settle_specs-HasFirst l (sb ∷ sbs) (b ∷ bets) s some_result some_bet h =
    let (legs, s1, h1, h2) = >>=-eq-ok (bet_specs l sb b) _ s h in
    let (p, more, first) = bet_specs-HasFirst l sb b s h1 in
    let (rest, s2, h3, h4) = >>=-eq-ok (settle_specs l sbs bets) _ s1 h2 in
    let (e, _) = returned h4 in (p, more ++ rest, e ∙ ap (λ x. x ++ rest) first)

-- The legs that a settlement derived from the accounts of `s`, and that the transfers `ts` have
-- recorded the first of.
abbrev pub Spent : ℕ → List SettledBet → List Bet → Db → List Transfer → Type 0
Spent m sbs bets s ts =
    (l : ℕ) × (specs : List TransferSpec) × (s1 : Db) × HasLiability m s l
    × (settle_specs l sbs bets s ≡ (ok specs, s1))
    × FirstTaken specs ts

liability-runs :
    (m l : ℕ) (s : Db) → HasLiability m s l → resolve_market_liability_id m s ≡ (ok l, s)
unfolding resolve_market_liability_id gets scalar_one pure ◌>>=◌
liability-runs m l s (a, found, e) = rw found (λ i. (ok (e i), s))

post_specs-taken :
    (actor : Option ℕ) (m : ℕ) (specs : List TransferSpec) (v : Db)
    → HasFirst specs
    → FirstTaken specs v.transfers
    → post_specs settle actor m specs v ≡ (err unique_violation, v)
unfolding post_specs
post_specs-taken actor m [] v (p, rest, e) taken = absurd (cc e)
post_specs-taken actor m (p ∷ specs) v first taken =
    >>=-raises
      (post_transfer p.kind (some (settle p.bet_id p.leg)) actor p.debit_id p.credit_id p.amount
        (bet_leg p.bet_id m))
      (λ _. post_specs settle actor m specs) v
      (post_transfer-taken p.kind (settle p.bet_id p.leg) actor p.debit_id p.credit_id p.amount
        (bet_leg p.bet_id m) v taken)

module _ (m : ℕ) (actor : Option ℕ) where
  settle_bets-Spent :
      (plan : SettlementPlan) (bets : List Bet) (s : Db) {a : ⊤} {u : Db}
      → settle_bets m actor plan bets s ≡ (ok a, u)
      → Spent m plan.settled bets s u.transfers
  unfolding settle_bets
  settle_bets-Spent plan bets s {a} {u} h =
      let (l, has, h1) = resolve_market_liability_id-then {s = s} m _ h in
      let (specs, t1, k1, h2) = >>=-eq-ok (settle_specs l plan.settled bets) _ s h1 in
      let (_, t2, _, h3) = >>=-eq-ok (flip_bets plan.settled bets) _ t1 h2 in
      let (_, t3, _, h4) = >>=-eq-ok (lock_touched specs) _ t2 h3 in
      (l, specs, t1, has, k1, post_specs-FirstTaken actor m specs t3 a u h4)

  pub settle_if_any-Spent :
      (plan : SettlementPlan) (bets : List Bet) (s : Db) {a : ⊤} {u : Db}
      → bets ≢ []
      → settle_if_any m actor plan bets s ≡ (ok a, u)
      → Spent m plan.settled bets s u.transfers
  unfolding settle_if_any
  settle_if_any-Spent plan [] s some_bet h = absurd (some_bet refl)
  settle_if_any-Spent plan (b ∷ bets) s some_bet h = settle_bets-Spent plan (b ∷ bets) s h

  -- A second pass over the same bets, in a state with the same owners.
  settle_bets-taken :
      (plan : SettlementPlan) (bets : List Bet) (s v : Db)
      → statuses plan.settled ≢ []
      → bets ≢ []
      → owners v.accounts ≡ owners s.accounts
      → Spent m plan.settled bets s v.transfers
      → (z : Db) × (settle_bets m actor plan bets v ≡ (err unique_violation, z))
  unfolding settle_bets lock_touched
  settle_bets-taken plan bets s v some_result some_bet same (l, specs, s1, has, runs, taken) =
      let v1 : Db = record v { bets = write_all (statuses plan.settled) bets v.bets } in
      let (locks, locked) = lock_accounts-runs (sorted_ids (touched specs)) v1 in
      let (a, found, e) = HasLiability-owners s v same m l has in
      let first = settle_specs-HasFirst l plan.settled bets s some_result some_bet runs in
      let v2 : Db = record v1 { locks = locks } in
      (
        v2,
        >>=-runs (resolve_market_liability_id m) _ v (liability-runs m l v (a, found, e))
            ∙ >>=-runs (settle_specs l plan.settled bets) _ v
                (settle_specs-runs l plan.settled bets s v same runs)
            ∙ >>=-runs (flip_bets plan.settled bets) _ v (flip_bets-eq plan.settled bets v)
            ∙ >>=-runs (lock_touched specs) _ v1 locked
            ∙ post_specs-taken actor m specs v2 first taken,
      )

  pub settle_if_any-taken :
      (plan : SettlementPlan) (bets : List Bet) (s v : Db)
      → statuses plan.settled ≢ []
      → bets ≢ []
      → owners v.accounts ≡ owners s.accounts
      → Spent m plan.settled bets s v.transfers
      → (z : Db) × (settle_if_any m actor plan bets v ≡ (err unique_violation, z))
  unfolding settle_if_any
  settle_if_any-taken plan [] s v some_result some_bet same spent = absurd (some_bet refl)
  settle_if_any-taken plan (b ∷ bets) s v some_result some_bet same spent =
      settle_bets-taken plan (b ∷ bets) s v some_result some_bet same spent
