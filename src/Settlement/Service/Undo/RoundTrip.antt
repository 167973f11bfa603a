-- ===== src/Settlement/Service/Undo/RoundTrip.antt =====
-- `SettlementService.reverse_settlement` after `resolve_market`
-- (backend/app/settlement/service.py).
use mathlib.Core.Path.{subst}
use xpredict.Prelude.{
  ℕ, ◌≡◌, ◌≢◌, refl, ap, sym, ◌∙◌, String, Option, List, [], ◌∷◌, map, ◌==◌, if◌then◌else◌,
  where_rows, arith, length,
}
use xpredict.Money.Errors.{ok}
use xpredict.Database.Rows.{Db, Bet, house_promo_id, house_revenue_id}
use xpredict.Session.Inversion.{always-rel}
use xpredict.Wallet.Posting.{balance}
use xpredict.Ledger.Owners.{owners, same_owners, where_liability-owners}
use xpredict.Ledger.Queries.{HasLiability}
use xpredict.Settlement.Plan.{SettlementPlan}
use xpredict.Settlement.Plan.Correct.{build_settlement_plan_correct}
use xpredict.Settlement.Port.{MarketResolvePort}
use xpredict.Settlement.Service.{
  to_settle, pending_in, settled_in, resolve_market, reverse_settlement,
}
use xpredict.Settlement.Service.Effect.{resolve_market_effect}
use xpredict.Settlement.Service.Payments.{stakes}
use xpredict.Settlement.Service.Pending.{resolve_market-rows}
use xpredict.Settlement.Service.Reversal.{Reversed, reverse_settlement_effect}
use xpredict.Settlement.Service.Statuses.{
  UniqueIds, pass, pass-pass, pass-UniqueIds, statuses, statuses_lem, all_pending, with_statuses,
  where-pass, length-with_statuses,
}
use xpredict.Settlement.Service.Undo.Amounts.{SameAmounts_lem}
use xpredict.Settlement.Service.Undo.Owners.{resolve_market-owners}
use xpredict.Settlement.Service.Undo.Reopened.{reverse_settlement-rows}

liability_same :
    (m l l' : ℕ) (s u : Db)
    → owners u.accounts ≡ owners s.accounts
    → HasLiability m s l
    → HasLiability m u l'
    → l' ≡ l
liability_same m l l' s u k (a, found, e) (a', found', e') =
    let same : owners (a' ∷ []) ≡ owners (a ∷ []) =
      ap owners (sym found') ∙ where_liability-owners m s.accounts u.accounts k ∙ ap owners found in
    let ids : a'.id ≡ a.id = cc same in sym e' ∙ ids ∙ e

-- The two accounts that took and gave back the stakes are one, if there was a stake.
same_stakes :
    (m l l' x : ℕ) (bets bets' : List Bet) (s u : Db)
    → owners u.accounts ≡ owners s.accounts
    → length bets' ≡ length bets
    → stakes bets' ≡ stakes bets
    → (bets ≢ [] → HasLiability m s l)
    → (bets' ≢ [] → HasLiability m u l')
    → (if l' == x then stakes bets' else 0) ≡ (if l == x then stakes bets else 0)
unfolding stakes
same_stakes m l l' x [] [] s u k n e has has' = ground arith
same_stakes m l l' x [] (b ∷ bets') s u k n e has has' = absurd (omega (arith, n))
same_stakes m l l' x (b ∷ bets) [] s u k n e has has' = absurd (omega (arith, n))
same_stakes m l l' x (b ∷ bets) (b' ∷ bets') s u k n e has has' =
    let same = liability_same m l l' s u k (has (λ c. cc c)) (has' (λ c. cc c)) in rw (same, e) refl

module _ (port port' : MarketResolvePort) (m w : ℕ) (text text' : String) (actor actor' : Option ℕ)
    (s : Db) (plan : SettlementPlan) (u : Db) (n : ℕ) (v : Db) (q : UniqueIds s.bets)
    (unsettled : where_rows (settled_in m) s.bets ≡ [])
    (resolves : resolve_market port m w text actor s ≡ (ok plan, u))
    (reverses : reverse_settlement port' m text' actor' u ≡ (ok n, v)) where
  -- The bets that the settlement settled, as the reversal finds them.
  settled_bets :
      where_rows (settled_in m) u.bets
      ≡ with_statuses (statuses plan.settled) (where_rows (pending_in m) s.bets)
  settled_bets =
      let (built, _) = resolve_market_effect port m w text actor s plan u resolves in
      let (_, all, _, _) = build_settlement_plan_correct _ w plan built in
      let (settles, _) = statuses_lem w (where_rows (pending_in m) s.bets) plan.settled all in
      ap (where_rows (settled_in m)) (resolve_market-rows port m w text actor s plan u q resolves)
      ∙ where-pass m (statuses plan.settled) s.bets settles unsettled

  balances_restored : (x : ℕ) → balance x v ≡ balance x s
  balances_restored x =
      let bets = where_rows (pending_in m) s.bets in
      let done = with_statuses (statuses plan.settled) bets in
      let (built, (l, has, p)) = resolve_market_effect port m w text actor s plan u resolves in
      let (_, all, _, _) = build_settlement_plan_correct (map to_settle bets) w plan built in
      let (_, k) = statuses_lem w bets plan.settled all in
      let kept =
        always-rel {r = same_owners} (resolve_market-owners port m w text actor) resolves in
      let same = SameAmounts_lem w s.accounts u.accounts kept plan.settled bets all in
      let (_, (l', has', r)) = reverse_settlement_effect port' m text' actor' u n v reverses in
      let has'' : done ≢ [] → HasLiability m u l' = λ ne. has' (λ e. ne (sym settled_bets ∙ e)) in
      let back = subst (λ b. Reversed l' b u v) settled_bets r in
      let stake =
        same_stakes m l l' x bets done s u kept
          (length-with_statuses (statuses plan.settled) bets k) same.stakes_same has has'' in
      omega (
        arith,
        p.balances x,
        back.balances x,
        stake,
        same.payouts_same x,
        ap (λ (g : ℕ). if house_promo_id == x then g else 0) same.gains_same,
        ap (λ (g : ℕ). if house_revenue_id == x then g else 0) same.lost_same,
      )

  bets_restored : v.bets ≡ s.bets
  bets_restored =
      let rows = resolve_market-rows port m w text actor s plan u q resolves in
      let (built, _) = resolve_market_effect port m w text actor s plan u resolves in
      let (_, all, _, _) = build_settlement_plan_correct _ w plan built in
      let (settles, _) = statuses_lem w (where_rows (pending_in m) s.bets) plan.settled all in
      let q' =
        subst UniqueIds (sym rows)
          (pass-UniqueIds (pending_in m) (statuses plan.settled) s.bets q) in
      reverse_settlement-rows port' m actor' text' u n v q' reverses
      ∙ ap (λ bets. pass (settled_in m) (all_pending bets) u.bets) settled_bets
      ∙ ap
          (pass (settled_in m) (
            all_pending (with_statuses (statuses plan.settled) (where_rows (pending_in m) s.bets))))
          rows
      ∙ pass-pass m (statuses plan.settled) s.bets settles unsettled

-- A reversal right after a settlement undoes it: in a market none of whose bets was settled before,
-- every balance and every bet is again what it was before the settlement.
pub reversal_undoes_settlement :
    (port port' : MarketResolvePort) (m w : ℕ) (text text' : String) (actor actor' : Option ℕ)
    (s : Db) (plan : SettlementPlan) (u : Db) (n : ℕ) (v : Db)
    → UniqueIds s.bets
    → where_rows (settled_in m) s.bets ≡ []
    → resolve_market port m w text actor s ≡ (ok plan, u)
    → reverse_settlement port' m text' actor' u ≡ (ok n, v)
    → ((x : ℕ) → balance x v ≡ balance x s) × (v.bets ≡ s.bets)
reversal_undoes_settlement port port' m w text text' actor actor' s plan u n v q unsettled resolves
      reverses =
    (
      balances_restored port port' m w text text' actor actor' s plan u n v q unsettled resolves
          reverses,
      bets_restored port port' m w text text' actor actor' s plan u n v q unsettled resolves
          reverses,
    )
