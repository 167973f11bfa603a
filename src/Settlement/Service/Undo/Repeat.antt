-- ===== src/Settlement/Service/Undo/Repeat.antt =====
-- `SettlementService.resolve_market` on the outcome of a settlement that was reversed
-- (backend/app/settlement/service.py).
use mathlib.Core.Path.{subst}
use xpredict.Prelude.{
  ℕ, ◌≡◌, ◌≢◌, refl, ap, sym, ◌∙◌, String, Option, List, [], ◌∷◌, map, where_rows, length, arith,
}
use xpredict.Money.Errors.{ok, err, unique_violation}
use xpredict.Database.Rows.{Db, Bet}
use xpredict.Session.{gets, lift, ◌>>=◌}
use xpredict.Session.Inversion.{
  ok-injective, begin-eq-ok, lift-then, always-rel, ok-rel, >>=-eq-ok, >>=-runs, >>=-raises,
}
use xpredict.Wallet.Flow.{Sound}
use xpredict.Wallet.Replay.{begin-raises}
use xpredict.Ledger.{lock_bets}
use xpredict.Ledger.Owners.{owners, same_owners}
use xpredict.Settlement.Plan.{SettlementPlan, build_settlement_plan}
use xpredict.Settlement.Plan.Correct.{build_settlement_plan_correct}
use xpredict.Settlement.Service.Effect.{resolve_market_effect}
use xpredict.Settlement.Port.{MarketResolvePort}
use xpredict.Settlement.Service.{
  settle_if_any, settle_pending, resolution, resolve_market, reverse_settlement, to_settle,
  pending_in, settled_in,
}
use xpredict.Settlement.Service.Blocked.{lock_bets-runs}
use xpredict.Settlement.Service.Soundness.{Does-record_resolution, reverse_settlement-Sound}
use xpredict.Settlement.Service.Statuses.{UniqueIds, statuses, statuses_lem}
use xpredict.Settlement.Service.Undo.Keys.{FirstTaken-Extends}
use xpredict.Settlement.Service.Undo.Again.{settle_specs-runs}
use xpredict.Settlement.Service.Undo.Owners.{resolve_market-owners, reverse_settlement-owners}
use xpredict.Settlement.Service.Undo.RoundTrip.{reversal_undoes_settlement}
use xpredict.Settlement.Service.Undo.Taken.{Spent, settle_if_any-Spent, settle_if_any-taken}

module _ (port : MarketResolvePort) (m w : ℕ) (text : String) (actor : Option ℕ) where
  settle_pending-Spent :
      (bets : List Bet) (plan : SettlementPlan) (s : Db) {plan' : SettlementPlan} {u : Db}
      → bets ≢ []
      → build_settlement_plan (map to_settle bets) w ≡ ok plan
      → settle_pending port m w text actor bets s ≡ (ok plan', u)
      → Spent m plan.settled bets s u.transfers
  unfolding settle_pending
  settle_pending-Spent bets plan s {u = u} some_bet built h =
      let (locks, locked) = lock_bets-runs bets s in
      let t : Db = record s { locks = locks } in
      let h1 = sym (>>=-runs (lock_bets bets) _ s locked) ∙ h in
      let (plan', built', h2) =
        lift-then {s = t} (build_settlement_plan (map to_settle bets) w) _ h1 in
      let (_, t2, h3, h4) = >>=-eq-ok (settle_if_any m actor plan' bets) _ t h2 in
      let posted : Sound t2 _ = ok-rel (Does-record_resolution port m w text actor plan') h4 in
      let same : plan'.settled ≡ plan.settled =
        ap (λ (p : SettlementPlan). p.settled) (ok-injective plan' plan (sym built' ∙ built)) in
      let (l, specs, s1, has, runs, taken) = settle_if_any-Spent m actor plan' bets t some_bet h3 in
      subst (λ sbs. Spent m sbs bets s u.transfers) same
        (
          l,
          specs,
          _,
          has,
          settle_specs-runs l plan'.settled bets t s refl runs,
          FirstTaken-Extends specs _ _ posted.transfers_kept taken,
        )

  settle_pending-taken :
      (bets : List Bet) (plan : SettlementPlan) (s v : Db)
      → statuses plan.settled ≢ []
      → bets ≢ []
      → build_settlement_plan (map to_settle bets) w ≡ ok plan
      → owners v.accounts ≡ owners s.accounts
      → Spent m plan.settled bets s v.transfers
      → (z : Db) × (settle_pending port m w text actor bets v ≡ (err unique_violation, z))
  unfolding settle_pending lift
  settle_pending-taken bets plan s v some_result some_bet built same spent =
      let (locks, locked) = lock_bets-runs bets v in
      let t : Db = record v { locks = locks } in
      let (z, raised) = settle_if_any-taken m actor plan bets s t some_result some_bet same spent in
      (
        z,
        >>=-runs (lock_bets bets) _ v locked
            ∙ >>=-runs (lift (build_settlement_plan (map to_settle bets) w)) _ t (λ i. (built i, t))
            ∙ >>=-raises (settle_if_any m actor plan bets) _ t raised,
      )

-- No bet of a settlement that returned is without its result.
some_result_lem :
    (w : ℕ) (bets : List Bet) (plan : SettlementPlan)
    → build_settlement_plan (map to_settle bets) w ≡ ok plan
    → bets ≢ []
    → statuses plan.settled ≢ []
some_result_lem w bets plan built some_bet none_left =
    let (_, all, _, _) = build_settlement_plan_correct (map to_settle bets) w plan built in
    let (_, k) = statuses_lem w bets plan.settled all in
    go bets some_bet (sym k ∙ ap length none_left)
  where
    go : (bets : List Bet) → bets ≢ [] → ¬ (length bets ≡ 0)
    go [] some_bet e = some_bet refl
    go (b ∷ bets) some_bet e = omega (arith, e)

-- A settlement that was reversed is never done again on the same outcome: the new legs have the
-- keys of the old ones, so the call raises IntegrityError and writes nothing. It is so in a market
-- that had a pending bet and none that was settled before, if the reversal follows the settlement.
pub resolve_again_blocked :
    (port port' port'' : MarketResolvePort) (m w : ℕ) (text text' text'' : String)
    (actor actor' actor'' : Option ℕ) (s : Db) (plan : SettlementPlan) (u : Db) (n : ℕ) (v : Db)
    → UniqueIds s.bets
    → where_rows (settled_in m) s.bets ≡ []
    → where_rows (pending_in m) s.bets ≢ []
    → resolve_market port m w text actor s ≡ (ok plan, u)
    → reverse_settlement port' m text' actor' u ≡ (ok n, v)
    → resolve_market port'' m w text'' actor'' v ≡ (err unique_violation, v)
unfolding resolve_market resolution gets ◌>>=◌
resolve_again_blocked port port' port'' m w text text' text'' actor actor' actor'' s plan u n v q
      unsettled some_bet resolves reverses =
    let (built, _) = resolve_market_effect port m w text actor s plan u resolves in
    let (_, same_bets) =
      reversal_undoes_settlement port port' m w text text' actor actor' s plan u n v q unsettled
        resolves reverses in
    let kept = always-rel {r = same_owners} (resolve_market-owners port m w text actor) resolves in
    let kept' =
      always-rel {r = same_owners} (reverse_settlement-owners port' m text' actor') reverses in
    let posted : Sound u v = always-rel (reverse_settlement-Sound port' m text' actor') reverses in
    let (l, specs, s1, has, runs, taken) =
      settle_pending-Spent port m w text actor (where_rows (pending_in m) s.bets) plan
        (record s { locks = [] }) some_bet built
        (begin-eq-ok (resolution port m w text actor) s resolves) in
    let (z, raised) =
      settle_pending-taken port'' m w text'' actor'' (where_rows (pending_in m) s.bets) plan
        (record s { locks = [] }) (record v { locks = [] })
        (some_result_lem w (where_rows (pending_in m) s.bets) plan built some_bet) some_bet built
        (kept' ∙ kept)
        (l, specs, s1, has, runs, FirstTaken-Extends specs _ _ posted.transfers_kept taken) in
    begin-raises (resolution port'' m w text'' actor'') v (
      subst
        (λ bets.
          settle_pending port'' m w text'' actor'' (where_rows (pending_in m) bets)
            (record v { locks = [] })
          ≡ (err unique_violation, z))
        (sym same_bets) raised)
