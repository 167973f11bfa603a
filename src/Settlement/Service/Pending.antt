-- ===== src/Settlement/Service/Pending.antt =====
-- The statuses that are written when `SettlementService.resolve_market` (backend/app/settlement/service.py)
-- returns: which bets are left pending.
use xpredict.Prelude.{ℕ, ◌≡◌, refl, ap, sym, ◌∙◌, ⊤, String, Option, List, [], ◌∷◌, map, where_rows}
use xpredict.Money.Errors.{ok}
use xpredict.Database.Rows.{Db, Bet, AuditEvent}
use xpredict.Database.Keys.{settle}
use xpredict.Session.{Action, pure, gets, ◌>>=◌}
use xpredict.Session.Rules.{Preorder, Does}
use xpredict.Session.Inversion.{begin-eq-ok, Does-then, lift-then, returned, >>=-eq-ok}
use xpredict.Session.Untouched.{untouched, Does-of_untouched}
use xpredict.Ledger.{lock_touched, lock_bets, record_audit}
use xpredict.Ledger.Soundness.{Does-lock_touched, Does-lock_bets}
use xpredict.Ledger.Flow.{post_specs-bets}
use xpredict.Ledger.Queries.{resolve_market_liability_id-then}
use xpredict.Settlement.Plan.{SettlementPlan, build_settlement_plan}
use xpredict.Settlement.Plan.Correct.{build_settlement_plan_correct}
use xpredict.Settlement.Port.{MarketResolvePort}
use xpredict.Settlement.Service.Soundness.{Does-settle_specs}
use xpredict.Settlement.Service.{
  settle_pending, record_resolution, resolution_source_of, resolved_event, resolution_source_of,
  resolved_event, to_settle, pending_in, settle_specs, flip_bets, settle_bets, settle_if_any,
  record_resolution, settle_pending, resolution, resolve_market,
}
use xpredict.Settlement.Service.Effect.{resolve_market_effect}
use xpredict.Settlement.Service.Statuses.{
  UniqueIds, write_all, write_all-none, write_all-pass, pass, statuses, statuses_lem, flip_bets-eq,
  where-pass-none,
}

abbrev pub bets_kept : Preorder
bets_kept = record {
  rel = λ s u. u.bets ≡ s.bets;
  reflexive = λ s. refl;
  transitive = λ s t u p q. q ∙ p;
  quiet = λ s n l h. refl;
}

module _ (m : ℕ) (actor : Option ℕ) (plan : SettlementPlan) where
  settle_bets-rows :
      (bets : List Bet) (s : Db) {a : ⊤} {u : Db}
      → settle_bets m actor plan bets s ≡ (ok a, u)
      → u.bets ≡ write_all (statuses plan.settled) bets s.bets
  unfolding settle_bets
  settle_bets-rows bets s {a} {u} h =
      let (l, _, h1) = resolve_market_liability_id-then {s = s} m _ h in
      let (specs, t1, k1, _, h2) =
        Does-then {s = s} {r = bets_kept} (settle_specs l plan.settled bets) _
          (Does-settle_specs l plan.settled bets) h1 in
      let (_, t2, f, h3) = >>=-eq-ok (flip_bets plan.settled bets) _ t1 h2 in
      let (_, t3, k3, _, h4) =
        Does-then {r = bets_kept} (lock_touched specs) _ (Does-lock_touched specs) h3 in
      let (_, e) =
        returned {s = record t1 { bets = write_all (statuses plan.settled) bets t1.bets }}
          (sym (flip_bets-eq plan.settled bets t1) ∙ f) in
      post_specs-bets settle actor m specs t3 a u h4
      ∙ k3
      ∙ ap (λ (v : Db). v.bets) e
      ∙ ap (write_all (statuses plan.settled) bets) k1

  settle_if_any-rows :
      (bets : List Bet) (s : Db) {a : ⊤} {u : Db}
      → settle_if_any m actor plan bets s ≡ (ok a, u)
      → u.bets ≡ write_all (statuses plan.settled) bets s.bets
  unfolding settle_if_any pure
  settle_if_any-rows [] s h =
      ap (λ (v : Db). v.bets) (returned h).1 ∙ sym (write_all-none (statuses plan.settled) s.bets)
  settle_if_any-rows (b ∷ bets) s h = settle_bets-rows (b ∷ bets) s h

-- What leaves the ledger and the bets alone keeps the bets.
pub Does-bets_kept : {A : Type 0} (m : Action A) → Does untouched m → Does bets_kept m
Does-bets_kept m = Does-of_untouched m λ s u h. h.bets

pub Does-record_audit_row :
    (actor : Option ℕ) (event : AuditEvent) → Does bets_kept (record_audit actor event)
unfolding record_audit
Does-record_audit_row actor event = record { at = λ s. refl }

module _ (port : MarketResolvePort) (m w : ℕ) (text : String) (actor : Option ℕ) where
  record_resolution-bets :
      (plan plan' : SettlementPlan) (s u : Db)
      → record_resolution port m w text actor plan s ≡ (ok plan', u)
      → (plan' ≡ plan) × (u.bets ≡ s.bets)
  unfolding record_resolution
  record_resolution-bets plan plan' s u h =
      let (_, t1, k1, _, h1) =
        Does-then {s = s} {r = bets_kept} (port.mark_resolved m w (resolution_source_of actor) text)
          _ (Does-bets_kept _ (port.mark_resolved-Untouched m w (resolution_source_of actor) text))
          h in
      let (_, t2, k2, _, h2) =
        Does-then {s = t1} {r = bets_kept} (record_audit actor (resolved_event m w text plan))
          (λ _. pure plan) (Does-record_audit_row actor (resolved_event m w text plan)) h1 in
      let (e, e') = returned {s = t2} h2 in (e, ap (λ (v : Db). v.bets) e' ∙ k2 ∙ k1)

  settle_pending-rows :
      (bets : List Bet) (plan : SettlementPlan) (s u : Db)
      → settle_pending port m w text actor bets s ≡ (ok plan, u)
      → u.bets ≡ write_all (statuses plan.settled) bets s.bets
  unfolding settle_pending
  settle_pending-rows bets plan s u h =
      let (_, t1, k1, _, h1) =
        Does-then {s = s} {r = bets_kept} (lock_bets bets) _ (Does-lock_bets bets) h in
      let (plan', built, h2) =
        lift-then {s = t1} (build_settlement_plan (map to_settle bets) w) _ h1 in
      let (a, t2, h3, h4) = >>=-eq-ok (settle_if_any m actor plan' bets) _ t1 h2 in
      let (e, k4) = record_resolution-bets plan' plan t2 u h4 in
      k4
      ∙ settle_if_any-rows m actor plan' bets t1 h3
      ∙ ap (write_all (statuses plan'.settled) bets) k1
      ∙ ap (λ (p : SettlementPlan). write_all (statuses p.settled) bets s.bets) (sym e)

-- The rows of the bets after a settlement: the n-th pending bet has the n-th status of the plan.
pub resolve_market-rows :
    (port : MarketResolvePort) (m w : ℕ) (text : String) (actor : Option ℕ) (s : Db)
    (plan : SettlementPlan) (u : Db)
    → UniqueIds s.bets
    → resolve_market port m w text actor s ≡ (ok plan, u)
    → u.bets ≡ pass (pending_in m) (statuses plan.settled) s.bets
unfolding resolve_market resolution gets ◌>>=◌
resolve_market-rows port m w text actor s plan u q h =
    settle_pending-rows port m w text actor (where_rows (pending_in m) s.bets) plan
      (record s { locks = [] }) u (begin-eq-ok (resolution port m w text actor) s h)
    ∙ write_all-pass (pending_in m) (statuses plan.settled) s.bets q

-- A settlement that returns leaves no bet of the market pending, on a table of bets whose ids are
-- unique.
pub resolve_market_settles_all :
    (port : MarketResolvePort) (m w : ℕ) (text : String) (actor : Option ℕ) (s : Db)
    (plan : SettlementPlan) (u : Db)
    → UniqueIds s.bets
    → resolve_market port m w text actor s ≡ (ok plan, u)
    → where_rows (pending_in m) u.bets ≡ []
resolve_market_settles_all port m w text actor s plan u q h =
    let (built, _) = resolve_market_effect port m w text actor s plan u h in
    let bets = where_rows (pending_in m) s.bets in
    let (_, all, _, _) = build_settlement_plan_correct (map to_settle bets) w plan built in
    let (settled, k) = statuses_lem w bets plan.settled all in
    ap (where_rows (pending_in m)) (resolve_market-rows port m w text actor s plan u q h)
    ∙ where-pass-none m (statuses plan.settled) s.bets settled k
