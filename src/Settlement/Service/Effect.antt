-- ===== src/Settlement/Service/Effect.antt =====
-- What `SettlementService.resolve_market` (backend/app/settlement/service.py) has paid when it
-- returns.
use mathlib.Core.Path.{subst}
use xpredict.Prelude.{
  ℕ, ◌+◌, ◌≡◌, ◌≢◌, refl, ap, sym, ◌∙◌, ⊤, String, Option, List, [], ◌∷◌, map, ◌==◌, if◌then◌else◌,
  where_rows, arith,
}
use xpredict.Money.Errors.{ok}
use xpredict.Database.Rows.{Db, Bet, AuditEvent, house_promo_id, house_revenue_id}
use xpredict.Database.Keys.{settle}
use xpredict.Database.Tables.{account?, balance_or_zero}
use xpredict.Session.{Action, pure, gets, ◌>>=◌}
use xpredict.Session.Rules.{Preorder, Does}
use xpredict.Session.Inversion.{begin-eq-ok, Does-then, lift-then, returned, >>=-eq-ok}
use xpredict.Session.Untouched.{untouched, Does-of_untouched}
use xpredict.Wallet.Posting.{balance}
use xpredict.Ledger.{lock_touched, is_liability_of, write_bet, lock_bets, record_audit}
use xpredict.Ledger.Soundness.{Does-lock_touched, Does-lock_bets}
use xpredict.Ledger.Flow.{post_specs-flow}
use xpredict.Ledger.Queries.{HasLiability, resolve_market_liability_id-then}
use xpredict.Settlement.Plan.{SettlementPlan, build_settlement_plan}
use xpredict.Settlement.Plan.Correct.{SettlesAll, losing_stakes, build_settlement_plan_correct}
use xpredict.Settlement.Port.{MarketResolvePort}
use xpredict.Settlement.Service.{
  to_settle, pending_in, resolution_source_of, resolved_event, settle_specs, flip_bets, settle_bets,
  settle_if_any, record_resolution, settle_pending, resolution, resolve_market,
}
use xpredict.Settlement.Service.Soundness.{Does-flip_bets}
use xpredict.Settlement.Service.Payments.{stakes, winnings, payouts_to, settle_specs-AllLegs}

abbrev pub accounts_kept : Preorder
accounts_kept = record {
  rel = λ s u. u.accounts ≡ s.accounts;
  reflexive = λ s. refl;
  transitive = λ s t u p q. q ∙ p;
  quiet = λ s n l h. refl;
}

pub Does-write_bet_kept : (x : ℕ) (f : Bet → Bet) → Does accounts_kept (write_bet x f)
unfolding write_bet
Does-write_bet_kept x f = record { at = λ s. refl }

-- Every balance of the accounts `before` moves by the rules of the plan: the liability account `l`
-- gives up every stake, the house pays the winners' gains and takes the losers' stakes, and each
-- winner's wallet gets the payout.
pub record Settled (l w : ℕ) (bets : List Bet) (plan : SettlementPlan) (before after : Db)
    : Type 0 where
  pub balances :
      (x : ℕ)
      → balance x after
          + (if l == x then stakes bets else 0)
          + (if house_promo_id == x then winnings plan.settled bets else 0)
        ≡ balance x before
          + payouts_to x before.accounts plan.settled bets
          + (if house_revenue_id == x then losing_stakes w (map to_settle bets) else 0)

module _ (m w : ℕ) (actor : Option ℕ) (plan : SettlementPlan) where
  settle_bets-Settled :
      (bets : List Bet) (s : Db) {a : ⊤} {u : Db}
      → SettlesAll w (map to_settle bets) plan.settled
      → settle_bets m actor plan bets s ≡ (ok a, u)
      → (l : ℕ) × HasLiability m s l × Settled l w bets plan s u
  unfolding settle_bets
  settle_bets-Settled bets s {a} {u} settles h =
      let (l, has, h1) = resolve_market_liability_id-then {s = s} m _ h in
      let (specs, t1, h2, h3) = >>=-eq-ok (settle_specs l plan.settled bets) _ s h1 in
      let (e1, legs) = settle_specs-AllLegs l w bets plan.settled s settles h2 in
      let (_, t2, k2, _, h4) =
        Does-then {r = accounts_kept} (flip_bets plan.settled bets) _
          (Does-flip_bets Does-write_bet_kept plan.settled bets) h3 in
      let (_, t3, k3, _, h5) =
        Does-then {r = accounts_kept} (lock_touched specs) _ (Does-lock_touched specs) h4 in
      let flow = post_specs-flow settle actor m specs t3 a u h5 in
      let kept : t3.accounts ≡ s.accounts = k3 ∙ k2 ∙ ap (λ (v : Db). v.accounts) e1 in
      (
        l,
        has,
        record {
          balances = λ x. omega (
            arith,
            flow x,
            legs.out x,
            legs.into x,
            ap (λ rows. balance_or_zero (account? x rows)) kept,
          );
        },
      )

  settle_if_any-Settled :
      (bets : List Bet) (s : Db) {a : ⊤} {u : Db}
      → SettlesAll w (map to_settle bets) plan.settled
      → settle_if_any m actor plan bets s ≡ (ok a, u)
      → (l : ℕ) × (bets ≢ [] → HasLiability m s l) × Settled l w bets plan s u
  unfolding settle_if_any pure stakes winnings payouts_to losing_stakes
  settle_if_any-Settled [] s {a} {u} settles h =
      let same : u ≡ s = (returned h).1 in
      (0, λ ne. absurd (ne refl), record { balances = λ x. rw (same, settles) (ground arith) })
  settle_if_any-Settled (b ∷ bets) s settles h =
      let (l, has, settled) = settle_bets-Settled (b ∷ bets) s settles h in (l, λ _. has, settled)

pub Does-record_audit :
    (actor : Option ℕ) (event : AuditEvent) → Does accounts_kept (record_audit actor event)
unfolding record_audit
Does-record_audit actor event = record { at = λ s. refl }

-- What leaves the ledger alone keeps the accounts.
pub Does-kept : {A : Type 0} (m : Action A) → Does untouched m → Does accounts_kept m
Does-kept m = Does-of_untouched m λ s u h. h.accounts

pub moved_liability :
    (m l : ℕ) (s t : Db) → t.accounts ≡ s.accounts → HasLiability m t l → HasLiability m s l
moved_liability m l s t k (a, found, e) =
    (a, ap (where_rows (is_liability_of m)) (sym k) ∙ found, e)

-- Steps before and after that keep the accounts.
kept_around :
    {l w : ℕ} {bets : List Bet} {plan : SettlementPlan} {s t u v : Db}
    → t.accounts ≡ s.accounts
    → v.accounts ≡ u.accounts
    → Settled l w bets plan t u
    → Settled l w bets plan s v
kept_around {bets = bets} {plan = plan} k k' p = record {
  balances = λ x. omega (
    arith,
    p.balances x,
    ap (λ rows. balance_or_zero (account? x rows)) k,
    ap (λ rows. balance_or_zero (account? x rows)) k',
    ap (λ rows. payouts_to x rows plan.settled bets) k,
  );
}

module _ (port : MarketResolvePort) (m w : ℕ) (text : String) (actor : Option ℕ) where
  record_resolution-kept :
      (plan plan' : SettlementPlan) (s u : Db)
      → record_resolution port m w text actor plan s ≡ (ok plan', u)
      → (plan' ≡ plan) × (u.accounts ≡ s.accounts)
  unfolding record_resolution
  record_resolution-kept plan plan' s u h =
      let (_, t1, k1, _, h1) =
        Does-then {s = s} {r = accounts_kept}
          (port.mark_resolved m w (resolution_source_of actor) text) _
          (Does-kept _ (port.mark_resolved-Untouched m w (resolution_source_of actor) text)) h in
      let (_, t2, k2, _, h2) =
        Does-then {s = t1} {r = accounts_kept} (record_audit actor (resolved_event m w text plan))
          (λ _. pure plan) (Does-record_audit actor (resolved_event m w text plan)) h1 in
      let (e, e') = returned {s = t2} h2 in (e, ap (λ (v : Db). v.accounts) e' ∙ k2 ∙ k1)

  settle_pending-Settled :
      (bets : List Bet) (plan : SettlementPlan) (s u : Db)
      → settle_pending port m w text actor bets s ≡ (ok plan, u)
      → (build_settlement_plan (map to_settle bets) w ≡ ok plan)
        × ((l : ℕ) × (bets ≢ [] → HasLiability m s l) × Settled l w bets plan s u)
  unfolding settle_pending
  settle_pending-Settled bets plan s u h =
      let (_, t1, k1, _, h1) =
        Does-then {s = s} {r = accounts_kept} (lock_bets bets) _ (Does-lock_bets bets) h in
      let (plan', built, h2) =
        lift-then {s = t1} (build_settlement_plan (map to_settle bets) w) _ h1 in
      let (a, t2, h3, h4) = >>=-eq-ok (settle_if_any m actor plan' bets) _ t1 h2 in
      let (_, settles, _, _) = build_settlement_plan_correct (map to_settle bets) w plan' built in
      let (l, has, settled) = settle_if_any-Settled m w actor plan' bets t1 settles h3 in
      let (e, k4) = record_resolution-kept plan' plan t2 u h4 in
      (
        built ∙ ap ok (sym e),
        (
          l,
          λ ne. moved_liability m l s t1 k1 (has ne),
          subst (λ p. Settled l w bets p s u) (sym e) (kept_around k1 k4 settled),
        ),
      )

-- A settlement that returns has the plan of the market's pending bets, and every balance moved by
-- the rules of that plan: the market's liability account gave up exactly the stakes, each winner's
-- wallet got exactly its payouts, `house_promo` paid the gains, and `house_revenue` took the losing
-- stakes.
pub resolve_market_effect :
    (port : MarketResolvePort) (m w : ℕ) (text : String) (actor : Option ℕ) (s : Db)
    (plan : SettlementPlan) (u : Db)
    → resolve_market port m w text actor s ≡ (ok plan, u)
    → (build_settlement_plan (map to_settle (where_rows (pending_in m) s.bets)) w ≡ ok plan)
      × ((l : ℕ) × (where_rows (pending_in m) s.bets ≢ [] → HasLiability m s l)
          × Settled l w (where_rows (pending_in m) s.bets) plan s u)
unfolding resolve_market resolution gets ◌>>=◌
resolve_market_effect port m w text actor s plan u h =
    let h1 = begin-eq-ok (resolution port m w text actor) s h in
    let (built, (l, has, p)) =
      settle_pending-Settled port m w text actor (where_rows (pending_in m) s.bets) plan
        (record s { locks = [] }) u h1 in
    (built, (l, has, record { balances = p.balances }))
