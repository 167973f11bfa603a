-- ===== src/Events/Soundness.antt =====
-- Resolving, voiding and reversing an event (backend/app/settlement/event_service.py) keep to the
-- double entry, whichever of its children fail.
use xpredict.Prelude.{ℕ, String, Option, List, [], ◌∷◌}
use xpredict.Money.Errors.{Result, ok, err, value_error}
use xpredict.Database.Rows.{Db, Market, AuditEvent}
use xpredict.Session.{Action, pure}
use xpredict.Session.Rules.{
  Preorder, AlwaysDoes, Always-pure, Always-raise, Always-bind, always_rules,
}
use xpredict.Wallet.Flow.{sound}
use xpredict.Ledger.Soundness.{Does-record_audit}
use xpredict.Settlement.Port.{house_adapter}
use xpredict.Settlement.Service.{resolve_market, reverse_settlement}
use xpredict.Settlement.Service.Soundness.{resolve_market-Sound, reverse_settlement-Sound}
use xpredict.Events.{
  require_justification, reject_if_mirrored, house_children, load_house_event, yes_outcome_id,
  no_outcome_id, only_owner, with_no_outcome, plan_resolution, note_failure, settle_children,
  reverse_children, finish_event, resolve_event, void_event, reverse_event,
}

module _ {r : Preorder} where
  Always-load_house_event : (g : ℕ) (text : String) → AlwaysDoes r (load_house_event g text)
  unfolding load_house_event house_children require_justification reject_if_mirrored
  Always-load_house_event g text = search always_rules depth 9

  Always-no_outcome_id : (m : Market) → AlwaysDoes r (no_outcome_id m)
  unfolding no_outcome_id
  Always-no_outcome_id m = search always_rules

  Always-yes_outcome_id : (m : Market) → AlwaysDoes r (yes_outcome_id m)
  unfolding yes_outcome_id
  Always-yes_outcome_id m = search always_rules

  Always-only_owner : (ms : List Market) → AlwaysDoes r (only_owner ms)
  unfolding only_owner
  Always-only_owner [] = Always-raise value_error
  Always-only_owner (m ∷ []) = Always-pure m
  Always-only_owner (m ∷ n ∷ ms) = Always-raise value_error

  Always-with_no_outcome : (ms : List Market) → AlwaysDoes r (with_no_outcome ms)
  unfolding with_no_outcome
  Always-with_no_outcome [] = Always-pure []
  Always-with_no_outcome (m ∷ ms) = Always-bind (no_outcome_id m) _ (Always-no_outcome_id m) (λ o.
      Always-bind (with_no_outcome ms) (λ rest. pure ((m.id, o) ∷ rest)) (Always-with_no_outcome ms)
        (λ rest. Always-pure ((m.id, o) ∷ rest)))

  Always-plan_resolution : (g w : ℕ) (text : String) → AlwaysDoes r (plan_resolution g w text)
  unfolding plan_resolution
  Always-plan_resolution g w text =
      search
        (
          always_rules, Always-load_house_event, Always-only_owner, Always-yes_outcome_id,
          Always-with_no_outcome,
        )
        depth 12

  -- One child, and then the others.
  Always-note_failure :
      {A : Type 0} (m : ℕ) (rest : Action (List ℕ)) (s : Db) (p : Result A × Db)
      → AlwaysDoes r rest
      → r.rel s p.1
      → r.rel s (note_failure m rest p).1
  Always-note_failure m rest s (ok a, t) d h = r.transitive s t (rest t).1 h (d.at t)
  Always-note_failure m rest s (err e, t) d h =
      r.transitive s t _ h (
        (Always-bind rest (λ failed. pure (m ∷ failed)) d (λ failed. Always-pure (m ∷ failed))).at
          t)

pub settle_children-Sound :
    (now : ℕ) (text : String) (actor : Option ℕ) (children : List (ℕ × ℕ))
    → AlwaysDoes sound (settle_children now text actor children)
unfolding settle_children
settle_children-Sound now text actor [] = record {
  at = (Always-pure {r = sound} {A = List ℕ} []).at;
}
settle_children-Sound now text actor ((m, o) ∷ children) = record {
  at = λ s.
      Always-note_failure {r = sound} m _ s (resolve_market (house_adapter now) m o text actor s)
        (settle_children-Sound now text actor children)
        ((resolve_market-Sound (house_adapter now) m o text actor).at s);
}

pub reverse_children-Sound :
    (now : ℕ) (text : String) (actor : Option ℕ) (children : List ℕ)
    → AlwaysDoes sound (reverse_children now text actor children)
unfolding reverse_children
reverse_children-Sound now text actor [] = record {
  at = (Always-pure {r = sound} {A = List ℕ} []).at;
}
reverse_children-Sound now text actor (m ∷ children) = record {
  at = λ s.
      Always-note_failure {r = sound} m _ s (reverse_settlement (house_adapter now) m text actor s)
        (reverse_children-Sound now text actor children)
        ((reverse_settlement-Sound (house_adapter now) m text actor).at s);
}

Always-finish_event :
    (g : ℕ) (actor : Option ℕ) (event : AuditEvent) (n : ℕ) (failed : List ℕ)
    → AlwaysDoes sound (finish_event g actor event n failed)
unfolding finish_event
Always-finish_event g actor event n failed = search (always_rules, Does-record_audit) depth 9

pub resolve_event-Sound :
    (now g w : ℕ) (text : String) (actor : Option ℕ)
    → AlwaysDoes sound (resolve_event now g w text actor)
unfolding resolve_event
resolve_event-Sound now g w text actor =
    search (always_rules, Always-plan_resolution, settle_children-Sound, Always-finish_event) depth
      9

pub void_event-Sound :
    (now g : ℕ) (text : String) (actor : Option ℕ) → AlwaysDoes sound (void_event now g text actor)
unfolding void_event
void_event-Sound now g text actor =
    search
      (
        always_rules, Always-load_house_event, Always-with_no_outcome, settle_children-Sound,
        Always-finish_event,
      )
      depth 9

pub reverse_event-Sound :
    (now g : ℕ) (text : String) (actor : Option ℕ)
    → AlwaysDoes sound (reverse_event now g text actor)
unfolding reverse_event
reverse_event-Sound now g text actor =
    search (always_rules, Always-load_house_event, reverse_children-Sound, Always-finish_event)
      depth 9
