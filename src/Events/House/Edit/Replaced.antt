-- ===== src/Events/House/Edit/Replaced.antt =====
-- What `update_event` (backend/app/settlement/event_router.py) has done to the children of an event
-- when it returns, for a request that gives outcomes.
use mathlib.Core.List.{append-nil}
use xpredict.Prelude.{
  ℕ, ⊤, ◌≡◌, refl, ap, sym, ◌∙◌, Bool, false, not, String, Option, some, List, [], ◌∷◌, ◌++◌, ◌==◌,
  where_rows, arith, inl, inr, Bool-cases,
}
use xpredict.Money.Errors.{ok, http_exception, assertion_error}
use xpredict.Database.Rows.{Db, Market, MarketGroup}
use xpredict.Session.{Action, raise_if, gets, modify, ◌>>=◌}
use xpredict.Session.Inversion.{>>=-eq-ok, begin-eq-ok, or_raise-then, raise_if-then}
use xpredict.Wallet.{same_id}
use xpredict.Events.{group?, children_of}
use xpredict.Events.House.{OutcomeInput}
use xpredict.Events.House.Children.{
  Children, Added, add_event_children-ok, Children-where, pure-returned,
}
use xpredict.Events.House.Edit.{
  UpdateEventRequest, edited_group, put_group, without_children, existing_deadline, deadline_or,
  replaced_terms, edit_outcomes, edit_event, update_house_event, event_has_bets, checked_edit,
  patch_event,
}

module _ {A : Type 0} (p : A → Bool) where
  where_rows-append :
      (xs ys : List A) → where_rows p (xs ++ ys) ≡ where_rows p xs ++ where_rows p ys
  where_rows-append [] ys = refl
  where_rows-append (x ∷ xs) ys = ground (arith, where_rows-append xs ys)

  -- The rows that a DELETE leaves.
  where_rows-left : (xs : List A) → where_rows p (where_rows (λ x. not (p x)) xs) ≡ []
  where_rows-left [] = refl
  where_rows-left (x ∷ xs) = ground (arith, where_rows-left xs)

  where_rows-again : (xs : List A) → where_rows p (where_rows p xs) ≡ where_rows p xs
  where_rows-again [] = refl
  where_rows-again (x ∷ xs) = ground (arith, where_rows-again xs)

group?-id :
    (g : ℕ) (groups : List MarketGroup) (group : MarketGroup)
    → group? g groups ≡ some group
    → group.id ≡ g
unfolding group?
group?-id g [] group h = absurd (cc h)
group?-id g (x ∷ groups) group h = elim (Bool-cases (x.id == g)) [
  | inl e ↦
      let found : ◌≡◌ {A = Option MarketGroup} (some x) (some group) = ground (arith, e, h) in
      let same : x ≡ group = cc found in
      sym (ap (λ (k : MarketGroup). k.id) same) ∙ ground (arith, e)
  | inr ne ↦ group?-id g groups group (ground (arith, ne, h))
]

-- The outcomes of the request have replaced the children: each of them has an open market, and
-- these are the only children. No market outside the event differs.
pub record Replaced (g : ℕ) (body : UpdateEventRequest) (outcomes : List OutcomeInput) (s : Db)
    (group : MarketGroup) (children : List Market) (u : Db) : Type 0 where
  pub no_bets : event_has_bets g s ≡ false
  pub before : MarketGroup
  pub there : group? g s.groups ≡ some before
  pub edited : group ≡ edited_group body before
  pub deadline : ℕ
  pub new : Children (replaced_terms group deadline) outcomes children
  pub only : children_of g u ≡ children
  pub others :
      where_rows (λ (m : Market). not (same_id m.group_id g)) u.markets
      ≡ where_rows (λ (m : Market). not (same_id m.group_id g)) s.markets

module _ (slugify : String → String) (g : ℕ) (body : UpdateEventRequest)
    (outcomes : List OutcomeInput) where
  edit_outcomes-ok :
      (group : MarketGroup) (old : List Market) (s : Db) (ms : List Market) (u : Db)
      → edit_outcomes slugify g body group old (some outcomes) s ≡ (ok ms, u)
      → (deadline : ℕ) × Children (replaced_terms group deadline) outcomes ms
        × Added ms (without_children g s) u
  unfolding edit_outcomes modify ◌>>=◌
  edit_outcomes-ok group old s ms u h =
      let (deadline, _, k) =
        or_raise-then (deadline_or body.deadline (existing_deadline old)) assertion_error _ h in
      let (new, added) =
        add_event_children-ok slugify (replaced_terms group deadline) outcomes
          (without_children g s) ms u k in
      (deadline, new, added)

  edit_event-ok :
      (before : MarketGroup) (s : Db) (group : MarketGroup) (ms : List Market) (u : Db)
      → body.outcomes ≡ some outcomes
      → edit_event slugify g body before s ≡ (ok (group, ms), u)
      → (group ≡ edited_group body before)
        × (deadline : ℕ) × Children (replaced_terms group deadline) outcomes ms
        × (u.markets ≡ (without_children g s).markets ++ ms)
  unfolding edit_event modify gets ◌>>=◌
  edit_event-ok before s group ms u given h =
      let edited = edited_group body before in
      let old = children_of g s in
      let t : Db = record s { groups = put_group edited s.groups } in
      let (ms', v, h1, h2) =
        >>=-eq-ok (edit_outcomes slugify g body edited old body.outcomes) _ t h in
      let (same, e) = pure-returned h2 in
      let h3 = (λ i. edit_outcomes slugify g body edited old (sym given i) t) ∙ h1 in
      let (deadline, new, added) = edit_outcomes-ok edited old t ms' v h3 in
      let is_edited : group ≡ edited = ap (λ (r : MarketGroup × List Market). r.0) same in
      let all : ms ≡ ms' = ap (λ (r : MarketGroup × List Market). r.1) same in
      (
        is_edited,
        deadline,
        rw (is_edited, all) new,
        ap (λ (x : Db). x.markets) e
            ∙ added.markets
            ∙ ap (λ x. (without_children g s).markets ++ x) (sym all),
      )

checked_edit-then :
    (slugify : String → String) (g : ℕ) (body : UpdateEventRequest) (s : Db) (group : MarketGroup)
    (ms : List Market) (u : Db)
    → checked_edit slugify g body s ≡ (ok (group, ms), u)
    → (event_has_bets g s ≡ false)
      × (before : MarketGroup) × (group? g s.groups ≡ some before)
      × (edit_event slugify g body before s ≡ (ok (group, ms), u))
unfolding checked_edit update_house_event gets ◌>>=◌
checked_edit-then slugify g body s group ms u h =
    let found = group? g s.groups in
    let missing = http_exception 404 in
    let edit : ⊤ → Action (MarketGroup × List Market) = λ _. update_house_event slugify g body in
    let (_, _, h1) =
      or_raise-then {s = s} {b = (group, ms)} {u = u} found missing
        (λ _. gets (event_has_bets g) >>= λ locked. raise_if locked (http_exception 423) >>= edit)
        h in
    let (free, h2) =
      raise_if-then {s = s} {b = (group, ms)} {u = u} (event_has_bets g s) (http_exception 423) edit
        h1 in
    let (before, there, h3) =
      or_raise-then {s = s} {b = (group, ms)} {u = u} found missing (edit_event slugify g body)
        h2 in
    (free, before, there, h3)

-- An edit of an event that gives outcomes and succeeds was of an event none of whose children
-- has a bet. Its children afterwards are new open house markets, one for each outcome of the
-- request, with the default criteria, even if the event is mirrored; the markets outside the
-- event stay.
pub patch_event_replaces :
    (slugify : String → String) (g : ℕ) (body : UpdateEventRequest) (outcomes : List OutcomeInput)
    (s : Db) (group : MarketGroup) (children : List Market) (u : Db)
    → body.outcomes ≡ some outcomes
    → patch_event slugify g body s ≡ (ok (group, children), u)
    → Replaced g body outcomes s group children u
unfolding patch_event
patch_event_replaces slugify g body outcomes s group children u given h =
    let s0 : Db = record s { locks = [] } in
    let h1 = begin-eq-ok (checked_edit slugify g body) s h in
    let (free, before, there, h2) = checked_edit-then slugify g body s0 group children u h1 in
    let (edited, deadline, new, rows) =
      edit_event-ok slugify g body outcomes before (record s { locks = [] }) group children u given
        h2 in
    let child : Market → Bool = λ m. same_id m.group_id g in
    let left = where_rows (λ (m : Market). not (child m)) s.markets in
    let same : group.id ≡ g =
      ap (λ (k : MarketGroup). k.id) edited ∙ group?-id g s.groups before there in
    let (all, none_else) =
      Children-where (replaced_terms group deadline) g outcomes children same new in
    record {
      no_bets = free;
      before = before;
      there = there;
      edited = edited;
      deadline = deadline;
      new = new;
      only =
          ap (where_rows child) rows
          ∙ where_rows-append child left children
          ∙ (λ i. where_rows-left child s.markets i ++ all i);
      others =
          ap (where_rows (λ (m : Market). not (child m))) rows
          ∙ where_rows-append (λ m. not (child m)) left children
          ∙ (λ i. where_rows-again (λ m. not (child m)) s.markets i ++ none_else i)
          ∙ append-nil left;
    }
