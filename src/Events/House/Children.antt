-- ===== src/Events/House/Children.antt =====
-- The children that `_add_event_child` (backend/app/settlement/event_service.py) adds to an event.
use Prim.Native.String.{◌++◌ as ◌++ₛ◌}
use mathlib.Core.List.{append-nil, append_assoc}
use xpredict.Prelude.{
  ℕ, ◌+◌, ◌≡◌, refl, ap, sym, ◌∙◌, String, true, List, [], ◌∷◌, ◌++◌, ==_self, not, where_rows,
}
use xpredict.Money.Errors.{ok}
use xpredict.Database.Rows.{Db, Market}
use xpredict.Session.{pure, uuid4, ◌>>=◌}
use xpredict.Session.Inversion.{returned, >>=-eq-ok}
use xpredict.Wallet.{same_id}
use xpredict.Markets.Creation.{generate_slug, insert_market}
use xpredict.Markets.Creation.Opened.{insert_market-ok}
use xpredict.Events.House.{
  OutcomeInput, ChildTerms, event_child, add_event_child, add_event_children,
}

-- The open house market of one outcome, under the terms of the event.
pub record ChildOf (terms : ChildTerms) (outcome : OutcomeInput) (m : Market) : Type 0 where
  pub slug : String
  pub id : ℕ
  pub yes_id : ℕ
  pub no_id : ℕ
  pub row : m ≡ event_child terms outcome slug id yes_id no_id

-- One child for each outcome, in their order.
abbrev pub Children : ChildTerms → List OutcomeInput → List Market → Type 0
Children terms [] ms = ms ≡ []
Children terms (outcome ∷ outcomes) ms =
    (m : Market) × (rest : List Market) × (ms ≡ m ∷ rest)
    × ChildOf terms outcome m
    × Children terms outcomes rest

-- Only markets were added.
pub record Added (children : List Market) (s u : Db) : Type 0 where
  pub markets : u.markets ≡ s.markets ++ children
  pub groups : u.groups ≡ s.groups
  pub bets : u.bets ≡ s.bets

pub pure-returned : {A : Type 0} {a b : A} {s u : Db} → pure a s ≡ (ok b, u) → (b ≡ a) × (u ≡ s)
unfolding pure
pure-returned h = returned h

module _ (slugify : String → String) (terms : ChildTerms) where
  add_event_child-ok :
      (outcome : OutcomeInput) (s : Db) (m : Market) (u : Db)
      → add_event_child slugify terms outcome s ≡ (ok m, u)
      → ChildOf terms outcome m × Added (m ∷ []) s u
  unfolding add_event_child uuid4 pure ◌>>=◌
  add_event_child-ok outcome s m u h =
      let slug = generate_slug slugify (terms.group.title ++ₛ " " ++ₛ outcome.label) s.next_id in
      let row =
        event_child terms outcome slug (s.next_id + 1) (s.next_id + 1 + 1)
          (s.next_id + 1 + 1 + 1) in
      let drawn : Db = record s { next_id = s.next_id + 1 + 1 + 1 + 1 } in
      let (_, t, h1, h2) = >>=-eq-ok (insert_market row) (λ _. pure row) drawn h in
      let (_, e) = insert_market-ok row drawn h1 in
      let (same, e') = returned h2 in
      (
        record {
          slug = slug;
          id = s.next_id + 1;
          yes_id = s.next_id + 1 + 1;
          no_id = s.next_id + 1 + 1 + 1;
          row = same;
        },
        rw (e' ∙ e, same) (record { markets = refl; groups = refl; bets = refl }),
      )

  pub add_event_children-ok :
      (outcomes : List OutcomeInput) (s : Db) (ms : List Market) (u : Db)
      → add_event_children slugify terms outcomes s ≡ (ok ms, u)
      → Children terms outcomes ms × Added ms s u
  unfolding add_event_children
  add_event_children-ok [] s ms u h =
      let (same, e) = pure-returned h in
      (
        same,
        rw (e, same) (record { markets = sym (append-nil s.markets); groups = refl; bets = refl }),
      )
  add_event_children-ok (outcome ∷ outcomes) s ms u h =
      let (m, t, h1, h2) = >>=-eq-ok (add_event_child slugify terms outcome) _ s h in
      let (rest, v, h3, h4) = >>=-eq-ok (add_event_children slugify terms outcomes) _ t h2 in
      let (child, one) = add_event_child-ok outcome s m t h1 in
      let (children, more) = add_event_children-ok outcomes t rest v h3 in
      let (same, e) = pure-returned h4 in
      (
        (m, rest, same, child, children),
        rw (e, same)
            (record {
              markets =
                  more.markets
                  ∙ ap (λ x. x ++ rest) one.markets
                  ∙ append_assoc s.markets (m ∷ []) rest;
              groups = more.groups ∙ one.groups;
              bets = more.bets ∙ one.bets;
            }),
      )

-- They are the children of the group, and the only ones if it had none.
module _ (terms : ChildTerms) where
  pub Children-where :
      (g : ℕ) (outcomes : List OutcomeInput) (ms : List Market)
      → terms.group.id ≡ g
      → Children terms outcomes ms
      → (where_rows (λ (m : Market). same_id m.group_id g) ms ≡ ms)
        × (where_rows (λ (m : Market). not (same_id m.group_id g)) ms ≡ [])
  Children-where g [] ms e h = rw h (refl, refl)
  Children-where g (outcome ∷ outcomes) ms e (m, rest, split, child, h) =
      let (kept, gone) = Children-where g outcomes rest e h in
      let inside : same_id m.group_id g ≡ true = rw (child.row, e) (==_self g) in
      rw (split, inside, gone) (ap (λ x. m ∷ x) kept, refl)
