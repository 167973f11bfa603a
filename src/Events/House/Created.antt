-- ===== src/Events/House/Created.antt =====
-- What `create_house_event` (backend/app/settlement/event_service.py) has written when it returns.
use xpredict.Prelude.{
  ℕ, ◌+◌, ◌≡◌, refl, ap, sym, ◌∙◌, ⊤, Bool, true, false, String, List, [], ◌∷◌, ◌++◌, if◌then◌else◌,
  inl, inr,
}
use xpredict.Money.Errors.{Result, ok, err, unique_violation, unbound_local_error}
use xpredict.Database.Rows.{Db, Market, MarketGroup}
use xpredict.Session.{pure, raise, uuid4, ◌>>=◌}
use xpredict.Session.Inversion.{returned, >>=-eq-ok, begin-eq-ok, on_unique_violation-cases}
use xpredict.Ledger.{record_audit}
use xpredict.Markets.Creation.{generate_slug}
use xpredict.Events.{group_slug_taken}
use xpredict.Events.House.{
  CreateEventRequest, text_or_default, house_group, insert_house_group, flush_group, created_terms,
  add_event_children, add_group, add_children, create_house_event,
}
use xpredict.Events.House.Children.{Children, add_event_children-ok}

-- The group is new, under a slug that no other one has, and has one open market for each outcome of
-- the request. Nothing else was added to the two tables.
pub record CreatedEvent (body : CreateEventRequest) (s : Db) (group : MarketGroup)
    (children : List Market) (u : Db) : Type 0 where
  pub id : ℕ
  pub slug : String
  pub row : group ≡ house_group id slug body
  pub fresh : group_slug_taken slug s.groups ≡ false
  pub groups : u.groups ≡ s.groups ++ group ∷ []
  pub new : Children (created_terms body group) body.outcomes children
  pub markets : u.markets ≡ s.markets ++ children

insert_house_group-ok :
    (g : MarketGroup) (s : Db) {a : ⊤} {u : Db}
    → insert_house_group g s ≡ (ok a, u)
    → (group_slug_taken g.slug s.groups ≡ false) × (u ≡ record s { groups = s.groups ++ g ∷ [] })
unfolding insert_house_group
insert_house_group-ok g s {a} {u} h = go (group_slug_taken g.slug s.groups) h
  where
    go :
        (b : Bool)
        → ◌≡◌ {A = Result ⊤ × Db}
            (if b
              then (err unique_violation, s)
              else (ok tt, record s { groups = s.groups ++ g ∷ [] }))
            (ok a, u)
        → (b ≡ false) × (u ≡ record s { groups = s.groups ++ g ∷ [] })
    go true k = absurd (cc (ap (λ (p : Result ⊤ × Db). p.0) k))
    go false k = (refl, (returned k).1)

flush_group-ok :
    (g : MarketGroup) (s : Db) {a : ⊤} {u : Db}
    → flush_group g s ≡ (ok a, u)
    → insert_house_group g s ≡ (ok a, u)
unfolding raise
flush_group-ok g s h =
    elim (on_unique_violation-cases (insert_house_group g) (raise unbound_local_error) s h) [
      | inl k ↦ k
      | inr (t, _, k) ↦ absurd (cc (ap (λ (p : Result ⊤ × Db). p.0) k))
    ]

module _ (slugify : String → String) (body : CreateEventRequest) where
  add_group-ok :
      (s : Db) (group : MarketGroup) (u : Db)
      → add_group slugify body s ≡ (ok group, u)
      → (id : ℕ) × (slug : String) × (group ≡ house_group id slug body)
        × (group_slug_taken slug s.groups ≡ false)
        × (u.groups ≡ s.groups ++ group ∷ [])
        × (u.markets ≡ s.markets)
  unfolding add_group uuid4 pure ◌>>=◌
  add_group-ok s group u h =
      let slug = text_or_default body.slug (generate_slug slugify body.title s.next_id) in
      let row = house_group (s.next_id + 1) slug body in
      let drawn : Db = record s { next_id = s.next_id + 1 + 1 } in
      let (_, t, h1, h2) = >>=-eq-ok (flush_group row) (λ _. pure row) drawn h in
      let (free, e) = insert_house_group-ok row drawn (flush_group-ok row drawn h1) in
      let (same, e') = returned h2 in
      (
        s.next_id + 1,
        slug,
        same,
        free,
        ap (λ (x : Db). x.groups) (e' ∙ e) ∙ ap (λ g. s.groups ++ g ∷ []) (sym same),
        ap (λ (x : Db). x.markets) (e' ∙ e),
      )

  add_children-ok :
      (admin : ℕ) (group g : MarketGroup) (s : Db) (ms : List Market) (u : Db)
      → add_children slugify admin body group s ≡ (ok (g, ms), u)
      → (g ≡ group)
        × Children (created_terms body group) body.outcomes ms
        × (u.groups ≡ s.groups)
        × (u.markets ≡ s.markets ++ ms)
  unfolding add_children record_audit pure ◌>>=◌
  add_children-ok admin group g s ms u h =
      let (rows, t, h1, h2) =
        >>=-eq-ok (add_event_children slugify (created_terms body group) body.outcomes) _ s h in
      let (new, added) =
        add_event_children-ok slugify (created_terms body group) body.outcomes s rows t h1 in
      let (same, e) = returned h2 in
      let all : ms ≡ rows = ap (λ (r : MarketGroup × List Market). r.1) same in
      (
        ap (λ (r : MarketGroup × List Market). r.0) same,
        rw all new,
        ap (λ (x : Db). x.groups) e ∙ added.groups,
        ap (λ (x : Db). x.markets) e ∙ added.markets ∙ ap (λ x. s.markets ++ x) (sym all),
      )

-- Making an event that succeeds adds one group, under a slug that no other has, and one open
-- house market for each outcome of the request, in their order, with its odds, the deadline and
-- the criteria of the request, and no other group or market.
pub create_house_event_effect :
    (slugify : String → String) (admin : ℕ) (body : CreateEventRequest) (s : Db)
    (group : MarketGroup) (children : List Market) (u : Db)
    → create_house_event slugify admin body s ≡ (ok (group, children), u)
    → CreatedEvent body s group children u
unfolding create_house_event
create_house_event_effect slugify admin body s group children u h =
    let s0 : Db = record s { locks = [] } in
    let h0 = begin-eq-ok (add_group slugify body >>= add_children slugify admin body) s h in
    let (g, t, h1, h2) =
      >>=-eq-ok (add_group slugify body) (add_children slugify admin body) s0 h0 in
    let (id, slug, row, free, groups, kept) = add_group-ok slugify body s0 g t h1 in
    let (same, new, groups', markets) =
      add_children-ok slugify body admin g group t children u h2 in
    record {
      id = id;
      slug = slug;
      row = same ∙ row;
      fresh = free;
      groups = groups' ∙ groups ∙ ap (λ x. s.groups ++ x ∷ []) (sym same);
      new = rw same new;
      markets = markets ∙ ap (λ x. x ++ children) kept;
    }
