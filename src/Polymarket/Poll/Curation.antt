-- ===== src/Polymarket/Poll/Curation.antt =====
-- Which events of one category `_run_poll_events` (backend/app/integrations/polymarket/tasks.py)
-- synchronises.
use xpredict.Prelude.{
  ℕ, zero, suc, ◌≡◌, refl, sym, ap, ◌∙◌, Bool, true, false, String, Option, List, [], ◌∷◌, map, leb,
  where_rows, All, All-map, All-where, text_eq, arith, Bool-cases, inl, inr,
}
use xpredict.Money.Errors.{Result, ok, err}
use xpredict.Polymarket.Gamma.{GammaEvent, is_in, text_eq-path}
use xpredict.Polymarket.Upsert.Status.{text_eq_self}
use xpredict.Polymarket.Poll.{PollSettings, validated, new_events, take, category_events}

abbrev pub IsFresh : List String → GammaEvent → Type 0
IsFresh seen e = is_in e.id seen ≡ false

-- The volume of the last day is not below the floor.
abbrev pub IsBig : PollSettings → GammaEvent → Type 0
IsBig settings e = leb settings.volume_floor e.volume_24hr ≡ true

-- None of the events is among the ids.
abbrev pub NotIn : List String → List GammaEvent → Type 0
NotIn seen events = All (IsFresh seen) events

abbrev pub event_ids : List GammaEvent → List String
event_ids events = map (λ (e : GammaEvent). e.id) events

-- No event is there twice.
abbrev pub DistinctEvents : List GammaEvent → Type 0
DistinctEvents [] = Unit
DistinctEvents (e ∷ events) = (is_in e.id (event_ids events) ≡ false) × DistinctEvents events

-- Every id of the first list is in the second.
abbrev Within : List String → List String → Type 0
Within xs ys = (x : String) → is_in x xs ≡ true → is_in x ys ≡ true

outside : (b c : Bool) → (b ≡ true → c ≡ true) → c ≡ false → b ≡ false
outside true c h k = absurd (cc (sym (h refl) ∙ k))
outside false c h k = refl

new_events-Within :
    (seen : List String) (events : List GammaEvent)
    → Within seen (new_events seen events).1
      × Within (event_ids (new_events seen events).0) (new_events seen events).1
new_events-Within seen [] = ((λ x h. h), (λ x h. absurd (cc h)))
new_events-Within seen (e ∷ events) = elim (Bool-cases (is_in e.id seen)) [
  | inl there ↦ rw there (new_events-Within seen events)
  | inr new ↦
      let (kept, inside) = new_events-Within (e.id ∷ seen) events in
      rw new (
        (λ x h. kept x (ground (arith, h))),
        (λ x h. elim (Bool-cases (text_eq x e.id)) [
          | inl same ↦ kept x (ground (arith, same))
          | inr other ↦ inside x (ground (arith, h, other))
        ]),
      )
]

-- An id that no event has is not among theirs.
pub NotIn-ids :
    (x : String) (seen : List String) (events : List GammaEvent)
    → NotIn (x ∷ seen) events
    → is_in x (event_ids events) ≡ false
NotIn-ids x seen [] h = refl
NotIn-ids x seen (e ∷ events) (other, h) = elim (Bool-cases (text_eq x e.id)) [
  | inl same ↦
      let here : text_eq e.id x ≡ true =
        ap (text_eq e.id) (text_eq-path x e.id same) ∙ text_eq_self e.id in
      absurd (ground (arith, other, here))
  | inr ne ↦ rw ne (NotIn-ids x seen events h)
]

pub NotIn-weaken :
    (xs ys : List String) (events : List GammaEvent)
    → Within xs ys
    → NotIn ys events
    → NotIn xs events
NotIn-weaken xs ys events w h =
    All-map events (λ e k. outside (is_in e.id xs) (is_in e.id ys) (w e.id) k) h

new_events-NotIn :
    (seen : List String) (events : List GammaEvent)
    → NotIn seen (new_events seen events).0 × DistinctEvents (new_events seen events).0
new_events-NotIn seen [] = (tt, tt)
new_events-NotIn seen (e ∷ events) = elim (Bool-cases (is_in e.id seen)) [
  | inl there ↦ rw there (new_events-NotIn seen events)
  | inr new ↦
      let (fresh, distinct) = new_events-NotIn (e.id ∷ seen) events in
      let kept = (new_events (e.id ∷ seen) events).0 in
      rw new (
        (new, NotIn-weaken seen (e.id ∷ seen) kept (λ x h. ground (arith, h)) fresh),
        (NotIn-ids e.id seen kept fresh, distinct),
      )
]

module _ (p : GammaEvent → Bool) where
  where-Within :
      (events : List GammaEvent) → Within (event_ids (where_rows p events)) (event_ids events)
  where-Within [] x h = h
  where-Within (e ∷ events) x h = elim (Bool-cases (p e)) [
    | inl yes_p ↦ elim (Bool-cases (text_eq x e.id)) [
      | inl same ↦ ground (arith, same)
      | inr ne ↦ ground (arith, ne, yes_p, h, where-Within events x)
    ]
    | inr no_p ↦ ground (arith, no_p, h, where-Within events x)
  ]

  where-DistinctEvents :
      (events : List GammaEvent) → DistinctEvents events → DistinctEvents (where_rows p events)
  where-DistinctEvents [] d = tt
  where-DistinctEvents (e ∷ events) (once, d) = elim (Bool-cases (p e)) [
    | inl yes_p ↦ rw yes_p (
      outside _ (is_in e.id (event_ids events)) (where-Within events e.id) once,
      where-DistinctEvents events d,
    )
    | inr no_p ↦ rw no_p (where-DistinctEvents events d)
  ]

take-Within :
    (n : ℕ) (events : List GammaEvent) → Within (event_ids (take n events)) (event_ids events)
take-Within zero events x h = absurd (cc h)
take-Within (suc n) [] x h = h
take-Within (suc n) (e ∷ events) x h = ground (arith, h, take-Within n events x)

take-DistinctEvents :
    (n : ℕ) (events : List GammaEvent) → DistinctEvents events → DistinctEvents (take n events)
take-DistinctEvents zero events d = tt
take-DistinctEvents (suc n) [] d = tt
take-DistinctEvents (suc n) (e ∷ events) (once, d) = (
  outside _ (is_in e.id (event_ids events)) (take-Within n events e.id) once,
  take-DistinctEvents n events d,
)

take-All :
    (P : GammaEvent → Type 0) (n : ℕ) (events : List GammaEvent)
    → All P events
    → All P (take n events)
take-All P zero events h = tt
take-All P (suc n) [] h = tt
take-All P (suc n) (e ∷ events) (k, h) = (k, take-All P n events h)

-- What the ids and the volumes of the events of one category keep to.
pub record Curates (settings : PollSettings) (seen : List String) (events : List GammaEvent)
    (taken : List String) : Type 0 where
  pub fresh : NotIn seen events
  pub distinct : DistinctEvents events
  pub grows : Within seen taken
  pub inside : Within (event_ids events) taken
  pub big : All (IsBig settings) events

pub category_events-Curates :
    (settings : PollSettings) (seen : List String) (answer : Result (List (Option GammaEvent)))
    → Curates settings seen
        (category_events settings seen answer).0
        (category_events settings seen answer).1
category_events-Curates settings seen (err e) = record {
  fresh = tt;
  distinct = tt;
  grows = λ x h. h;
  inside = λ x h. absurd (cc h);
  big = tt;
}
category_events-Curates settings seen (ok raw) =
    let events = (new_events seen (validated raw)).0 in
    let p : GammaEvent → Bool = λ e. leb settings.volume_floor e.volume_24hr in
    let (fresh, distinct) = new_events-NotIn seen (validated raw) in
    let (grows, inside) = new_events-Within seen (validated raw) in
    record {
      fresh =
          take-All (IsFresh seen) settings.events_top_n (where_rows p events)
            (All-where p events (λ e yes_p h. h) fresh);
      distinct =
          take-DistinctEvents settings.events_top_n (where_rows p events)
            (where-DistinctEvents p events distinct);
      grows = grows;
      inside = λ x h.
          inside x
            (where-Within p events x (take-Within settings.events_top_n (where_rows p events) x h));
      big =
          take-All (IsBig settings) settings.events_top_n (where_rows p events)
            (All-where p events (λ e yes_p h. yes_p) fresh);
    }
