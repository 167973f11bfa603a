-- ===== src/Polymarket/Sync/Children.antt =====
-- The children of an event that `sync_events` (backend/app/integrations/polymarket/adapter.py) writes.
use xpredict.Prelude.{
  ◌≡◌, refl, sym, ap, ◌∙◌, true, false, ◌&&◌, ◌||◌, not, String, List, [], ◌∷◌, map, text_eq,
  is_text, arith, Bool-cases, inl, inr,
}
use xpredict.Polymarket.Gamma.{GammaMarket, GammaEvent, is_in, text_eq-path}
use xpredict.Polymarket.Upsert.Status.{text_eq_self}
use xpredict.Polymarket.Sync.{children_from, children_of_event}

abbrev pub ids : List GammaMarket → List String
ids ms = map (λ (m : GammaMarket). m.id) ms

-- No id occurs twice.
abbrev pub DistinctIds : List GammaMarket → Type 0
DistinctIds [] = Unit
DistinctIds (m ∷ ms) = (is_in m.id (ids ms) ≡ false) × DistinctIds ms

module _ (x : String) (named : is_text x ≡ true) where
  children_from-ids :
      (seen : List String) (ms : List GammaMarket)
      → is_in x (ids (children_from seen ms)) ≡ (is_in x (ids ms) && not (is_in x seen))
  children_from-ids seen [] = refl
  children_from-ids seen (m ∷ ms) = elim (Bool-cases (not (is_text m.id) || is_in m.id seen)) [
    | inl skipped ↦ elim (Bool-cases (text_eq x m.id)) [
      | inl e ↦
          let same = text_eq-path x m.id e in
          let in_seen : is_in x seen ≡ true =
            ap (λ y. is_in y seen) same ∙ ground (arith, skipped, ap is_text (sym same) ∙ named) in
          rw (skipped, e) (children_from-ids seen ms ∙ rw in_seen (ground arith))
      | inr ne ↦ rw (skipped, ne) (children_from-ids seen ms)
    ]
    | inr kept ↦ elim (Bool-cases (text_eq x m.id)) [
      | inl e ↦
          let same = text_eq-path x m.id e in
          let free : is_in x seen ≡ false = ap (λ y. is_in y seen) same ∙ ground (arith, kept) in
          rw (kept, e, free) refl
      | inr ne ↦ let rest = children_from-ids (m.id ∷ seen) ms in rw (kept, ne) (rest ∙ rw ne refl)
    ]
  ]

children_from-DistinctIds :
    (seen : List String) (ms : List GammaMarket) → DistinctIds (children_from seen ms)
children_from-DistinctIds seen [] = tt
children_from-DistinctIds seen (m ∷ ms) =
    elim (Bool-cases (not (is_text m.id) || is_in m.id seen)) [
      | inl skipped ↦ rw skipped (children_from-DistinctIds seen ms)
      | inr kept ↦
          let named : is_text m.id ≡ true = ground (arith, kept) in
          let fresh : is_in m.id (ids (children_from (m.id ∷ seen) ms)) ≡ false =
            children_from-ids m.id named (m.id ∷ seen) ms ∙ rw (text_eq_self m.id) (ground arith) in
          rw kept (fresh, children_from-DistinctIds (m.id ∷ seen) ms)
    ]

-- The children of an event are its markets once each: their ids are distinct, and the ids that occur
-- among them are exactly the ids that occur in the event and are not empty.
pub children_of_event_correct :
    (ev : GammaEvent)
    → DistinctIds (children_of_event ev)
      × ((x : String)
          → is_text x ≡ true
          → is_in x (ids (children_of_event ev)) ≡ is_in x (ids ev.markets))
children_of_event_correct ev = (
  children_from-DistinctIds [] ev.markets,
  (λ x named. children_from-ids x named [] ev.markets ∙ ground arith),
)
