-- ===== src/Polymarket/Upsert/Status.antt =====
-- The row that `_upsert_one_market` (backend/app/integrations/polymarket/adapter.py) leaves, and the
-- candidates of `_run_detect_resolutions` (backend/app/integrations/polymarket/tasks.py).
use text.Mathlib.TextPositions.{compare_refl}
use Prim.Native.Nat.{Ordering}
use xpredict.Prelude.{
  ℕ, ◌+◌, ◌≡◌, refl, sym, ap, ◌∙◌, Bool, true, false, String, Option, none, some, List, [], ◌∷◌,
  if◌then◌else◌, text_eq, arith, Bool-cases, Option-cases, inl, inr, ◌==◌, leb, length, where_rows,
  first_chars,
}
use xpredict.Money.Errors.{Result, ok, err, check_violation, unique_violation}
use xpredict.Database.Rows.{Db, Market, resolved, Outcome}
use xpredict.Session.{pure, gets, raise_if, uuid4, ◌>>=◌}
use xpredict.Session.Inversion.{returned, lift-then, >>=-eq-ok, ok-injective}
use xpredict.Markets.{OddsDelta}
use xpredict.Markets.Creation.{slug_taken}
use xpredict.Polymarket.Gamma.{GammaMarket, internal_status}
use xpredict.Polymarket.Detect.{is_candidate}
use xpredict.Polymarket.Upsert.{
  Price, Synced, is_mirror_of, mirrored?, put_mirrored, mirror_slug, refreshed, new_mirror,
  mirror_row, at_most_one, checked_odds, repriced, write_outcome, upsert_outcome, upsert_outcomes,
  prices_of, put_row, upsert_row, is_integrity_error, release_savepoint, upsert_one_market,
}

pub text_eq_self : (s : String) → text_eq s s ≡ true
text_eq_self s = ap (λ o. elim o [ Ordering.eq ↦ true | _ ↦ false ]) (compare_refl s)

mirrored?-is_mirror_of :
    (x : String) (ms : List Market) (m : Market) → mirrored? x ms ≡ some m → is_mirror_of x m ≡ true
mirrored?-is_mirror_of x [] m h = absurd (cc h)
mirrored?-is_mirror_of x (r ∷ ms) m h = elim (Bool-cases (is_mirror_of x r)) [
  | inl e ↦ let same : r ≡ m = ground (arith, h, e) in ap (is_mirror_of x) (sym same) ∙ e
  | inr ne ↦ mirrored?-is_mirror_of x ms m (ground (arith, h, ne))
]

mirrored?-put :
    (x : String) (row : Market) (ms : List Market)
    → is_mirror_of x row ≡ true
    → mirrored? x (put_mirrored x row ms) ≡ some row
mirrored?-put x row [] h = rw h refl
mirrored?-put x row (m ∷ ms) h = elim (Bool-cases (is_mirror_of x m)) [
  | inl e ↦ rw (e, h) refl
  | inr ne ↦ rw (ne, ne) (mirrored?-put x row ms h)
]

-- A row without its outcomes.
abbrev bare : Market → Market
bare m = record m { outcomes = [] }

write_outcome-bare :
    (odds : ℕ) (m : Market) (label : String) (existing : Option Outcome) (s : Db) (m' : Market)
    (ds : List OddsDelta) (u : Db)
    → write_outcome odds m label existing s ≡ (ok (m', ds), u)
    → bare m' ≡ bare m
unfolding write_outcome uuid4 pure ◌>>=◌
write_outcome-bare odds m label (some o) s m' ds u h = go (o.current_odds == odds) h
  where
    go :
        (b : Bool)
        → (if b
              then pure {A = Market × List OddsDelta} (m, [])
              else pure {A = Market × List OddsDelta} (
                record m { outcomes = repriced o.id odds m.outcomes },
                record { outcome_id = o.id; odds = odds } ∷ [],
              ))
            s
          ≡ (ok (m', ds), u)
        → bare m' ≡ bare m
    go true k = ap (λ (r : Market × List OddsDelta). bare r.0) (returned k).0
    go false k = ap (λ (r : Market × List OddsDelta). bare r.0) (returned k).0
write_outcome-bare odds m label none s m' ds u h =
    let (_, t, _, h1) = >>=-eq-ok (raise_if (leb 2 (length m.outcomes)) check_violation) _ s h in
    ap (λ (r : Market × List OddsDelta). bare r.0) (returned h1).0

upsert_outcome-bare :
    (m : Market) (label : String) (price : Price) (s : Db) (m' : Market) (ds : List OddsDelta)
    (u : Db)
    → upsert_outcome m label price s ≡ (ok (m', ds), u)
    → bare m' ≡ bare m
unfolding upsert_outcome
upsert_outcome-bare m label price s m' ds u h =
    let (existing, _, h1) =
      lift-then {s = s}
        (at_most_one (where_rows (λ (o : Outcome). text_eq o.label label) m.outcomes)) _ h in
    let (odds, _, h2) = lift-then {s = s} (checked_odds price) _ h1 in
    write_outcome-bare odds m label existing s m' ds u h2

upsert_outcomes-bare :
    (m : Market) (priced : List (String × Price)) (s : Db) (m' : Market) (ds : List OddsDelta)
    (u : Db)
    → upsert_outcomes m priced s ≡ (ok (m', ds), u)
    → bare m' ≡ bare m
unfolding upsert_outcomes
upsert_outcomes-bare m [] s m' ds u h =
    ap (λ (r : Market × List OddsDelta). bare r.0) (returned h).0
upsert_outcomes-bare m ((label, price) ∷ rest) s m' ds u h =
    let ((m1, d1), t1, h1, h2) = >>=-eq-ok (upsert_outcome m (first_chars 50 label) price) _ s h in
    let ((m2, d2), t2, h3, h4) = >>=-eq-ok (upsert_outcomes m1 rest) _ t1 h2 in
    ap (λ (r : Market × List OddsDelta). bare r.0) (returned h4).0
    ∙ upsert_outcomes-bare m1 rest t1 m2 d2 t2 h3
    ∙ upsert_outcome-bare m (first_chars 50 label) price s m1 d1 t1 h1

module _ (slugify : String → String) (decimal : String → Price) (now : ℕ) (parsed : GammaMarket)
    (group_id : Option ℕ) (category : Option String) where
  mirror_row-ok :
      (id : ℕ) (slug : String) (markets : List Market) (row : Market)
      → mirror_row now id slug parsed group_id category markets (mirrored? parsed.id markets)
        ≡ ok row
      → (row.status ≡ internal_status parsed) × (is_mirror_of parsed.id row ≡ true)
  mirror_row-ok id slug markets row h = elim (Option-cases (mirrored? parsed.id markets)) [
    | inl free ↦
        inserted (slug_taken slug markets)
          (ap (mirror_row now id slug parsed group_id category markets) (sym free) ∙ h)
    | inr (m, found) ↦
        let same : refreshed parsed group_id category m ≡ row =
          ok-injective _ _
            (ap (mirror_row now id slug parsed group_id category markets) (sym found) ∙ h) in
        (
          ap (λ (r : Market). r.status) (sym same),
          ap (is_mirror_of parsed.id) (sym same) ∙ mirrored?-is_mirror_of parsed.id markets m found,
        )
  ]
    where
      inserted :
          (b : Bool)
          → (if b
              then err unique_violation
              else ok (new_mirror now id slug parsed group_id category))
            ≡ ok row
          → (row.status ≡ internal_status parsed) × (is_mirror_of parsed.id row ≡ true)
      inserted true k = absurd (cc k)
      inserted false k =
          let same = ok-injective _ _ k in
          (
            ap (λ (r : Market). r.status) (sym same),
            ap (is_mirror_of parsed.id) (sym same) ∙ text_eq_self parsed.id,
          )

  upsert_row-status :
      (s : Db) (r : Synced) (u : Db)
      → upsert_row slugify decimal now parsed group_id category s ≡ (ok r, u)
      → (row : Market) × (mirrored? parsed.id u.markets ≡ some row)
        × (row.id ≡ r.market_id)
        × (row.status ≡ internal_status parsed)
  unfolding upsert_row uuid4 gets put_row ◌>>=◌
  upsert_row-status s r u h =
      let drawn : Db = record s { next_id = s.next_id + 1 + 1 } in
      let (row, h1, h2) =
        lift-then {s = drawn}
          (mirror_row now (s.next_id + 1) (mirror_slug slugify parsed s.next_id) parsed group_id
            category s.markets (mirrored? parsed.id s.markets))
          _ h in
      let (status, mirrors) =
        mirror_row-ok (s.next_id + 1) (mirror_slug slugify parsed s.next_id) s.markets row h1 in
      let ((row', ds), t, h3, h4) =
        >>=-eq-ok (upsert_outcomes row (prices_of decimal parsed)) _ drawn h2 in
      let kept = upsert_outcomes-bare row (prices_of decimal parsed) drawn row' ds t h3 in
      let (e, e') =
        returned {s = record t { markets = put_mirrored parsed.id row' t.markets }} h4 in
      (
        row',
        ap (λ (v : Db). mirrored? parsed.id v.markets) e'
            ∙ mirrored?-put parsed.id row' t.markets (ap (is_mirror_of parsed.id) kept ∙ mirrors),
        ap (λ (x : Synced). x.market_id) (sym e),
        ap (λ (m : Market). m.status) kept ∙ status,
      )

  released :
      (s : Db) (p : Result Synced × Db) (r : Synced) (u : Db)
      → release_savepoint s p ≡ (ok (some r), u)
      → p ≡ (ok r, u)
  released s (ok x, t) r u h =
      let (e, e') = returned h in let same : r ≡ x = cc e in λ i. (ok (sym same i), sym e' i)
  released s (err e, t) r u h = absurd (go (is_integrity_error e) h)
    where
      go :
          (b : Bool)
          → ◌≡◌ {A = Result (Option Synced) × Db}
              (if b then (ok none, s) else (err e, t))
              (ok (some r), u)
          → ⊥
      go true k = cc (ok-injective _ _ (ap (λ (q : Result (Option Synced) × Db). q.0) k))
      go false k = cc (ap (λ (q : Result (Option Synced) × Db). q.0) k)

-- A synchronisation that writes a market which Gamma reports as resolved stores the status RESOLVED
-- in its row, and that row is a candidate of the task that settles mirrored markets at no time.
pub synced_resolved_never_detected :
    (slugify : String → String) (decimal : String → Price) (now : ℕ) (parsed : GammaMarket)
    (group_id : Option ℕ) (category : Option String) (s : Db) (r : Synced) (u : Db)
    → internal_status parsed ≡ resolved
    → upsert_one_market slugify decimal now parsed group_id category s ≡ (ok (some r), u)
    → (row : Market) × (mirrored? parsed.id u.markets ≡ some row)
      × (row.id ≡ r.market_id)
      × ((later : ℕ) → is_candidate later row ≡ false)
unfolding upsert_one_market
synced_resolved_never_detected slugify decimal now parsed group_id category s r u final h =
    let (row, found, same, status) =
      upsert_row-status slugify decimal now parsed group_id category s r u
        (released slugify decimal now parsed group_id category s _ r u h) in
    let stored : row.status ≡ resolved = status ∙ final in
    (row, found, same, λ later. rw stored (ground arith))
