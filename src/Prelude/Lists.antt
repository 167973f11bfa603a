-- ===== src/Prelude/Lists.antt =====
-- Lists: counting, filtering by a Boolean test, predicates over all items, prefixes.
use Prim.Native.Nat.{ℕ, suc, ◌+◌}
use mathlib.Core.Path.{◌≡◌, refl, sym}
use mathlib.Core.Bool.{Bool, true, false}
use mathlib.Core.List.{List, [], ◌∷◌, ◌++◌, append-nil, append_assoc}
use native.Mathlib.Omega.{arith}
use mathlib.Core.Logic.{inl, inr}
use xpredict.Prelude.Tests.{if◌then◌else◌, Bool-cases}

module _ {ℓ} {A : Type ℓ} where
  abbrev pub length : List A → ℕ
  length [] = 0
  length (x ∷ xs) = suc (length xs)

  pub length-append : (xs ys : List A) → length (xs ++ ys) ≡ length xs + length ys
  length-append [] ys = omega arith
  length-append (x ∷ xs) ys = omega (arith, length-append xs ys)

  -- The rows that a query's WHERE clause keeps, in the table's order.
  abbrev pub where_rows : (A → Bool) → List A → List A
  where_rows p [] = []
  where_rows p (x ∷ xs) = let rest = where_rows p xs in if p x then x ∷ rest else rest

  -- Some row was found.
  abbrev pub any : List A → Bool
  any [] = false
  any (x ∷ xs) = true

  abbrev pub All {κ} : (A → Type κ) → List A → Type κ
  All P [] = Unit
  All P (x ∷ xs) = P x × All P xs

  -- `ys` is `xs` with more rows behind: what an append-only table may become.
  abbrev pub Extends : List A → List A → Type ℓ
  Extends xs ys = (more : List A) × (ys ≡ xs ++ more)

  pub Extends-refl : (xs : List A) → Extends xs xs
  Extends-refl xs = ([], sym (append-nil xs))

  pub Extends-trans : (xs ys zs : List A) → Extends xs ys → Extends ys zs → Extends xs zs
  Extends-trans xs ys zs (a, p) (b, q) = (a ++ b, rw (q, p) (append_assoc xs a b))

module _ {ℓ κ} {A : Type ℓ} where
  pub All-map : {P Q : A → Type κ} (xs : List A) → ((x : A) → P x → Q x) → All P xs → All Q xs
  All-map [] f h = tt
  All-map (x ∷ xs) f (p, h) = (f x p, All-map xs f h)

  pub All-where :
      {P Q : A → Type κ} (p : A → Bool) (xs : List A)
      → ((x : A) → p x ≡ true → P x → Q x)
      → All P xs
      → All Q (where_rows p xs)
  All-where p [] f h = tt
  All-where p (x ∷ xs) f (k, h) = elim (Bool-cases (p x)) [
    | inl e ↦ rw e (f x e k, All-where p xs f h)
    | inr ne ↦ rw ne (All-where p xs f h)
  ]

  pub All-append : (P : A → Type κ) (xs ys : List A) → All P xs → All P ys → All P (xs ++ ys)
  All-append P [] ys h k = k
  All-append P (x ∷ xs) ys (p, h) k = (p, All-append P xs ys h k)

-- Some row passes.
module _ {ℓ} {A : Type ℓ} (p : A → Bool) where
  pub any-head : (x : A) (xs : List A) → p x ≡ true → any (where_rows p (x ∷ xs)) ≡ true
  any-head x xs h = rw h refl

  pub any-tail :
      (x : A) (xs : List A) → any (where_rows p xs) ≡ true → any (where_rows p (x ∷ xs)) ≡ true
  any-tail x xs h = elim (Bool-cases (p x)) [ inl e ↦ rw e refl | inr ne ↦ rw ne h ]

  pub any-last : (xs : List A) (x : A) → p x ≡ true → any (where_rows p (xs ++ x ∷ [])) ≡ true
  any-last [] x h = any-head x [] h
  any-last (y ∷ xs) x h = any-tail y (xs ++ x ∷ []) (any-last xs x h)
