-- ===== src/Session/Inversion.antt =====
-- A method that returned normally: each of its steps did.
use xpredict.Prelude.{
  ℕ, ⊤, ◌≡◌, refl, ap, sym, Bool, true, false, Option, none, some, List, [], ◌∷◌, arith, ◌<◌, ◌⊎◌,
  inl, inr,
}
use xpredict.Prelude.Int.{ℤ, pos, negsuc}
use xpredict.Money.Errors.{Error, Result, ok, err, unique_violation}
use mathlib.Core.Path.{subst}
use xpredict.Database.Rows.{Db}
use xpredict.Session.Rules.{Preorder, Does, AlwaysDoes, OnOk}
use xpredict.Session.{
  Action, pure, raise, gets, lift, scalar_one, or_raise, begin, commit_or_rollback, continue, ◌>>=◌,
  raise_if, positive, handle_unique, on_unique_violation,
}

module _ {A B : Type 0} where
  continue-eq-ok :
      (r : Result A) (f : A → Action B) (t : Db) {b : B} {u : Db}
      → continue r f t ≡ (ok b, u)
      → (a : A) × (r ≡ ok a) × (f a t ≡ (ok b, u))
  continue-eq-ok (ok a) f t h = (a, refl, h)
  continue-eq-ok (err e) f t h = absurd (cc (ap (λ (p : Result B × Db). p.0) h))

  pub >>=-eq-ok :
      (m : Action A) (f : A → Action B) (s : Db) {b : B} {u : Db}
      → (m >>= f) s ≡ (ok b, u)
      → (a : A) × (t : Db) × (m s ≡ (ok a, t)) × (f a t ≡ (ok b, u))
  unfolding ◌>>=◌
  >>=-eq-ok m f s h =
      let (r, t) = m s in let (a, e, k) = continue-eq-ok r f t h in (a, t, λ i. (e i, t), k)

module _ {A : Type 0} where
  pub ok-injective : (a b : A) → ok a ≡ ok b → a ≡ b
  ok-injective a b h = cc h

  pub returned :
      {a b : A} {s u : Db} → ◌≡◌ {A = Result A × Db} (ok a, s) (ok b, u) → (b ≡ a) × (u ≡ s)
  returned {a} {b} h = (
    sym (ok-injective a b (ap (λ (p : Result A × Db). p.0) h)),
    sym (ap (λ (p : Result A × Db). p.1) h),
  )

  pub begin-eq-ok :
      (m : Action A) (s : Db) {a : A} {u : Db}
      → begin m s ≡ (ok a, u)
      → m (record s { locks = [] }) ≡ (ok a, u)
  unfolding begin
  begin-eq-ok m s h = go s (m (record s { locks = [] })) h
    where
      go :
          (s : Db) (p : Result A × Db) {a : A} {u : Db}
          → commit_or_rollback s p ≡ (ok a, u)
          → p ≡ (ok a, u)
      go s (ok b, t) h = h
      go s (err e, t) h = absurd (cc (ap (λ (p : Result A × Db). p.0) h))

  -- A unit of work that raises leaves the database as it was.
  pub begin-eq-err : (m : Action A) (s : Db) {e : Error} {u : Db} → begin m s ≡ (err e, u) → u ≡ s
  unfolding begin
  begin-eq-err m s h = go s (m (record s { locks = [] })) h
    where
      go :
          (s : Db) (p : Result A × Db) {e : Error} {u : Db}
          → commit_or_rollback s p ≡ (err e, u)
          → u ≡ s
      go s (ok b, t) h = absurd (cc (ap (λ (p : Result A × Db). p.0) h))
      go s (err e, t) h = cc (ap (λ (p : Result A × Db). p.1) h)

-- What a `Does` says of a call that returned.
pub ok-rel :
    {r : Preorder} {A : Type 0} {m : Action A} {s : Db} {a : A} {u : Db}
    → Does r m
    → m s ≡ (ok a, u)
    → r.rel s u
ok-rel {r} {s = s} d h = subst (OnOk r.rel s) h (d.at s)

pub raise_if-eq-ok :
    {s : Db} (c : Bool) (e : Error) {a : ⊤} {v : Db}
    → raise_if c e s ≡ (ok a, v)
    → (c ≡ false) × (v ≡ s)
unfolding raise_if pure raise
raise_if-eq-ok false e h = (refl, (returned h).1)
raise_if-eq-ok true e h = absurd (cc (ap (λ (p : Result ⊤ × Db). p.0) h))

module _ {B : Type 0} {s : Db} {b : B} {u : Db} where
  pub gets-then :
      {A : Type 0} (f : Db → A) (k : A → Action B)
      → (gets f >>= k) s ≡ (ok b, u)
      → k (f s) s ≡ (ok b, u)
  unfolding gets ◌>>=◌
  gets-then f k h = h

  pub raise_if-then :
      (c : Bool) (e : Error) (k : ⊤ → Action B)
      → (raise_if c e >>= k) s ≡ (ok b, u)
      → (c ≡ false) × (k tt s ≡ (ok b, u))
  unfolding raise_if ◌>>=◌
  raise_if-then c e k h = ground arith

  pub lift-then :
      {A : Type 0} (x : Result A) (k : A → Action B)
      → (lift x >>= k) s ≡ (ok b, u)
      → (a : A) × (x ≡ ok a) × (k a s ≡ (ok b, u))
  unfolding lift ◌>>=◌
  lift-then x k h = continue-eq-ok x k s h

  pub or_raise-then :
      {A : Type 0} (o : Option A) (e : Error) (k : A → Action B)
      → (or_raise o e >>= k) s ≡ (ok b, u)
      → (a : A) × (o ≡ some a) × (k a s ≡ (ok b, u))
  unfolding pure raise ◌>>=◌
  or_raise-then none e k h = absurd (cc (ap (λ (p : Result B × Db). p.0) h))
  or_raise-then (some a) e k h = (a, refl, h)

  pub scalar_one-then :
      {A : Type 0} (l : List A) (k : A → Action B)
      → (scalar_one l >>= k) s ≡ (ok b, u)
      → (a : A) × (l ≡ a ∷ []) × (k a s ≡ (ok b, u))
  unfolding scalar_one pure raise ◌>>=◌
  scalar_one-then [] k h = absurd (cc (ap (λ (p : Result B × Db). p.0) h))
  scalar_one-then (x ∷ []) k h = (x, refl, h)
  scalar_one-then (x ∷ y ∷ l) k h = absurd (cc (ap (λ (p : Result B × Db). p.0) h))

  pub positive-then :
      (z : ℤ) (k : ℕ → Action B)
      → (positive z >>= k) s ≡ (ok b, u)
      → (n : ℕ) × (z ≡ pos n) × (0 < n) × (k n s ≡ (ok b, u))
  unfolding positive pure raise ◌>>=◌
  positive-then (pos n) k h = (n, refl, ground arith, ground arith)
  positive-then (negsuc n) k h = absurd (cc (ap (λ (p : Result B × Db). p.0) h))

  -- A step that is known by what it does.
  pub Does-then :
      {r : Preorder} {A : Type 0} (m : Action A) (k : A → Action B)
      → Does r m
      → (m >>= k) s ≡ (ok b, u)
      → (a : A) × (t : Db) × r.rel s t × (m s ≡ (ok a, t)) × (k a t ≡ (ok b, u))
  Does-then m k d h = let (a, t, h1, h2) = >>=-eq-ok m k s h in (a, t, ok-rel d h1, h1, h2)

module _ {A : Type 0} where
  on_unique_violation-eq-ok :
      (handler : Action A) (r : Result A × Db) {a : A} {u : Db}
      → handle_unique handler r ≡ (ok a, u)
      → (r ≡ (ok a, u)) ⊎ ((t : Db) × (r ≡ (err unique_violation, t)) × (handler t ≡ (ok a, u)))
  on_unique_violation-eq-ok handler (ok b, t) h = inl h
  on_unique_violation-eq-ok handler (err unique_violation, t) h = inr (t, refl, h)
  on_unique_violation-eq-ok handler (err e, t) h = absurd (cc (ap (λ (p : Result A × Db). p.0) h))

  -- A call that returned did so by itself, or by the handler after a unique violation.
  pub on_unique_violation-cases :
      (m handler : Action A) (s : Db) {a : A} {u : Db}
      → on_unique_violation m handler s ≡ (ok a, u)
      → (m s ≡ (ok a, u)) ⊎ ((t : Db) × (m s ≡ (err unique_violation, t)) × (handler t ≡ (ok a, u)))
  unfolding on_unique_violation
  on_unique_violation-cases m handler s h = on_unique_violation-eq-ok handler (m s) h

module _ {A B : Type 0} where
  pub >>=-runs :
      (m : Action A) (f : A → Action B) (s : Db) {a : A} {t : Db}
      → m s ≡ (ok a, t)
      → (m >>= f) s ≡ f a t
  unfolding ◌>>=◌
  >>=-runs m f s h = rw h refl

  pub >>=-raises :
      (m : Action A) (f : A → Action B) (s : Db) {e : Error} {t : Db}
      → m s ≡ (err e, t)
      → (m >>= f) s ≡ (err e, t)
  unfolding ◌>>=◌
  >>=-raises m f s h = rw h refl

  eq-err_lem :
      (f : A → Action B) (r : Result A × Db) {e : Error} {u : Db}
      → (let (x, t) = r in continue x f t) ≡ (err e, u)
      → (r ≡ (err e, u)) ⊎ ((a : A) × (t : Db) × (r ≡ (ok a, t)) × (f a t ≡ (err e, u)))
  eq-err_lem f (ok a, t) h = inr (a, t, refl, h)
  eq-err_lem f (err x, t) h = inl (same_error h)
    where
      same_error :
          {x e : Error} {t u : Db}
          → ◌≡◌ {A = Result B × Db} (err x, t) (err e, u)
          → ◌≡◌ {A = Result A × Db} (err x, t) (err e, u)
      same_error {x} {e} h =
          let same : x ≡ e = cc (ap (λ (p : Result B × Db). p.0) h) in λ i. (err (same i), (h i).1)

  -- A call that raised did so in its first part or in its second.
  pub >>=-eq-err :
      (m : Action A) (f : A → Action B) (s : Db) {e : Error} {u : Db}
      → (m >>= f) s ≡ (err e, u)
      → (m s ≡ (err e, u)) ⊎ ((a : A) × (t : Db) × (m s ≡ (ok a, t)) × (f a t ≡ (err e, u)))
  unfolding ◌>>=◌
  >>=-eq-err m f s h = eq-err_lem f (m s) h

-- What an `AlwaysDoes` says of a call, however it ended.
pub always-rel :
    {r : Preorder} {A : Type 0} {m : Action A} {s : Db} {x : Result A} {u : Db}
    → AlwaysDoes r m
    → m s ≡ (x, u)
    → r.rel s u
always-rel {r} {A} {s = s} d h = subst (λ (p : Result A × Db). r.rel s p.1) h (d.at s)
