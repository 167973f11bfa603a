-- ===== src/Session/Rules.antt =====
-- What an action may do to the database, as a preorder on states with one rule for each way to
-- build an action. An action `Does r` when each of its normal returns is a step of `r`; one that
-- `AlwaysDoes r` takes such a step when it raises too.
use xpredict.Prelude.{
  ℕ, ⊤, Bool, true, false, Option, none, some, List, [], ◌∷◌, ◌++◌, ◌+◌, ◌≤◌, arith, if◌then◌else◌,
  leb,
}
use xpredict.Prelude.Int.{ℤ, pos, negsuc}
use xpredict.Money.Errors.{Error, Result, ok, err, value_error, unique_violation}
use xpredict.Database.Rows.{Db, RowLock, account_row}
use xpredict.Session.{
  Action, pure, raise, gets, lift, scalar_one, or_raise, commit_or_rollback, begin, handle_unique,
  on_unique_violation, continue, ◌>>=◌, raise_if, positive, uuid4, lock_row, lock_accounts,
}

pub record Preorder : Type 1 where
  pub rel : Db → Db → Type 0
  pub reflexive : (s : Db) → rel s s
  pub transitive : (s t u : Db) → rel s t → rel t u → rel s u
  -- Row locks and drawn UUIDs do not count.
  pub quiet :
      (s : Db) (n : ℕ) (l : List RowLock)
      → s.next_id ≤ n
      → rel s (record s { next_id = n; locks = l })

abbrev pub OnOk : {A : Type 0} → (Db → Db → Type 0) → Db → Result A × Db → Type 0
OnOk R s (ok a, s') = R s s'
OnOk R s (err e, s') = ⊤

pub record Does {A : Type 0} (r : Preorder) (m : Action A) : Type 0 where
  pub at : (s : Db) → OnOk r.rel s (m s)

pub record AlwaysDoes {A : Type 0} (r : Preorder) (m : Action A) : Type 0 where
  pub at : (s : Db) → r.rel s (m s).1

module _ {r : Preorder} {A : Type 0} where
  pub Does-pure : (a : A) → Does r (pure a)
  unfolding pure
  Does-pure a = record { at = r.reflexive }

  pub Does-raise : (e : Error) → Does r (raise {A = A} e)
  unfolding raise
  Does-raise e = record { at = λ s. tt }

  pub Does-gets : (f : Db → A) → Does r (gets f)
  unfolding gets
  Does-gets f = record { at = r.reflexive }

  pub Does-lift : (x : Result A) → Does r (lift x)
  unfolding lift
  Does-lift (ok a) = record { at = r.reflexive }
  Does-lift (err e) = record { at = λ s. tt }

  pub Does-scalar_one : (l : List A) → Does r (scalar_one l)
  unfolding scalar_one
  Does-scalar_one [] = record { at = λ s. tt }
  Does-scalar_one (x ∷ []) = record { at = r.reflexive }
  Does-scalar_one (x ∷ y ∷ l) = record { at = λ s. tt }

  pub Does-or_raise : (o : Option A) (e : Error) → Does r (or_raise o e)
  Does-or_raise none e = Does-raise e
  Does-or_raise (some a) e = Does-pure a

  pub Does-if : (b : Bool) (m n : Action A) → Does r m → Does r n → Does r (if b then m else n)
  Does-if true m n dm dn = dm
  Does-if false m n dm dn = dn

module _ {r : Preorder} {A B : Type 0} where
  Does-continue :
      (x : Result A) (f : A → Action B) (s t : Db)
      → OnOk r.rel s (x, t)
      → ((a : A) → Does r (f a))
      → OnOk r.rel s (continue x f t)
  Does-continue (ok a) f s t h k = after (f a t) ((k a).at t)
    where
      after : (p : Result B × Db) → OnOk r.rel t p → OnOk r.rel s p
      after (ok b, u) g = r.transitive s t u h g
      after (err e, u) g = tt
  Does-continue (err e) f s t h k = tt

  pub Does-bind :
      (m : Action A) (f : A → Action B) → Does r m → ((a : A) → Does r (f a)) → Does r (m >>= f)
  unfolding ◌>>=◌
  Does-bind m f dm df = record { at = λ s. let (x, t) = m s in Does-continue x f s t (dm.at s) df }

module _ {r : Preorder} where
  pub Does-raise_if : (b : Bool) (e : Error) → Does r (raise_if b e)
  unfolding raise_if
  Does-raise_if true e = record { at = λ s. tt }
  Does-raise_if false e = record { at = r.reflexive }

  pub Does-positive : (x : ℤ) → Does r (positive x)
  unfolding positive
  Does-positive (pos n) =
      Does-if (leb n 0) (raise value_error) (pure n) (Does-raise value_error) (Does-pure n)
  Does-positive (negsuc n) = Does-raise value_error

  pub Does-uuid4 : Does r uuid4
  unfolding uuid4
  Does-uuid4 = record { at = λ s. r.quiet s (s.next_id + 1) s.locks (omega arith) }

  pub Does-lock_row : (row : RowLock) → Does r (lock_row row)
  unfolding lock_row
  Does-lock_row row = record { at = λ s. r.quiet s s.next_id (s.locks ++ row ∷ []) (omega arith) }

  pub Does-lock_accounts : (xs : List ℕ) → Does r (lock_accounts xs)
  unfolding lock_accounts
  Does-lock_accounts [] = Does-pure tt
  Does-lock_accounts (x ∷ xs) =
      Does-bind (lock_row (account_row x)) (λ _. lock_accounts xs) (Does-lock_row (account_row x))
        (λ _. Does-lock_accounts xs)

pub ruleset does_rules = (
  Does-pure, Does-raise, Does-gets, Does-lift, Does-scalar_one, Does-or_raise, Does-if, Does-bind,
  Does-raise_if, Does-positive, Does-uuid4, Does-lock_row, Does-lock_accounts,
)

module _ {r : Preorder} {A : Type 0} where
  -- A unit of work that raises is undone.
  pub Always-begin : (m : Action A) → Does r m → AlwaysDoes r (begin m)
  unfolding begin
  Always-begin m d = record {
    at = λ s. go s (m (record s { locks = [] })) (d.at (record s { locks = [] }));
  }
    where
      go :
          (s : Db) (p : Result A × Db)
          → OnOk r.rel (record s { locks = [] }) p
          → r.rel s (commit_or_rollback s p).1
      go s (ok a, t) h =
          r.transitive s (record s { locks = [] }) t (r.quiet s s.next_id [] (omega arith)) h
      go s (err e, t) h = r.reflexive s

  pub Always-pure : (a : A) → AlwaysDoes r (pure a)
  unfolding pure
  Always-pure a = record { at = r.reflexive }

  pub Always-raise : (e : Error) → AlwaysDoes r (raise {A = A} e)
  unfolding raise
  Always-raise e = record { at = r.reflexive }

  pub Always-gets : (f : Db → A) → AlwaysDoes r (gets f)
  unfolding gets
  Always-gets f = record { at = r.reflexive }

  pub Always-lift : (x : Result A) → AlwaysDoes r (lift x)
  unfolding lift
  Always-lift x = record { at = r.reflexive }

  pub Always-or_raise : (o : Option A) (e : Error) → AlwaysDoes r (or_raise o e)
  Always-or_raise none e = Always-raise e
  Always-or_raise (some a) e = Always-pure a

  pub Always-scalar_one : (l : List A) → AlwaysDoes r (scalar_one l)
  unfolding scalar_one
  Always-scalar_one [] = record { at = r.reflexive }
  Always-scalar_one (x ∷ []) = record { at = r.reflexive }
  Always-scalar_one (x ∷ y ∷ l) = record { at = r.reflexive }

  pub Always-if :
      (b : Bool) (m n : Action A)
      → AlwaysDoes r m
      → AlwaysDoes r n
      → AlwaysDoes r (if b then m else n)
  Always-if true m n dm dn = dm
  Always-if false m n dm dn = dn

  Always-handle :
      (handler : Action A) (s : Db) (p : Result A × Db)
      → AlwaysDoes r handler
      → r.rel s p.1
      → r.rel s (handle_unique handler p).1
  Always-handle handler s (ok a, t) d h = h
  Always-handle handler s (err unique_violation, t) d h = r.transitive s t (handler t).1 h (d.at t)
  Always-handle handler s (err e, t) d h = h

  pub Always-on_unique_violation :
      (m handler : Action A)
      → AlwaysDoes r m
      → AlwaysDoes r handler
      → AlwaysDoes r (on_unique_violation m handler)
  unfolding on_unique_violation
  Always-on_unique_violation m handler dm dh = record {
    at = λ s. Always-handle handler s (m s) dh (dm.at s);
  }

module _ {r : Preorder} {A B : Type 0} where
  Always-continue :
      (x : Result A) (f : A → Action B) (s t : Db)
      → r.rel s t
      → ((a : A) → AlwaysDoes r (f a))
      → r.rel s (continue x f t).1
  Always-continue (ok a) f s t h k = r.transitive s t (f a t).1 h ((k a).at t)
  Always-continue (err e) f s t h k = h

  pub Always-bind :
      (m : Action A) (f : A → Action B)
      → AlwaysDoes r m
      → ((a : A) → AlwaysDoes r (f a))
      → AlwaysDoes r (m >>= f)
  unfolding ◌>>=◌
  Always-bind m f dm df = record {
    at = λ s. let (x, t) = m s in Always-continue x f s t (dm.at s) df;
  }

module _ {r : Preorder} where
  pub Always-raise_if : (b : Bool) (e : Error) → AlwaysDoes r (raise_if b e)
  unfolding raise_if
  Always-raise_if true e = record { at = r.reflexive }
  Always-raise_if false e = record { at = r.reflexive }

  pub Always-positive : (x : ℤ) → AlwaysDoes r (positive x)
  unfolding positive
  Always-positive (pos n) =
      Always-if (leb n 0) (raise value_error) (pure n) (Always-raise value_error) (Always-pure n)
  Always-positive (negsuc n) = Always-raise value_error

pub ruleset always_rules = (
  Always-begin, Always-pure, Always-raise, Always-gets, Always-lift, Always-or_raise,
  Always-scalar_one, Always-if, Always-on_unique_violation, Always-bind, Always-raise_if,
  Always-positive,
)
