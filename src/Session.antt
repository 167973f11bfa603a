-- ===== src/Session.antt =====
-- An `AsyncSession` method: state and exceptions. What was written before a raise stays written
-- until the unit of work around it rolls back.
pub mod Rules
pub mod Inversion
pub mod Untouched
use xpredict.Prelude.{
  ℕ, ◌+◌, ⊤, ◌≡◌, Bool, true, false, Option, none, some, List, [], ◌∷◌, ◌++◌, ltb, leb, ◌==◌,
  if◌then◌else◌,
}
use xpredict.Prelude.Int.{ℤ, pos, negsuc}
use xpredict.Money.Errors.{
  Error, Result, ok, err, value_error, no_result_found, multiple_results, unique_violation,
}
use xpredict.Database.Rows.{Db, RowLock, bet_row, account_row}

abbrev pub Action : Type 0 → Type 0
Action A = Db → Result A × Db

module _ {A : Type 0} where
  unfoldable pub pure : A → Action A
  pure a s = (ok a, s)

  unfoldable pub raise : Error → Action A
  raise e s = (err e, s)

  unfoldable pub gets : (Db → A) → Action A
  gets f s = (ok (f s), s)

  -- A computed value, or the exception that computing it raised.
  unfoldable pub lift : Result A → Action A
  lift r s = (r, s)

  -- `.scalar_one()`
  unfoldable pub scalar_one : List A → Action A
  unfolding pure raise
  scalar_one [] = raise no_result_found
  scalar_one (x ∷ []) = pure x
  scalar_one (x ∷ y ∷ r) = raise multiple_results

  abbrev pub or_raise : Option A → Error → Action A
  or_raise none e = raise e
  or_raise (some a) e = pure a

  abbrev pub commit_or_rollback : Db → Result A × Db → Result A × Db
  commit_or_rollback before (ok a, s) = (ok a, s)
  commit_or_rollback before (err e, s) = (err e, before)

  -- `async with session.begin()`: commits on a normal exit, and rolls back on an exception.
  unfoldable pub begin : Action A → Action A
  begin m s = commit_or_rollback s (m (record s { locks = [] }))

  abbrev pub handle_unique : Action A → Result A × Db → Result A × Db
  handle_unique handler (ok a, s) = (ok a, s)
  handle_unique handler (err unique_violation, s) = handler s
  handle_unique handler (err e, s) = (err e, s)

  -- `try: … except IntegrityError` that handles SQLSTATE 23505 and raises anything else again.
  unfoldable pub on_unique_violation : Action A → Action A → Action A
  on_unique_violation m handler s = handle_unique handler (m s)

module _ {A B : Type 0} where
  abbrev pub continue : Result A → (A → Action B) → Action B
  continue (ok a) f s = f a s
  continue (err e) f s = (err e, s)

  infixl 5 ◌>>=◌ ◌>>◌
  unfoldable pub ◌>>=◌ : Action A → (A → Action B) → Action B
  unfolding pure raise gets lift
  ◌>>=◌ m f s = let (r, s') = m s in continue r f s'

  abbrev pub ◌>>◌ : Action A → Action B → Action B
  m >> k = m >>= λ _. k

unfoldable pub modify : (Db → Db) → Action ⊤
modify f s = (ok tt, f s)

-- `if …: raise …`
unfoldable pub raise_if : Bool → Error → Action ⊤
raise_if b e s = (if b then err e else ok tt, s)

-- `if amount <= 0: raise ValueError`, and the amount as a number of ticks.
unfoldable pub positive : ℤ → Action ℕ
unfolding pure raise
positive (pos n) = if leb n 0 then raise value_error else pure n
positive (negsuc n) = raise value_error

-- `uuid4()`
unfoldable pub uuid4 : Action ℕ
uuid4 s = (ok s.next_id, record s { next_id = s.next_id + 1 })

unfoldable pub lock_row : RowLock → Action ⊤
lock_row r s = (ok tt, record s { locks = s.locks ++ r ∷ [] })

-- SELECT … FOR UPDATE of each account in turn.
unfoldable pub lock_accounts : List ℕ → Action ⊤
unfolding pure lock_row ◌>>=◌
lock_accounts [] = pure tt
lock_accounts (x ∷ xs) = do lock_row (account_row x); lock_accounts xs

-- `sorted({…}, key=str)`
abbrev pub insert_id : ℕ → List ℕ → List ℕ
insert_id x [] = x ∷ []
insert_id x (y ∷ ys) =
    let rest = insert_id x ys in if ltb x y then x ∷ y ∷ ys else if x == y then y ∷ ys else y ∷ rest

-- `sorted((a, b), key=str)`
abbrev pub sorted_pair : ℕ → ℕ → List ℕ
sorted_pair a b = if leb a b then a ∷ b ∷ [] else b ∷ a ∷ []

unfoldable pub sorted_ids : List ℕ → List ℕ
sorted_ids [] = []
sorted_ids (x ∷ xs) = insert_id x (sorted_ids xs)
