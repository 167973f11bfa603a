-- ===== src/Money/Errors.antt =====
-- The exceptions that the services raise (backend/app/bets/exceptions.py,
-- backend/app/wallet/exceptions.py, and those of Python, SQLAlchemy and PostgreSQL), and results.
use xpredict.Prelude.{ℕ, ◌≡◌, refl, ◌⊎◌, inl, inr}

pub data Error : Type 0 where
  value_error : Error
  not_implemented : Error
  no_result_found : Error
  multiple_results : Error
  -- IntegrityError, by SQLSTATE: 23505, 23514, 23503
  unique_violation check_violation foreign_key_violation : Error
  -- 22003, a value past NUMERIC(18, 4)
  numeric_overflow : Error
  insufficient_balance : Error
  market_not_found market_closed invalid_outcome stake_out_of_range : Error
  bet_not_found bet_not_closable : Error
  verification_error ownership_error : Error
  -- HTTPException, by its status code
  http_exception : ℕ → Error
  -- a local variable that is read before it is set
  unbound_local_error : Error
  -- what `Decimal` raises of a text that is no number
  invalid_operation : Error
  assertion_error : Error

pub data Result {ℓ} (A : Type ℓ) : Type ℓ where
  ok : A → Result A
  err : Error → Result A

pub Result-cases {ℓ} :
    {A : Type ℓ} (r : Result A) → ((a : A) × (r ≡ ok a)) ⊎ ((e : Error) × (r ≡ err e))
Result-cases (ok a) = inl (a, refl)
Result-cases (err e) = inr (e, refl)

-- A computation that goes on unless an exception was raised.
abbrev pub and_then {ℓ κ} : {A : Type ℓ} {B : Type κ} → Result A → (A → Result B) → Result B
and_then (ok a) f = f a
and_then (err e) f = err e
