-- ===== src/Database/Tables.antt =====
-- Queries and updates by primary key, the balance of an account, and sums over the entries.
use xpredict.Prelude.{
  ℕ, ◌+◌, ◌≤◌, ◌<◌, ⊤, ◌≡◌, refl, ◌≢◌, Option, none, some, List, [], ◌∷◌, ◌++◌, arith, ◌==◌,
  if◌then◌else◌, All,
}
use native.Mathlib.Decide.{ℕ_discrete}
use xpredict.Database.Rows.{Account, Entry, Direction, debit, credit}

-- SELECT … FROM accounts WHERE id = x
unfoldable pub account? : ℕ → List Account → Option Account
account? x [] = none
account? x (a ∷ rest) = if a.id == x then some a else account? x rest

-- UPDATE accounts SET balance = b, version = v WHERE id = x
unfoldable pub set_balance : ℕ → ℕ → ℕ → List Account → List Account
set_balance x b v [] = []
set_balance x b v (a ∷ rest) =
    if a.id == x then record a { balance = b; version = v } ∷ rest else a ∷ set_balance x b v rest

abbrev pub balance_or_zero : Option Account → ℕ
balance_or_zero none = 0
balance_or_zero (some a) = a.balance

-- Primary keys: each account's id was drawn before `n`, and no later row has it again.
abbrev pub Keyed : ℕ → List Account → Type 0
Keyed n [] = ⊤
Keyed n (a ∷ rest) = (a.id < n) × (account? a.id rest ≡ none) × Keyed n rest

-- What the accounts hold together.
unfoldable pub total : List Account → ℕ
total [] = 0
total (a ∷ rest) = a.balance + total rest

abbrev pub debit_amount : Direction → ℕ → ℕ
debit_amount debit n = n
debit_amount credit n = 0

abbrev pub credit_amount : Direction → ℕ → ℕ
credit_amount debit n = 0
credit_amount credit n = n

-- The sum of the debit entries of account `x`, and of its credit entries.
unfoldable pub debits : ℕ → List Entry → ℕ
debits x [] = 0
debits x (e ∷ es) =
    (if e.account_id == x then debit_amount e.direction e.amount else 0) + debits x es

unfoldable pub credits : ℕ → List Entry → ℕ
credits x [] = 0
credits x (e ∷ es) =
    (if e.account_id == x then credit_amount e.direction e.amount else 0) + credits x es

-- The same for the entries of one transfer.
unfoldable pub transfer_debits : ℕ → List Entry → ℕ
transfer_debits t [] = 0
transfer_debits t (e ∷ es) =
    (if e.transfer_id == t then debit_amount e.direction e.amount else 0) + transfer_debits t es

unfoldable pub transfer_credits : ℕ → List Entry → ℕ
transfer_credits t [] = 0
transfer_credits t (e ∷ es) =
    (if e.transfer_id == t then credit_amount e.direction e.amount else 0) + transfer_credits t es

module _ (x b v : ℕ) where
  pub account?-set_self :
      (rows : List Account) (a : Account)
      → account? x rows ≡ some a
      → account? x (set_balance x b v rows) ≡ some (record a { balance = b; version = v })
  unfolding account? set_balance
  account?-set_self [] a h = cc
  account?-set_self (r ∷ rows) a h = ground (arith, account?-set_self rows a)

  pub account?-set_ne :
      (y : ℕ) (rows : List Account) → y ≢ x → account? y (set_balance x b v rows) ≡ account? y rows
  unfolding account? set_balance
  account?-set_ne y [] h = refl
  account?-set_ne y (r ∷ rows) h = ground (arith, account?-set_ne y rows h)

  none-set :
      (y : ℕ) (rows : List Account)
      → account? y rows ≡ none
      → account? y (set_balance x b v rows) ≡ none
  unfolding account? set_balance
  none-set y [] h = refl
  none-set y (r ∷ rows) h = ground (arith, none-set y rows)

  pub Keyed-set : (n : ℕ) (rows : List Account) → Keyed n rows → Keyed n (set_balance x b v rows)
  unfolding set_balance
  Keyed-set n [] k = tt
  Keyed-set n (r ∷ rows) (k1, k2, k3) = elim (ℕ_discrete r.id x) [
    | yes e ↦ ground arith
    | no ne ↦ ground (arith, none-set r.id rows k2, Keyed-set n rows k3)
  ]

  pub total-set :
      (rows : List Account) (a : Account)
      → account? x rows ≡ some a
      → total (set_balance x b v rows) + a.balance ≡ total rows + b
  unfolding account? set_balance total
  total-set [] a h = cc
  total-set (r ∷ rows) a h = ground (arith, total-set rows a)

pub account?-append :
    (x : ℕ) (rows : List Account) (a : Account)
    → balance_or_zero (account? x (rows ++ a ∷ []))
      ≡ balance_or_zero (account? x rows)
        + (elim (account? x rows) [ none ↦ if a.id == x then a.balance else 0 | some _ ↦ 0 ])
unfolding account?
account?-append x [] a = ground arith
account?-append x (r ∷ rows) a = ground (arith, account?-append x rows a)

pub Keyed-mono : (n m : ℕ) (rows : List Account) → n ≤ m → Keyed n rows → Keyed m rows
Keyed-mono n m [] h k = tt
Keyed-mono n m (r ∷ rows) h (k1, k2, k3) = (omega arith, k2, Keyed-mono n m rows h k3)

none-append :
    (y : ℕ) (rows : List Account) (a : Account)
    → y ≢ a.id
    → account? y rows ≡ none
    → account? y (rows ++ a ∷ []) ≡ none
unfolding account?
none-append y [] a ne h = ground arith
none-append y (r ∷ rows) a ne h = ground (arith, none-append y rows a ne)

-- A new account under the id that was drawn last.
pub Keyed-append :
    (n m : ℕ) (rows : List Account) (a : Account)
    → Keyed n rows
    → n ≤ a.id
    → a.id < m
    → Keyed m (rows ++ a ∷ [])
unfolding account?
Keyed-append n m [] a k h h' = (h', refl, tt)
Keyed-append n m (r ∷ rows) a (k1, k2, k3) h h' =
    (omega arith, none-append r.id rows a (λ e. omega arith) k2, Keyed-append n m rows a k3 h h')

-- What holds of every balance that is found by its key holds of every row.
pub Keyed-All {ℓ} :
    (P : ℕ → ℕ → Type ℓ) (n : ℕ) (rows : List Account)
    → Keyed n rows
    → ((x : ℕ) (a : Account) → account? x rows ≡ some a → P x a.balance)
    → All (λ (a : Account). P a.id a.balance) rows
unfolding account?
Keyed-All P n [] k f = tt
Keyed-All P n (r ∷ rows) (k1, k2, k3) f =
    (f r.id r (ground arith), Keyed-All P n rows k3 (λ x a h. f x a (ground arith)))

pub total-append :
    (rows : List Account) (a : Account) → total (rows ++ a ∷ []) ≡ total rows + a.balance
unfolding total
total-append [] a = omega arith
total-append (r ∷ rows) a = omega (arith, total-append rows a)

module _ (x : ℕ) where
  pub debits-append : (es fs : List Entry) → debits x (es ++ fs) ≡ debits x es + debits x fs
  unfolding debits
  debits-append [] fs = omega arith
  debits-append (e ∷ es) fs = omega (arith, debits-append es fs)

  pub credits-append : (es fs : List Entry) → credits x (es ++ fs) ≡ credits x es + credits x fs
  unfolding credits
  credits-append [] fs = omega arith
  credits-append (e ∷ es) fs = omega (arith, credits-append es fs)

  pub transfer_debits-append :
      (es fs : List Entry)
      → transfer_debits x (es ++ fs) ≡ transfer_debits x es + transfer_debits x fs
  unfolding transfer_debits
  transfer_debits-append [] fs = omega arith
  transfer_debits-append (e ∷ es) fs = omega (arith, transfer_debits-append es fs)

  pub transfer_credits-append :
      (es fs : List Entry)
      → transfer_credits x (es ++ fs) ≡ transfer_credits x es + transfer_credits x fs
  unfolding transfer_credits
  transfer_credits-append [] fs = omega arith
  transfer_credits-append (e ∷ es) fs = omega (arith, transfer_credits-append es fs)
