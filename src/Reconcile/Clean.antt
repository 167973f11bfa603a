-- ===== src/Reconcile/Clean.antt =====
-- What `_reconcile_with_session` of backend/app/wallet/reconcile.py finds.
use xpredict.Prelude.{
  ℕ, ◌+◌, ◌≡◌, ◌≢◌, refl, ◌↔◌, false, List, [], ◌∷◌, ◌==◌, where_rows, length, All, Bool-cases,
  arith,
}
use xpredict.Prelude.Int.{ℤ, pos, negsuc, pos_part, neg_part, ◌-ℤ◌, +ℤ_parts, -ℤ_parts}
use xpredict.Database.Rows.{Db, Account, Entry, Direction, debit, credit, house_promo_id}
use xpredict.Database.Tables.{debits, credits, debit_amount, credit_amount}
use xpredict.Reconcile.{
  signed_amount, ledger_sum, drift, is_nonzero, is_checked, reconcile_with_session,
}

signed_amount-parts :
    (d : Direction) (n : ℕ)
    → pos_part (signed_amount d n) + debit_amount d n
      ≡ neg_part (signed_amount d n) + credit_amount d n
signed_amount-parts debit n = omega (arith, -ℤ_parts (pos 0) (pos n))
signed_amount-parts credit n = omega arith

-- The signed sum is the credits less the debits.
ledger_sum-parts :
    (x : ℕ) (es : List Entry)
    → pos_part (ledger_sum x es) + debits x es ≡ neg_part (ledger_sum x es) + credits x es
unfolding ledger_sum debits credits
ledger_sum-parts x [] = refl
ledger_sum-parts x (e ∷ es) = ground (
  arith,
  ledger_sum-parts x es,
  signed_amount-parts e.direction e.amount,
  +ℤ_parts (signed_amount e.direction e.amount) (ledger_sum x es),
)

abbrev pub IsBacked : List Entry → ℕ → ℕ → Type 0
IsBacked es x b = b + debits x es ≡ credits x es

nonzero_lem :
    (z : ℤ) (p n b d c : ℕ)
    → p + d ≡ n + c
    → pos_part z + 0 + p ≡ neg_part z + b + n
    → (is_nonzero z ≡ false) ↔ (b + d ≡ c)
nonzero_lem (pos k) p n b d c h q = (λ e. ground arith, λ e. ground arith)
nonzero_lem (negsuc k) p n b d c h q = (λ e. ground arith, λ e. ground arith)

-- An account has no drift exactly when its balance and debits make up its credits.
drift-IsBacked :
    (es : List Entry) (a : Account) → (is_nonzero (drift es a) ≡ false) ↔ IsBacked es a.id a.balance
unfolding drift
drift-IsBacked es a =
    nonzero_lem (pos a.balance -ℤ ledger_sum a.id es) (pos_part (ledger_sum a.id es))
      (neg_part (ledger_sum a.id es)) a.balance (debits a.id es) (credits a.id es)
      (ledger_sum-parts a.id es) (-ℤ_parts (pos a.balance) (ledger_sum a.id es))

abbrev pub IsClean : List Entry → List Account → Type 0
IsClean es rows = All (λ (a : Account). a.id ≢ house_promo_id → IsBacked es a.id a.balance) rows

abbrev drift_rows : List Entry → List Account → List Account
drift_rows es rows = where_rows (λ a. is_nonzero (drift es a)) (where_rows is_checked rows)

no_drift :
    (es : List Entry) (rows : List Account) → (length (drift_rows es rows) ≡ 0) ↔ IsClean es rows
no_drift es [] = (λ h. tt, λ h. refl)
no_drift es (a ∷ rows) =
    let (f, g) = no_drift es rows in
    let (d, e) = drift-IsBacked es a in
    (
      λ h. (λ ne. d (ground arith), f (ground arith)),
      λ (h, hs). ground (arith, e, g hs, Bool-cases (a.id == house_promo_id)),
    )

-- The reconciliation reports no drift exactly when, for each account but the house's seed, the
-- balance is the credits less the debits of its entries.
pub reconcile_exact :
    (s : Db) → ((reconcile_with_session s).drift_count ≡ 0) ↔ IsClean s.entries s.accounts
unfolding reconcile_with_session
reconcile_exact s = no_drift s.entries s.accounts
