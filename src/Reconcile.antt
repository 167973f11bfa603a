-- ===== src/Reconcile.antt =====
-- backend/app/wallet/reconcile.py: the nightly comparison of each account's cached balance with the
-- signed sum of its entries. The seeded `house_promo` account is left out.
pub mod Clean
use xpredict.Prelude.{
  ℕ, suc, ◌+◌, Bool, true, false, not, List, [], ◌∷◌, ◌==◌, if◌then◌else◌, where_rows, length,
}
use xpredict.Prelude.Int.{ℤ, pos, ◌+ℤ◌, ◌-ℤ◌}
use xpredict.Database.Rows.{Db, Account, Entry, Direction, debit, credit, house_promo_id}

-- `case((Entry.direction == credit, Entry.amount), else_=-Entry.amount)`
abbrev pub signed_amount : Direction → ℕ → ℤ
signed_amount credit n = pos n
signed_amount debit n = pos 0 -ℤ pos n

-- `coalesce(sum(…), 0)` over the entries of account `x`
unfoldable pub ledger_sum : ℕ → List Entry → ℤ
unfolding ◌+ℤ◌ ◌-ℤ◌
ledger_sum x [] = pos 0
ledger_sum x (e ∷ es) =
    let rest = ledger_sum x es in
    if e.account_id == x then signed_amount e.direction e.amount +ℤ rest else rest

unfoldable pub drift : List Entry → Account → ℤ
unfolding ◌-ℤ◌ ledger_sum
drift es a = pos a.balance -ℤ ledger_sum a.id es

abbrev is_nonzero : ℤ → Bool
is_nonzero (pos n) = not (n == 0)
is_nonzero (ℤ.negsuc n) = true

-- `_RECONCILE_EXCLUDED_ACCOUNT_IDS`
abbrev pub is_checked : Account → Bool
is_checked a = not (a.id == house_promo_id)

pub record ReconcileReport : Type 0 where
  pub accounts_checked : ℕ
  pub drift_count : ℕ

-- `_reconcile_with_session`; the log lines and the Sentry messages are left out.
unfoldable pub reconcile_with_session : Db → ReconcileReport
unfolding drift
reconcile_with_session s =
    let rows = where_rows is_checked s.accounts in
    let drifts = where_rows (λ a. is_nonzero (drift s.entries a)) rows in
    record { accounts_checked = length rows; drift_count = length drifts }
