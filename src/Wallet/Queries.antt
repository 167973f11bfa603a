-- ===== src/Wallet/Queries.antt =====
-- What the queries of backend/app/wallet/service.py return, and that they write nothing.
use xpredict.Prelude.{ℕ, ◌≡◌, refl, ap, some, List, [], ◌∷◌, ◌==◌, where_rows, arith}
use xpredict.Money.Errors.{Result, ok}
use xpredict.Database.Rows.{Db, Account}
use xpredict.Database.Tables.{account?}
use xpredict.Session.{Action, gets, scalar_one, ◌>>=◌, pure, raise}
use xpredict.Wallet.{is_wallet_of, resolve_user_wallet_id, read_balance}

where-account? :
    (x : ℕ) (rows : List Account) (a : Account) (rest : List Account)
    → where_rows (λ (r : Account). r.id == x) rows ≡ a ∷ rest
    → account? x rows ≡ some a
unfolding account?
where-account? x [] a rest h = absurd (cc h)
where-account? x (r ∷ rows) a rest h = ground (arith, where-account? x rows a rest)

-- The id of the user's wallet, for a user with just one.
abbrev pub HasWallet : ℕ → Db → ℕ → Type 0
HasWallet user s w =
    (a : Account) × (where_rows (is_wallet_of user) s.accounts ≡ a ∷ []) × (a.id ≡ w)

module _ {B : Type 0} {s : Db} {b : B} {u : Db} where
  -- The one row of a query, and the column that is read from it.
  pub only_row :
      (column : Account → ℕ) (l : List Account) (k : ℕ → Action B)
      → (scalar_one l >>= (λ a. pure (column a)) >>= k) s ≡ (ok b, u)
      → (a : Account) × (l ≡ a ∷ []) × (k (column a) s ≡ (ok b, u))
  unfolding scalar_one pure raise ◌>>=◌
  only_row column [] k h = absurd (cc (ap (λ (p : Result B × Db). p.0) h))
  only_row column (x ∷ []) k h = (x, refl, h)
  only_row column (x ∷ y ∷ l) k h = absurd (cc (ap (λ (p : Result B × Db). p.0) h))

  pub read_balance-then :
      (x : ℕ) (k : ℕ → Action B)
      → (read_balance x >>= k) s ≡ (ok b, u)
      → (a : Account) × (account? x s.accounts ≡ some a) × (k a.balance s ≡ (ok b, u))
  unfolding read_balance gets ◌>>=◌
  read_balance-then x k h =
      let (a, found, h') =
        only_row (λ a. a.balance) (where_rows (λ (r : Account). r.id == x) s.accounts) k h in
      (a, where-account? x s.accounts a [] found, h')

  pub resolve_user_wallet_id-then :
      (user : ℕ) (k : ℕ → Action B)
      → (resolve_user_wallet_id user >>= k) s ≡ (ok b, u)
      → (w : ℕ) × HasWallet user s w × (k w s ≡ (ok b, u))
  unfolding resolve_user_wallet_id gets ◌>>=◌
  resolve_user_wallet_id-then user k h =
      let (a, found, h') = only_row (λ a. a.id) (where_rows (is_wallet_of user) s.accounts) k h in
      (a.id, (a, found, refl), h')
