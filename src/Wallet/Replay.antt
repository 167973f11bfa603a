-- ===== src/Wallet/Replay.antt =====
-- A recharge (backend/app/wallet/service.py) that a client sends again, and a transfer that the
-- source cannot cover.
use xpredict.Prelude.{
  ℕ, ◌<◌, ◌≡◌, refl, ap, ◌∙◌, String, Bool, true, Option, none, some, List, [], ◌∷◌, ◌++◌, ◌==◌,
  where_rows, arith, ltb,
}
use xpredict.Prelude.Int.{pos}
use xpredict.Money.Errors.{Error, ok, err, unique_violation, insufficient_balance}
use xpredict.Database.Rows
use xpredict.Database.Rows.{
  Db, Account, Transfer, TransferKind, Metadata, reason, house_promo_id, RowLock, account_row,
}
use xpredict.Database.Keys.{Key}
use xpredict.Session.{
  Action, pure, begin, commit_or_rollback, ◌>>=◌, lock_row, lock_accounts, sorted_pair, positive,
  handle_unique, on_unique_violation, scalar_one, gets, raise_if,
}
use xpredict.Session.Inversion.{>>=-runs, >>=-raises}
use xpredict.Wallet.{
  house, has_key, key_taken, insert_transfer, post_transfer, existing_transfer, credit_from_promo,
  promo_credit, covered_transfer, check_provider, recharge, resolve_user_wallet_id, read_balance,
  transfer,
}
use xpredict.Wallet.Queries.{HasWallet}

pub lock_accounts-runs :
    (xs : List ℕ) (s : Db)
    → (l : List RowLock) × (lock_accounts xs s ≡ (ok tt, record s { locks = l }))
unfolding lock_accounts lock_row pure ◌>>=◌
lock_accounts-runs [] s = (s.locks, refl)
lock_accounts-runs (x ∷ xs) s =
    lock_accounts-runs xs (record s { locks = s.locks ++ account_row x ∷ [] })

pub resolve-runs :
    (user_id : ℕ) (s : Db) (w : ℕ)
    → HasWallet user_id s w
    → resolve_user_wallet_id user_id s ≡ (ok w, s)
unfolding resolve_user_wallet_id gets scalar_one pure ◌>>=◌
resolve-runs user_id s w (a, found, e) = rw found (λ i. (ok (e i), s))

key_taken-found :
    (k : Key) (ts : List Transfer) (t : Transfer)
    → where_rows (has_key k) ts ≡ t ∷ []
    → key_taken (some k) ts ≡ true
unfolding key_taken
key_taken-found k [] t h = absurd (cc h)
key_taken-found k (x ∷ ts) t h = ground (arith, key_taken-found k ts t)

insert_transfer-taken :
    (kind : TransferKind) (key : Key) (actor : Option ℕ) (m : Metadata) (s : Db)
    → key_taken (some key) s.transfers ≡ true
    → insert_transfer kind (some key) actor m s ≡ (err unique_violation, s)
unfolding insert_transfer
insert_transfer-taken kind key actor m s h = rw h refl

pub post_transfer-taken :
    (kind : TransferKind) (key : Key) (actor : Option ℕ) (d c n : ℕ) (m : Metadata) (s : Db)
    → key_taken (some key) s.transfers ≡ true
    → post_transfer kind (some key) actor d c n m s ≡ (err unique_violation, s)
unfolding post_transfer
post_transfer-taken kind key actor d c n m s h =
    >>=-raises (insert_transfer kind (some key) actor m) _ s
      (insert_transfer-taken kind key actor m s h)

promo_credit-taken :
    (kind : TransferKind) (key : Key) (user_id n : ℕ) (m : Metadata) (s : Db) (w : ℕ)
    → HasWallet user_id s w
    → key_taken (some key) s.transfers ≡ true
    → (u : Db) × (promo_credit kind key user_id n m s ≡ (err unique_violation, u))
unfolding promo_credit
promo_credit-taken kind key user_id n m s w has taken =
    let (l, locked) = lock_accounts-runs (sorted_pair house_promo_id w) s in
    (
      record s { locks = l },
      >>=-runs (resolve_user_wallet_id user_id) _ s (resolve-runs user_id s w has)
          ∙ >>=-runs (lock_accounts (sorted_pair house_promo_id w)) _ s locked
          ∙ post_transfer-taken kind key none house_promo_id w n m (record s { locks = l }) taken,
    )

credit_from_promo-taken :
    (kind : TransferKind) (key : Key) (user_id n : ℕ) (m : Metadata) (s : Db) (w : ℕ)
    → HasWallet user_id s w
    → key_taken (some key) s.transfers ≡ true
    → credit_from_promo kind key user_id n m s ≡ (err unique_violation, s)
unfolding credit_from_promo begin
credit_from_promo-taken kind key user_id n m s w has taken =
    ap (commit_or_rollback s)
      (promo_credit-taken kind key user_id n m (record s { locks = [] }) w has taken).1

existing_transfer-runs :
    (key : Key) (s : Db) (t : Transfer)
    → where_rows (has_key key) s.transfers ≡ t ∷ []
    → existing_transfer key s ≡ (ok t, s)
unfolding existing_transfer gets scalar_one pure ◌>>=◌
existing_transfer-runs key s t found = rw found refl

positive-runs : (n : ℕ) (s : Db) → 0 < n → positive (pos n) s ≡ (ok n, s)
unfolding positive pure
positive-runs n s h = ground arith

-- A recharge under a key that one transfer has already, by a user with one wallet, returns that
-- transfer and leaves the database as it was: the client that sends it again is not credited again.
pub recharge_replayed :
    (user_id n : ℕ) (text : String) (key : Key) (s : Db) (t : Transfer) (w : ℕ)
    → 0 < n
    → HasWallet user_id s w
    → where_rows (has_key key) s.transfers ≡ t ∷ []
    → recharge user_id (pos n) text key house s ≡ (ok t, s)
unfolding recharge check_provider on_unique_violation
recharge_replayed user_id n text key s t w positive_amount has found =
    >>=-runs (positive (pos n)) _ s (positive-runs n s positive_amount)
    ∙ ap (handle_unique (existing_transfer key)) (
        credit_from_promo-taken Rows.recharge key user_id n (reason text) s w has
          (key_taken-found key s.transfers t found))
    ∙ existing_transfer-runs key s t found

read_balance-runs :
    (x : ℕ) (s : Db) (a : Account)
    → where_rows (λ (r : Account). r.id == x) s.accounts ≡ a ∷ []
    → read_balance x s ≡ (ok a.balance, s)
unfolding read_balance gets scalar_one pure ◌>>=◌
read_balance-runs x s a found = rw found refl

pub begin-raises :
    {A : Type 0} (m : Action A) (s : Db) {e : Error} {u : Db}
    → m (record s { locks = [] }) ≡ (err e, u)
    → begin m s ≡ (err e, s)
unfolding begin
begin-raises m s h = ap (commit_or_rollback s) h

raise_if-raises : (b : Bool) (e : Error) (s : Db) → b ≡ true → raise_if b e s ≡ (err e, s)
unfolding raise_if
raise_if-raises b e s h = rw h refl

covered_transfer-refused :
    (kind : TransferKind) (d c n : ℕ) (actor : Option ℕ) (key : Option Key) (text : Option String)
    (s : Db) (a : Account)
    → where_rows (λ (r : Account). r.id == d) s.accounts ≡ a ∷ []
    → a.balance < n
    → (u : Db) × (covered_transfer kind d c n actor key text s ≡ (err insufficient_balance, u))
unfolding covered_transfer
covered_transfer-refused kind d c n actor key text s a found short =
    let (l, locked) = lock_accounts-runs (sorted_pair d c) s in
    (
      record s { locks = l },
      >>=-runs (lock_accounts (sorted_pair d c)) _ s locked
          ∙ >>=-runs (read_balance d) _ (record s { locks = l })
              (read_balance-runs d (record s { locks = l }) a found)
          ∙ >>=-raises (raise_if (ltb a.balance n) insufficient_balance) _ (record s { locks = l })
              (raise_if-raises (ltb a.balance n) insufficient_balance (record s { locks = l })
                (ground arith)),
    )

-- A transfer of more than its source holds raises InsufficientBalance and writes nothing.
pub transfer_refused :
    (kind : TransferKind) (d c n : ℕ) (actor : Option ℕ) (key : Option Key) (text : Option String)
    (s : Db) (a : Account)
    → where_rows (λ (r : Account). r.id == d) s.accounts ≡ a ∷ []
    → a.balance < n
    → transfer kind d c (pos n) actor key text s ≡ (err insufficient_balance, s)
unfolding transfer
transfer_refused kind d c n actor key text s a found short =
    >>=-runs (positive (pos n)) _ s (positive-runs n s (omega arith))
    ∙ begin-raises (covered_transfer kind d c n actor key text) s
        (covered_transfer-refused kind d c n actor key text (record s { locks = [] }) a found
          short).1
