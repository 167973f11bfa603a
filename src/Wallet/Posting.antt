-- ===== src/Wallet/Posting.antt =====
-- What `_post_transfer` of backend/app/wallet/service.py has done when it returns.
use xpredict.Prelude.{
  ℕ, ◌+◌, ◌-◌, ◌≤◌, ◌<◌, ⊤, ◌≡◌, false, Option, some, List, [], ◌∷◌, ◌++◌, arith, Option-cases, inl,
  inr, ◌∙◌, sym,
}
use native.Mathlib.Decide.{ℕ_discrete}
use xpredict.Money.Errors.{ok}
use xpredict.Database.Rows.{Db, Account, Transfer, TransferKind, Entry, debit, credit, Metadata}
use xpredict.Database.Keys.{Key}
use xpredict.Database.Tables.{
  account?, set_balance, balance_or_zero, account?-set_self, account?-set_ne,
}
use xpredict.Session.{Action, ◌>>=◌}
use xpredict.Session.Inversion.{returned}
use xpredict.Wallet.{
  key_taken, insert_transfer, insert_entry, debit_account, credit_account, post_transfer,
}

abbrev pub balance : ℕ → Db → ℕ
balance x s = balance_or_zero (account? x s.accounts)

abbrev pub debit_entry : ℕ → ℕ → ℕ → Entry
debit_entry t x amount = record {
  transfer_id = t;
  account_id = x;
  direction = debit;
  amount = amount;
}

abbrev pub credit_entry : ℕ → ℕ → ℕ → Entry
credit_entry t x amount = record {
  transfer_id = t;
  account_id = x;
  direction = credit;
  amount = amount;
}

abbrev pub new_transfer : TransferKind → Option Key → Option ℕ → Metadata → Db → Transfer
new_transfer kind key actor m s = record {
  id = s.next_id;
  kind = kind;
  idempotency_key = key;
  actor_user_id = actor;
  metadata = m;
}

module _ {B : Type 0} (s : Db) {b : B} {u : Db} where
  insert_transfer-then :
      (kind : TransferKind) (key : Option Key) (actor : Option ℕ) (m : Metadata)
      (f : Transfer → Action B)
      → (insert_transfer kind key actor m >>= f) s ≡ (ok b, u)
      → (key_taken key s.transfers ≡ false)
        × (f (new_transfer kind key actor m s) (record s {
          transfers = s.transfers ++ new_transfer kind key actor m s ∷ [];
          next_id = s.next_id + 1;
        })
            ≡ (ok b, u))
  unfolding insert_transfer ◌>>=◌
  insert_transfer-then kind key actor m f h = ground arith

  insert_entry-then :
      (e : Entry) (f : ⊤ → Action B)
      → (insert_entry e >>= f) s ≡ (ok b, u)
      → (a : Account) × (0 < e.amount)
        × (account? e.account_id s.accounts ≡ some a)
        × (f tt (record s { entries = s.entries ++ e ∷ [] }) ≡ (ok b, u))
  unfolding insert_entry ◌>>=◌
  insert_entry-then e f h = elim (Option-cases (account? e.account_id s.accounts)) [
    | inl missing ↦ absurd (ground arith)
    | inr (a, found) ↦ (a, ground arith, found, ground arith)
  ]

  debit_account-then :
      (x amount : ℕ) (a : Account) (f : ⊤ → Action B)
      → account? x s.accounts ≡ some a
      → (debit_account x amount >>= f) s ≡ (ok b, u)
      → (amount ≤ a.balance)
        × (f tt (record s {
          accounts = set_balance x (a.balance - amount) (a.version + 1) s.accounts;
        })
            ≡ (ok b, u))
  unfolding debit_account ◌>>=◌
  debit_account-then x amount a f found h = ground arith

  credit_account-then :
      (x amount : ℕ) (a : Account) (f : ⊤ → Action B)
      → account? x s.accounts ≡ some a
      → (credit_account x amount >>= f) s ≡ (ok b, u)
      → f tt (record s { accounts = set_balance x (a.balance + amount) a.version s.accounts })
        ≡ (ok b, u)
  unfolding credit_account ◌>>=◌
  credit_account-then x amount a f found h = ground arith

-- An account that is there is still there after an update of any account.
account?-set :
    (x b v y : ℕ) (rows : List Account) (a : Account)
    → account? y rows ≡ some a
    → (a' : Account) × (account? y (set_balance x b v rows) ≡ some a')
account?-set x b v y rows a h = elim (ℕ_discrete y x) [
  | yes e ↦
      (record a { balance = b; version = v }, rw e (account?-set_self x b v rows a (rw (sym e) h)))
  | no ne ↦ (a, account?-set_ne x b v y rows ne ∙ h)
]

-- The database that `post_transfer` leaves.
pub record Posted (kind : TransferKind) (key : Option Key) (actor : Option ℕ) (d c amount : ℕ)
    (m : Metadata) (s : Db) (t : Transfer) (u : Db) : Type 0 where
  pub positive_amount : 0 < amount
  pub new_key : key_taken key s.transfers ≡ false
  pub row : t ≡ new_transfer kind key actor m s
  pub source : Account
  pub source_found : account? d s.accounts ≡ some source
  pub covered : amount ≤ source.balance
  pub target : Account
  pub target_found :
      account? c (set_balance d (source.balance - amount) (source.version + 1) s.accounts)
      ≡ some target
  pub after : u ≡ record s {
    transfers = s.transfers ++ new_transfer kind key actor m s ∷ [];
    next_id = s.next_id + 1;
    entries =
        (s.entries ++ debit_entry s.next_id d amount ∷ []) ++ credit_entry s.next_id c amount ∷ [];
    accounts =
        set_balance c
          (target.balance + amount)
          target.version
          (set_balance d (source.balance - amount) (source.version + 1) s.accounts);
  }

pub post_transfer-Posted :
    (kind : TransferKind) (key : Option Key) (actor : Option ℕ) (d c amount : ℕ) (m : Metadata)
    (s : Db) (t : Transfer) (u : Db)
    → post_transfer kind key actor d c amount m s ≡ (ok t, u)
    → Posted kind key actor d c amount m s t u
unfolding post_transfer
post_transfer-Posted kind key actor d c amount m s t u h =
    let (new_key, h1) = insert_transfer-then s kind key actor m _ h in
    let (a, pos_amount, source_found, h2) =
      insert_entry-then _ (debit_entry s.next_id d amount) _ h1 in
    let (b, _, target_there, h3) = insert_entry-then _ (credit_entry s.next_id c amount) _ h2 in
    let (covered, h4) = debit_account-then _ d amount a _ source_found h3 in
    let (b', target_found) =
      account?-set d (a.balance - amount) (a.version + 1) c s.accounts b target_there in
    let h5 = credit_account-then _ c amount b' _ target_found h4 in
    record {
      positive_amount = pos_amount;
      new_key = new_key;
      row = (returned h5).0;
      source = a;
      source_found = source_found;
      covered = covered;
      target = b';
      target_found = target_found;
      after = (returned h5).1;
    }
