-- ===== src/Wallet.antt =====
-- backend/app/wallet/service.py: the sole writer of the double-entry ledger.
pub mod Posting
pub mod Flow
pub mod Soundness
pub mod Queries
pub mod Effects
pub mod Replay
use xpredict.Prelude.{
  ℕ, ◌+◌, ◌-◌, ⊤, String, Bool, true, false, ◌&&◌, ◌||◌, Option, none, some, List, [], ◌∷◌, ◌++◌,
  map, ltb, leb, ◌==◌, if◌then◌else◌, where_rows, any,
}
use xpredict.Prelude.Int.{ℤ}
use xpredict.Money.Errors.{
  Result, ok, err, value_error, not_implemented, unique_violation, check_violation,
  foreign_key_violation, numeric_overflow, insufficient_balance,
}
use xpredict.Database.Rows
use xpredict.Database.Rows.{
  Db, Account, OwnerType, user, AccountKind, user_wallet, Transfer, TransferKind, signup_bonus,
  Entry, debit, credit, Metadata, empty, reason, money_limit, house_promo_id,
}
use xpredict.Database.Keys.{Key, key_eq, bonus}
use xpredict.Database.Tables.{account?, set_balance}
use xpredict.Session.{
  Action, pure, raise, gets, scalar_one, begin, on_unique_violation, ◌>>=◌, ◌>>◌, raise_if,
  positive, uuid4, lock_accounts, sorted_pair,
}

abbrev pub same_id : Option ℕ → ℕ → Bool
same_id none x = false
same_id (some y) x = y == x

abbrev is_user : OwnerType → Bool
is_user user = true
is_user _ = false

abbrev is_user_wallet : AccountKind → Bool
is_user_wallet user_wallet = true
is_user_wallet _ = false

-- The WHERE clause of `_resolve_user_wallet_id`. Every account is in PLAY_USD.
abbrev pub is_wallet_of : ℕ → Account → Bool
is_wallet_of user_id a = is_user a.owner_type && same_id a.owner_id user_id && is_user_wallet a.kind

abbrev pub has_key : Key → Transfer → Bool
has_key k t = elim t.idempotency_key [ none ↦ false | some j ↦ key_eq j k ]

-- Some row has the key already; the UNIQUE constraint lets any number of rows have none.
unfoldable pub key_taken : Option Key → List Transfer → Bool
key_taken none ts = false
key_taken (some k) [] = false
key_taken (some k) (t ∷ ts) = has_key k t || key_taken (some k) ts

-- INSERT INTO transfers
unfoldable pub insert_transfer : TransferKind → Option Key → Option ℕ → Metadata → Action Transfer
insert_transfer kind key actor metadata s =
    let t : Transfer = record {
      id = s.next_id;
      kind = kind;
      idempotency_key = key;
      actor_user_id = actor;
      metadata = metadata;
    } in
    if key_taken key s.transfers
    then (err unique_violation, s)
    else (ok t, record s { transfers = s.transfers ++ t ∷ []; next_id = s.next_id + 1 })

-- INSERT INTO entries: CHECK (amount > 0), and the foreign key to accounts.
unfoldable pub insert_entry : Entry → Action ⊤
insert_entry e s =
    if leb e.amount 0 then (err check_violation, s) else elim (account? e.account_id s.accounts) [
      | none ↦ (err foreign_key_violation, s)
      | some a ↦ (ok tt, record s { entries = s.entries ++ e ∷ [] })
    ]

-- UPDATE accounts SET balance = balance - amount, version = version + 1, under the CHECK that a
-- balance is not negative.
unfoldable pub debit_account : ℕ → ℕ → Action ⊤
debit_account x amount s = elim (account? x s.accounts) [
  | none ↦ (ok tt, s)
  | some a ↦ if ltb a.balance amount then (err check_violation, s) else (
    ok tt,
    record s { accounts = set_balance x (a.balance - amount) (a.version + 1) s.accounts },
  )
]

-- UPDATE accounts SET balance = balance + amount, in a column NUMERIC(18, 4).
unfoldable pub credit_account : ℕ → ℕ → Action ⊤
credit_account x amount s = elim (account? x s.accounts) [
  | none ↦ (ok tt, s)
  | some a ↦
      if leb money_limit (a.balance + amount)
      then (err numeric_overflow, s)
      else (ok tt, record s { accounts = set_balance x (a.balance + amount) a.version s.accounts })
]

-- `_post_transfer`: the transfer, its two entries and both balances. The caller holds the locks.
unfoldable pub post_transfer :
    TransferKind → Option Key → Option ℕ → ℕ → ℕ → ℕ → Metadata → Action Transfer
unfolding ◌>>=◌ insert_transfer insert_entry debit_account credit_account
post_transfer kind key actor debit_account_id credit_account_id amount metadata = do
  transfer ← insert_transfer kind key actor metadata
  insert_entry (record {
    transfer_id = transfer.id;
    account_id = debit_account_id;
    direction = debit;
    amount = amount;
  })
  insert_entry (record {
    transfer_id = transfer.id;
    account_id = credit_account_id;
    direction = credit;
    amount = amount;
  })
  debit_account debit_account_id amount
  credit_account credit_account_id amount
  pure transfer

-- `_resolve_user_wallet_id`
unfoldable pub resolve_user_wallet_id : ℕ → Action ℕ
unfolding ◌>>=◌ scalar_one
resolve_user_wallet_id user_id = do
  rows ← gets (λ s. where_rows (is_wallet_of user_id) s.accounts)
  account ← scalar_one rows
  pure account.id

-- `select(Account.balance).where(Account.id == x)`, which `scalar_one()` reads.
unfoldable pub read_balance : ℕ → Action ℕ
unfolding ◌>>=◌ scalar_one
read_balance x = do
  rows ← gets (λ s. where_rows (λ a. a.id == x) s.accounts)
  account ← scalar_one rows
  pure account.balance

unfoldable pub get_balance : ℕ → Action ℕ
unfolding ◌>>=◌ resolve_user_wallet_id read_balance
get_balance user_id = do wallet_id ← resolve_user_wallet_id user_id; read_balance wallet_id

-- `create_wallet`, on the caller's unit of work; an account opens at 0. The UNIQUE constraint is
-- on the owner, the kind and the currency.
insert_wallet : ℕ → ℕ → Action Account
insert_wallet user_id id s =
    let account : Account = record {
      id = id;
      owner_type = user;
      owner_id = some user_id;
      kind = user_wallet;
      balance = 0;
      version = 0;
    } in
    (ok account, record s { accounts = s.accounts ++ account ∷ [] })

unfoldable pub create_wallet : ℕ → Action Account
unfolding ◌>>=◌ raise_if uuid4 insert_wallet
create_wallet user_id = do
  rows ← gets (λ s. where_rows (is_wallet_of user_id) s.accounts)
  raise_if (any rows) unique_violation
  id ← uuid4
  insert_wallet user_id id

-- `select(Transfer).where(Transfer.idempotency_key == key)`
unfoldable pub existing_transfer : Key → Action Transfer
unfolding ◌>>=◌ scalar_one
existing_transfer key = do rows ← gets (λ s. where_rows (has_key key) s.transfers); scalar_one rows

-- The unit of work that `recharge` and `grant_signup_bonus` share: both locks in canonical order,
-- then the posting from `house_promo` to the user's wallet.
unfoldable pub promo_credit : TransferKind → Key → ℕ → ℕ → Metadata → Action Transfer
unfolding ◌>>=◌ resolve_user_wallet_id lock_accounts post_transfer
promo_credit kind key user_id amount metadata = do
  dst_id ← resolve_user_wallet_id user_id
  lock_accounts (sorted_pair house_promo_id dst_id)
  post_transfer kind (some key) none house_promo_id dst_id amount metadata

unfoldable pub credit_from_promo : TransferKind → Key → ℕ → ℕ → Metadata → Action Transfer
unfolding begin promo_credit
credit_from_promo kind key user_id amount metadata =
    begin (promo_credit kind key user_id amount metadata)

-- PROVIDER_HOUSE, PROVIDER_STRIPE, or any other text
pub data PaymentProvider : Type 0 where
  house stripe unknown : PaymentProvider

check_provider : PaymentProvider → Action ⊤
check_provider house = pure tt
check_provider stripe = raise not_implemented
check_provider unknown = raise value_error

unfoldable pub recharge : ℕ → ℤ → String → Key → PaymentProvider → Action Transfer
unfolding ◌>>=◌ check_provider positive on_unique_violation credit_from_promo existing_transfer
recharge user_id amount text key provider = do
  check_provider provider
  ticks ← positive amount
  on_unique_violation (credit_from_promo Rows.recharge key user_id ticks (reason text))
      (existing_transfer key)

unfoldable pub grant_signup_bonus : ℕ → ℤ → Action Transfer
unfolding ◌>>=◌ positive on_unique_violation credit_from_promo existing_transfer
grant_signup_bonus user_id amount = do
  ticks ← positive amount
  on_unique_violation
      (credit_from_promo signup_bonus (bonus user_id) user_id ticks (reason "signup_bonus"))
      (existing_transfer (bonus user_id))

abbrev reason_or_empty : Option String → Metadata
reason_or_empty none = empty
reason_or_empty (some text) = reason text

-- The unit of work of `transfer`.
unfoldable pub covered_transfer :
    TransferKind → ℕ → ℕ → ℕ → Option ℕ → Option Key → Option String → Action Transfer
unfolding ◌>>=◌ lock_accounts read_balance raise_if post_transfer
covered_transfer kind debit_account_id credit_account_id ticks actor key text = do
  lock_accounts (sorted_pair debit_account_id credit_account_id)
  debit_balance ← read_balance debit_account_id
  raise_if (ltb debit_balance ticks) insufficient_balance
  post_transfer kind key actor debit_account_id credit_account_id ticks (reason_or_empty text)

unfoldable pub transfer :
    TransferKind → ℕ → ℕ → ℤ → Option ℕ → Option Key → Option String → Action Transfer
unfolding ◌>>=◌ begin positive covered_transfer
transfer kind debit_account_id credit_account_id amount actor key text = do
  ticks ← positive amount
  begin (covered_transfer kind debit_account_id credit_account_id ticks actor key text)
