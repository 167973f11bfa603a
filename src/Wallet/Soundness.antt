-- ===== src/Wallet/Soundness.antt =====
-- Every operation of `WalletService` (backend/app/wallet/service.py) keeps to the double entry.
use xpredict.Prelude.{ℕ, ◌+◌, ◌≡◌, refl, String, Option, [], ◌∷◌, ◌++◌, arith, Extends-refl}
use xpredict.Prelude.Int.{ℤ}
use xpredict.Database.Rows.{Db, Account, TransferKind, Metadata}
use xpredict.Database.Keys.{Key}
use xpredict.Database.Tables.{account?-append, total-append, Keyed-append}
use xpredict.Session.{◌>>=◌, uuid4}
use xpredict.Session.Rules.{
  Preorder, Does, AlwaysDoes, OnOk, does_rules, always_rules, Does-bind, Does-gets, Does-raise_if,
}
use xpredict.Wallet.{
  PaymentProvider, house, stripe, unknown, resolve_user_wallet_id, read_balance, insert_wallet,
  create_wallet, existing_transfer, credit_from_promo, promo_credit, covered_transfer,
  check_provider, recharge, grant_signup_bonus, transfer,
}
use xpredict.Wallet.Flow.{Sound, sound, Does-post_transfer}

module _ {r : Preorder} where
  pub Does-resolve_user_wallet_id : (user : ℕ) → Does r (resolve_user_wallet_id user)
  unfolding resolve_user_wallet_id
  Does-resolve_user_wallet_id user = search does_rules

  pub Does-read_balance : (x : ℕ) → Does r (read_balance x)
  unfolding read_balance
  Does-read_balance x = search does_rules

  Always-existing_transfer : (key : Key) → AlwaysDoes r (existing_transfer key)
  unfolding existing_transfer
  Always-existing_transfer key = search always_rules

  Always-check_provider : (p : PaymentProvider) → AlwaysDoes r (check_provider p)
  unfolding check_provider
  Always-check_provider house = search always_rules
  Always-check_provider stripe = search always_rules
  Always-check_provider unknown = search always_rules

pub ruleset ledger_rules =
    (does_rules, Does-resolve_user_wallet_id, Does-read_balance, Does-post_transfer)

-- A new account holds nothing, so it changes no balance and no sum.
pub new_account-Sound :
    (s : Db) (a : Account)
    → a.balance ≡ 0
    → a.id ≡ s.next_id
    → Sound s (record s { accounts = s.accounts ++ a ∷ []; next_id = s.next_id + 1 })
new_account-Sound s a h i = record {
  drift = λ x. ground (arith, account?-append x s.accounts a);
  conserved = omega (arith, total-append s.accounts a);
  double_entry = λ t. refl;
  entries_kept = Extends-refl s.entries;
  transfers_kept = Extends-refl s.transfers;
  ids_grow = omega arith;
  keys = λ k. Keyed-append s.next_id (s.next_id + 1) s.accounts a k (omega arith) (omega arith);
}

Does-open_wallet : (user : ℕ) → Does sound (uuid4 >>= λ id. insert_wallet user id)
unfolding ◌>>=◌ uuid4 insert_wallet
Does-open_wallet user = record { at = λ s. new_account-Sound s _ refl refl }

pub create_wallet-Sound : (user : ℕ) → Does sound (create_wallet user)
unfolding create_wallet
create_wallet-Sound user = search (Does-gets, Does-raise_if, Does-open_wallet, Does-bind) depth 6

credit_from_promo-Sound :
    (kind : TransferKind) (key : Key) (user amount : ℕ) (m : Metadata)
    → AlwaysDoes sound (credit_from_promo kind key user amount m)
unfolding credit_from_promo promo_credit
credit_from_promo-Sound kind key user amount m = search (always_rules, ledger_rules) depth 9

-- Whatever a recharge returns or raises, no account drifts from its entries and no money appears.
pub recharge-Sound :
    (user : ℕ) (amount : ℤ) (text : String) (key : Key) (provider : PaymentProvider)
    → AlwaysDoes sound (recharge user amount text key provider)
unfolding recharge
recharge-Sound user amount text key provider =
    search (always_rules, Always-check_provider, credit_from_promo-Sound, Always-existing_transfer)
      depth 9

pub grant_signup_bonus-Sound :
    (user : ℕ) (amount : ℤ) → AlwaysDoes sound (grant_signup_bonus user amount)
unfolding grant_signup_bonus
grant_signup_bonus-Sound user amount =
    search (always_rules, credit_from_promo-Sound, Always-existing_transfer) depth 9

pub transfer-Sound :
    (kind : TransferKind) (d c : ℕ) (amount : ℤ) (actor : Option ℕ) (key : Option Key)
    (text : Option String)
    → AlwaysDoes sound (transfer kind d c amount actor key text)
unfolding transfer covered_transfer
transfer-Sound kind d c amount actor key text = search (always_rules, ledger_rules) depth 9
