-- ===== src/Ledger/Owners.antt =====
-- Whose account is whose does not change when money moves (backend/app/wallet/service.py writes
-- balances and versions only).
use xpredict.Prelude.{
  ℕ, ◌+◌, ◌-◌, ◌≡◌, refl, ap, sym, ◌∙◌, Bool, Option, some, List, [], ◌∷◌, map, where_rows, arith,
}
use xpredict.Money.Errors.{Result, ok, err}
use xpredict.Database.Rows.{Db, Account, Bet, AuditEvent, Transfer, TransferKind, Metadata, bet_leg}
use xpredict.Database.Keys.{Key, Leg}
use xpredict.Database.Tables.{set_balance}
use xpredict.Session.{Action}
use xpredict.Session.Rules.{Preorder, Does, OnOk, Does-pure, Does-bind}
use xpredict.Session.Untouched.{untouched, Does-of_untouched}
use xpredict.Wallet.{is_wallet_of, post_transfer}
use xpredict.Wallet.Posting.{post_transfer-Posted}
use xpredict.Ledger.{TransferSpec, is_liability_of, post_specs, write_bet, record_audit}

-- An account without its balance and its version.
abbrev pub owner_of : Account → Account
owner_of a = record a { balance = 0; version = 0 }

abbrev pub owners : List Account → List Account
owners rows = map owner_of rows

set_balance-owners :
    (x b v : ℕ) (rows : List Account) → owners (set_balance x b v rows) ≡ owners rows
unfolding set_balance
set_balance-owners x b v [] = refl
set_balance-owners x b v (a ∷ rows) = ground (arith, set_balance-owners x b v rows)

abbrev pub same_owners : Preorder
same_owners = record {
  rel = λ s u. owners u.accounts ≡ owners s.accounts;
  reflexive = λ s. refl;
  transitive = λ s t u p q. q ∙ p;
  quiet = λ s n l h. refl;
}

pub Does-post_transfer_owners :
    (kind : TransferKind) (key : Option Key) (actor : Option ℕ) (d c amount : ℕ) (m : Metadata)
    → Does same_owners (post_transfer kind key actor d c amount m)
Does-post_transfer_owners kind key actor d c amount m = record {
  at = λ s. go s (post_transfer kind key actor d c amount m s) refl;
}
  where
    go :
        (s : Db) (r : Result Transfer × Db)
        → post_transfer kind key actor d c amount m s ≡ r
        → OnOk same_owners.rel s r
    go s (ok t, u) h =
        let p = post_transfer-Posted kind key actor d c amount m s t u h in
        ap (λ (v : Db). owners v.accounts) p.after
        ∙ set_balance-owners c (p.target.balance + amount) p.target.version
            (set_balance d (p.source.balance - amount) (p.source.version + 1) s.accounts)
        ∙ set_balance-owners d (p.source.balance - amount) (p.source.version + 1) s.accounts
    go s (err e, u) h = tt

pub Does-post_specs_owners :
    (key : ℕ → Leg → Key) (actor : Option ℕ) (m : ℕ) (specs : List TransferSpec)
    → Does same_owners (post_specs key actor m specs)
unfolding post_specs
Does-post_specs_owners key actor m [] = Does-pure tt
Does-post_specs_owners key actor m (p ∷ specs) =
    Does-bind _ (λ _. post_specs key actor m specs)
      (Does-post_transfer_owners p.kind (some (key p.bet_id p.leg)) actor p.debit_id p.credit_id
        p.amount (bet_leg p.bet_id m))
      (λ _. Does-post_specs_owners key actor m specs)

pub Does-write_bet_owners : (x : ℕ) (f : Bet → Bet) → Does same_owners (write_bet x f)
unfolding write_bet
Does-write_bet_owners x f = record { at = λ s. refl }

pub Does-record_audit_owners :
    (actor : Option ℕ) (event : AuditEvent) → Does same_owners (record_audit actor event)
unfolding record_audit
Does-record_audit_owners actor event = record { at = λ s. refl }

-- What leaves the ledger alone keeps the owners.
pub Does-owners : {A : Type 0} (m : Action A) → Does untouched m → Does same_owners m
Does-owners m = Does-of_untouched m λ s u h. ap owners h.accounts

-- A query that reads no balance.
where-owners :
    (p : Account → Bool)
    → ((a : Account) → p (owner_of a) ≡ p a)
    → (rows : List Account) → owners (where_rows p rows) ≡ where_rows p (owners rows)
where-owners p h [] = refl
where-owners p h (a ∷ rows) = ground (arith, h a, where-owners p h rows)

pub where_wallet-owners :
    (user : ℕ) (rows rows' : List Account)
    → owners rows' ≡ owners rows
    → owners (where_rows (is_wallet_of user) rows') ≡ owners (where_rows (is_wallet_of user) rows)
where_wallet-owners user rows rows' h =
    where-owners (is_wallet_of user) (λ a. refl) rows'
    ∙ ap (where_rows (is_wallet_of user)) h
    ∙ sym (where-owners (is_wallet_of user) (λ a. refl) rows)

pub where_liability-owners :
    (m : ℕ) (rows rows' : List Account)
    → owners rows' ≡ owners rows
    → owners (where_rows (is_liability_of m) rows') ≡ owners (where_rows (is_liability_of m) rows)
where_liability-owners m rows rows' h =
    where-owners (is_liability_of m) (λ a. refl) rows'
    ∙ ap (where_rows (is_liability_of m)) h
    ∙ sym (where-owners (is_liability_of m) (λ a. refl) rows)
