-- ===== src/Wallet/Flow.antt =====
-- The double entry: what one posting does to every balance, to the sums over the entries, and to
-- the total; and the relation between states that every service must keep to.
use native.Mathlib.Decide.{ℕ_discrete}
use xpredict.Prelude.{
  ℕ, ◌+◌, ◌-◌, ◌≤◌, ◌≡◌, refl, Option, some, List, [], ◌∷◌, ◌==◌, if◌then◌else◌, arith, ap, ◌∙◌,
  Extends, Extends-refl, Extends-trans,
}
use mathlib.Core.List.{append_assoc}
use xpredict.Money.Errors.{Result, ok, err}
use xpredict.Database.Rows.{Db, RowLock, Account, Transfer, TransferKind, Metadata}
use xpredict.Database.Keys.{Key}
use xpredict.Database.Tables.{
  account?, set_balance, balance_or_zero, total, debits, credits, transfer_debits, transfer_credits,
  account?-set_self, account?-set_ne, total-set, debits-append, credits-append,
  transfer_debits-append, transfer_credits-append, Keyed, Keyed-mono, Keyed-set,
}
use xpredict.Session.Rules.{Preorder, OnOk, Does}
use xpredict.Wallet.{post_transfer}
use xpredict.Wallet.Posting.{balance, debit_entry, credit_entry, Posted, post_transfer-Posted}

-- The balance of any account after an update of account `x` from balance `a.balance` to `b`.
set_balance_delta :
    (x b v y : ℕ) (rows : List Account) (a : Account)
    → account? x rows ≡ some a
    → balance_or_zero (account? y (set_balance x b v rows)) + (if x == y then a.balance else 0)
      ≡ balance_or_zero (account? y rows) + (if x == y then b else 0)
set_balance_delta x b v y rows a h = elim (ℕ_discrete y x) [
  | yes e ↦ rw e (rw (account?-set_self x b v rows a h, h) (ground arith))
  | no ne ↦ rw (account?-set_ne x b v y rows ne) (ground arith)
]

module _ {kind : TransferKind} {key : Option Key} {actor : Option ℕ} {d c amount : ℕ} {m : Metadata}
    {s : Db} {t : Transfer} {u : Db} (p : Posted kind key actor d c amount m s t u) where
  -- Each account changes by what the entries say: the source by -amount, the target by +amount.
  pub Posted-balance :
      (x : ℕ)
      → balance x u + (if d == x then amount else 0) ≡ balance x s + (if c == x then amount else 0)
  Posted-balance x = rw p.after (
      ground (
        arith,
        p.covered,
        set_balance_delta d (p.source.balance - amount) (p.source.version + 1) x s.accounts p.source
            p.source_found,
        set_balance_delta c (p.target.balance + amount) p.target.version x
            (set_balance d (p.source.balance - amount) (p.source.version + 1) s.accounts) p.target
            p.target_found,
      ))

  pub Posted-total : total u.accounts ≡ total s.accounts
  Posted-total = rw p.after (
      omega (
        arith,
        p.covered,
        total-set d (p.source.balance - amount) (p.source.version + 1) s.accounts p.source
            p.source_found,
        total-set c (p.target.balance + amount) p.target.version
            (set_balance d (p.source.balance - amount) (p.source.version + 1) s.accounts) p.target
            p.target_found,
      ))

  pub Posted-debits :
      (x : ℕ) → debits x u.entries ≡ debits x s.entries + (if d == x then amount else 0)
  unfolding debits
  Posted-debits x = rw (p.after, debits-append, debits-append) (ground arith)

  pub Posted-credits :
      (x : ℕ) → credits x u.entries ≡ credits x s.entries + (if c == x then amount else 0)
  unfolding credits
  Posted-credits x = rw (p.after, credits-append, credits-append) (ground arith)

  pub Posted-transfer_sums :
      (x : ℕ)
      → transfer_debits x u.entries + transfer_credits x s.entries
        ≡ transfer_debits x s.entries + transfer_credits x u.entries
  unfolding transfer_debits transfer_credits
  Posted-transfer_sums x = rw p.after (
      rw
        (
          transfer_debits-append, transfer_debits-append, transfer_credits-append,
          transfer_credits-append,
        )
        (ground arith))

-- What every service may do to the ledger, whatever else it does: no account drifts from its
-- entries, no money appears or vanishes, the debits and credits of each transfer stay equal, the
-- tables of entries and transfers only grow, and an account's key stays its own.
pub record Sound (s u : Db) : Type 0 where
  pub drift :
      (x : ℕ)
      → balance x u + debits x u.entries + credits x s.entries
        ≡ balance x s + debits x s.entries + credits x u.entries
  pub conserved : total u.accounts ≡ total s.accounts
  pub double_entry :
      (t : ℕ)
      → transfer_debits t u.entries + transfer_credits t s.entries
        ≡ transfer_debits t s.entries + transfer_credits t u.entries
  pub entries_kept : Extends s.entries u.entries
  pub transfers_kept : Extends s.transfers u.transfers
  pub ids_grow : s.next_id ≤ u.next_id
  pub keys : Keyed s.next_id s.accounts → Keyed u.next_id u.accounts

pub Sound-reflexive : (s : Db) → Sound s s
Sound-reflexive s = record {
  drift = λ x. refl;
  conserved = refl;
  double_entry = λ t. refl;
  entries_kept = Extends-refl s.entries;
  transfers_kept = Extends-refl s.transfers;
  ids_grow = omega arith;
  keys = λ k. k;
}

pub Sound-transitive : (s t u : Db) → Sound s t → Sound t u → Sound s u
Sound-transitive s t u p q = record {
  drift = λ x. omega (arith, p.drift x, q.drift x);
  conserved = q.conserved ∙ p.conserved;
  double_entry = λ x. omega (arith, p.double_entry x, q.double_entry x);
  entries_kept = Extends-trans s.entries t.entries u.entries p.entries_kept q.entries_kept;
  transfers_kept =
      Extends-trans s.transfers t.transfers u.transfers p.transfers_kept q.transfers_kept;
  ids_grow = omega (arith, p.ids_grow, q.ids_grow);
  keys = λ k. q.keys (p.keys k);
}

pub Sound-quiet :
    (s : Db) (n : ℕ) (l : List RowLock)
    → s.next_id ≤ n
    → Sound s (record s { next_id = n; locks = l })
Sound-quiet s n l h = record {
  drift = λ x. refl;
  conserved = refl;
  double_entry = λ t. refl;
  entries_kept = Extends-refl s.entries;
  transfers_kept = Extends-refl s.transfers;
  ids_grow = h;
  keys = Keyed-mono s.next_id n s.accounts h;
}

abbrev pub sound : Preorder
sound = record {
  rel = Sound;
  reflexive = Sound-reflexive;
  transitive = Sound-transitive;
  quiet = Sound-quiet;
}

-- A state with the same accounts, entries and transfers.
pub Sound-same :
    (s u : Db)
    → u.accounts ≡ s.accounts
    → u.entries ≡ s.entries
    → u.transfers ≡ s.transfers
    → s.next_id ≤ u.next_id
    → Sound s u
Sound-same s u a e t n = record {
  drift = λ x. rw (a, e) refl;
  conserved = ap total a;
  double_entry = λ x. rw e refl;
  entries_kept = rw e (Extends-refl s.entries);
  transfers_kept = rw t (Extends-refl s.transfers);
  ids_grow = n;
  keys = λ k. rw a (Keyed-mono s.next_id u.next_id s.accounts n k);
}

Posted-keys :
    {kind : TransferKind} {key : Option Key} {actor : Option ℕ} {d c amount : ℕ} {m : Metadata}
    {s : Db} {t : Transfer} {u : Db}
    → Posted kind key actor d c amount m s t u
    → Keyed s.next_id s.accounts
    → Keyed u.next_id u.accounts
Posted-keys {d = d} {c = c} {amount = amount} {s = s} p k = rw p.after (
    Keyed-mono s.next_id (s.next_id + 1) _ (omega arith) (
      Keyed-set c (p.target.balance + amount) p.target.version s.next_id _
        (Keyed-set d (p.source.balance - amount) (p.source.version + 1) s.next_id s.accounts k)))

Posted-Sound :
    {kind : TransferKind} {key : Option Key} {actor : Option ℕ} {d c amount : ℕ} {m : Metadata}
    {s : Db} {t : Transfer} {u : Db}
    → Posted kind key actor d c amount m s t u
    → Sound s u
Posted-Sound {d = d} {c = c} {amount = amount} {s = s} p = record {
  drift = λ x. omega (arith, Posted-balance p x, Posted-debits p x, Posted-credits p x);
  conserved = Posted-total p;
  double_entry = Posted-transfer_sums p;
  entries_kept = (
    debit_entry s.next_id d amount ∷ credit_entry s.next_id c amount ∷ [],
    rw p.after (
        append_assoc s.entries (debit_entry s.next_id d amount ∷ [])
          (credit_entry s.next_id c amount ∷ [])),
  );
  transfers_kept = (_, ap (λ (v : Db). v.transfers) p.after);
  ids_grow = rw p.after (omega arith);
  keys = Posted-keys p;
}

pub Does-post_transfer :
    (kind : TransferKind) (key : Option Key) (actor : Option ℕ) (d c amount : ℕ) (m : Metadata)
    → Does sound (post_transfer kind key actor d c amount m)
Does-post_transfer kind key actor d c amount m = record {
  at = λ s. go s (post_transfer kind key actor d c amount m s) refl;
}
  where
    go :
        (s : Db) (r : Result Transfer × Db)
        → post_transfer kind key actor d c amount m s ≡ r
        → OnOk Sound s r
    go s (ok t, u) h = Posted-Sound (post_transfer-Posted kind key actor d c amount m s t u h)
    go s (err e, u) h = tt
