-- ===== src/Wallet/Effects.antt =====
-- What a returned call of backend/app/wallet/service.py has done: the money that moved, the rows
-- that were added, and the idempotency of a recharge.
use xpredict.Prelude.{
  ℕ, ◌+◌, ◌≤◌, ◌<◌, ◌≡◌, refl, ap, sym, ◌∙◌, ⊤, String, Bool, true, false, Option, none, some, List,
  [], ◌∷◌, ◌++◌, ◌==◌, if◌then◌else◌, where_rows, arith, ◌⊎◌, inl, inr, ltb,
}
use xpredict.Prelude.Int.{ℤ, pos}
use xpredict.Money.Errors.{Result, ok, insufficient_balance}
use xpredict.Database.Rows
use xpredict.Database.Rows.{
  Db, Account, Transfer, TransferKind, Entry, Metadata, reason, house_promo_id, RowLock,
  account_row,
}
use xpredict.Database.Keys.{Key, key_eq_self}
use xpredict.Database.Tables.{account?, balance_or_zero}
use xpredict.Session.{
  Action, pure, ◌>>=◌, lock_accounts, sorted_pair, on_unique_violation, scalar_one, gets, raise,
}
use xpredict.Session.Rules.{Does-lock_accounts}
use xpredict.Session.Inversion.{
  positive-then, begin-eq-ok, begin-eq-err, Does-then, raise_if-then, on_unique_violation-cases,
  returned,
}
use xpredict.Session.Untouched.{Untouched, untouched, LedgerSame, Untouched-LedgerSame}
use xpredict.Wallet.{
  PaymentProvider, house, stripe, unknown, has_key, key_taken, existing_transfer, credit_from_promo,
  promo_credit, covered_transfer, check_provider, recharge, transfer, reason_or_empty,
}
use xpredict.Wallet.Posting.{
  balance, debit_entry, credit_entry, new_transfer, Posted, post_transfer-Posted,
}
use xpredict.Wallet.Flow.{Posted-balance}
use xpredict.Wallet.Queries.{HasWallet, read_balance-then, resolve_user_wallet_id-then}

-- The transfer `t` of `n` ticks, `n` positive and covered, from account `d` to account `c`: every
-- balance moves by just that, and the two entries and the transfer are the only new rows.
pub record Moved (d c n : ℕ) (s : Db) (t : Transfer) (u : Db) : Type 0 where
  pub positive_amount : 0 < n
  pub covered : n ≤ balance d s
  pub balances :
      (x : ℕ) → balance x u + (if d == x then n else 0) ≡ balance x s + (if c == x then n else 0)
  pub entries : u.entries ≡ (s.entries ++ debit_entry t.id d n ∷ []) ++ credit_entry t.id c n ∷ []
  pub transfers : u.transfers ≡ s.transfers ++ t ∷ []

pub Posted-Moved :
    {kind : TransferKind} {key : Option Key} {actor : Option ℕ} {d c n : ℕ} {m : Metadata}
    {s s' : Db} {t : Transfer} {u : Db}
    → LedgerSame s s'
    → Posted kind key actor d c n m s' t u
    → Moved d c n s t u
Posted-Moved {kind} {key} {actor} {d} {c} {n} {m} {s} {s'} q p = record {
  positive_amount = p.positive_amount;
  covered = omega (
    arith,
    p.covered,
    ap balance_or_zero p.source_found,
    ap (λ l. balance_or_zero (account? d l)) q.accounts,
  );
  balances =
      λ x. omega (arith, Posted-balance p x, ap (λ l. balance_or_zero (account? x l)) q.accounts);
  entries =
      ap (λ (v : Db). v.entries) p.after
      ∙ ap (λ l. (l ++ debit_entry s'.next_id d n ∷ []) ++ credit_entry s'.next_id c n ∷ [])
          q.entries
      ∙ ap
          (λ (v : Transfer). (s.entries ++ debit_entry v.id d n ∷ []) ++ credit_entry v.id c n ∷ [])
          (sym p.row);
  transfers =
      ap (λ (v : Db). v.transfers) p.after
      ∙ ap (λ l. l ++ new_transfer kind key actor m s' ∷ []) q.transfers
      ∙ ap (λ v. s.transfers ++ v ∷ []) (sym p.row);
}

pub locked-then :
    {B : Type 0} {s : Db} {b : B} {u : Db} (xs : List ℕ) (k : ⊤ → Action B)
    → (lock_accounts xs >>= k) s ≡ (ok b, u)
    → (a : ⊤) × (t : Db) × Untouched s t × (lock_accounts xs s ≡ (ok a, t)) × (k a t ≡ (ok b, u))
locked-then xs k h = Does-then {r = untouched} (lock_accounts xs) k (Does-lock_accounts xs) h

-- A transfer that returns had a positive amount that the source covered, and moved exactly that.
pub transfer_moves :
    (kind : TransferKind) (d c : ℕ) (amount : ℤ) (actor : Option ℕ) (key : Option Key)
    (text : Option String) (s : Db) (t : Transfer) (u : Db)
    → transfer kind d c amount actor key text s ≡ (ok t, u)
    → (n : ℕ) × (amount ≡ pos n) × Moved d c n s t u
unfolding transfer covered_transfer
transfer_moves kind d c amount actor key text s t u h =
    let (n, e, p, h1) = positive-then amount _ h in
    let h1' = begin-eq-ok (covered_transfer kind d c n actor key text) s h1 in
    let (_, s1, q, _, h2) = locked-then (sorted_pair d c) _ h1' in
    let (a, found, h3) = read_balance-then d _ h2 in
    let (_, h4) = raise_if-then (ltb a.balance n) insufficient_balance _ h3 in
    (
      n,
      e,
      Posted-Moved (Untouched-LedgerSame q)
          (post_transfer-Posted kind key actor d c n (reason_or_empty text) s1 t u h4),
    )

key_taken-none :
    (k : Key) (ts : List Transfer) → key_taken (some k) ts ≡ false → where_rows (has_key k) ts ≡ []
unfolding key_taken
key_taken-none k [] h = refl
key_taken-none k (t ∷ ts) h = ground (arith, key_taken-none k ts)

where_rows-snoc :
    (p : Transfer → Bool) (ts : List Transfer) (t : Transfer)
    → where_rows p ts ≡ []
    → p t ≡ true
    → where_rows p (ts ++ t ∷ []) ≡ t ∷ []
where_rows-snoc p [] t h e = rw e refl
where_rows-snoc p (x ∷ ts) t h e = ground (arith, where_rows-snoc p ts t)

-- A key that was new when the transfer was posted is on that transfer alone.
new_key-only :
    {kind : TransferKind} (key : Key) {actor : Option ℕ} {d c n : ℕ} {m : Metadata} {s : Db}
    {t : Transfer} {u : Db}
    → Posted kind (some key) actor d c n m s t u
    → where_rows (has_key key) u.transfers ≡ t ∷ []
new_key-only {kind} key {actor} {d} {c} {n} {m} {s} {t} p =
    let row = new_transfer kind (some key) actor m s in
    ap (λ (v : Db). where_rows (has_key key) v.transfers) p.after
    ∙ where_rows-snoc (has_key key) s.transfers row (key_taken-none key s.transfers p.new_key)
        (key_eq_self key)
    ∙ ap (λ v. v ∷ []) (sym p.row)

-- The promo account pays the user's only wallet, under the key.
credit_from_promo-Moved :
    (kind : TransferKind) (key : Key) (user_id n : ℕ) (m : Metadata) (s : Db) (t : Transfer)
    (u : Db)
    → credit_from_promo kind key user_id n m s ≡ (ok t, u)
    → (w : ℕ) × HasWallet user_id s w
      × Moved house_promo_id w n s t u
      × (where_rows (has_key key) u.transfers ≡ t ∷ [])
unfolding credit_from_promo promo_credit
credit_from_promo-Moved kind key user_id n m s t u h =
    let h' = begin-eq-ok (promo_credit kind key user_id n m) s h in
    let (w, has, h1) = resolve_user_wallet_id-then {s = record s { locks = [] }} user_id _ h' in
    let (_, s1, q, _, h2) = locked-then (sorted_pair house_promo_id w) _ h1 in
    let p = post_transfer-Posted kind (some key) none house_promo_id w n m s1 t u h2 in
    (w, has, Posted-Moved (Untouched-LedgerSame q) p, new_key-only key p)

existing_transfer-eq :
    (key : Key) (s : Db) {t : Transfer} {u : Db}
    → existing_transfer key s ≡ (ok t, u)
    → (where_rows (has_key key) s.transfers ≡ t ∷ []) × (u ≡ s)
unfolding existing_transfer scalar_one gets pure raise ◌>>=◌
existing_transfer-eq key s h = go (where_rows (has_key key) s.transfers) h
  where
    go :
        (l : List Transfer) {t : Transfer} {u : Db}
        → scalar_one l s ≡ (ok t, u)
        → (l ≡ t ∷ []) × (u ≡ s)
    go [] h = absurd (cc (ap (λ (p : Result Transfer × Db). p.0) h))
    go (x ∷ []) h = (ap (λ y. y ∷ []) (sym (returned h).0), (returned h).1)
    go (x ∷ y ∷ l) h = absurd (cc (ap (λ (p : Result Transfer × Db). p.0) h))

-- What a posting under a key did, the first time and again.
credited_once :
    (kind : TransferKind) (key : Key) (user_id n : ℕ) (m : Metadata) (s : Db) (t : Transfer)
    (u : Db)
    → on_unique_violation (credit_from_promo kind key user_id n m) (existing_transfer key) s
      ≡ (ok t, u)
    → (where_rows (has_key key) u.transfers ≡ t ∷ [])
      × ((u ≡ s) ⊎ ((w : ℕ) × HasWallet user_id s w × Moved house_promo_id w n s t u))
unfolding credit_from_promo
credited_once kind key user_id n m s t u h =
    elim (on_unique_violation-cases (credit_from_promo kind key user_id n m) (existing_transfer key)
      s h) [
        | inl posted ↦
            let (w, has, moved, one) = credit_from_promo-Moved kind key user_id n m s t u posted in
            (one, inr (w, has, moved))
        | inr (v, raised, found) ↦
            let same : v ≡ s = begin-eq-err (promo_credit kind key user_id n m) s raised in
            let (one, e) = existing_transfer-eq key v found in
            (ap (λ (z : Db). where_rows (has_key key) z.transfers) e ∙ one, inl (e ∙ same))
      ]

-- A recharge that returns was one with the house provider and a positive amount. The transfer it
-- returns is the only one under its key, and either nothing was written (the key was there), or
-- `house_promo` paid the amount to the user's only wallet.
pub recharge_once :
    (user_id : ℕ) (amount : ℤ) (text : String) (key : Key) (provider : PaymentProvider) (s : Db)
    (t : Transfer) (u : Db)
    → recharge user_id amount text key provider s ≡ (ok t, u)
    → (n : ℕ) × (amount ≡ pos n)
      × (provider ≡ house)
      × (where_rows (has_key key) u.transfers ≡ t ∷ [])
      × ((u ≡ s) ⊎ ((w : ℕ) × HasWallet user_id s w × Moved house_promo_id w n s t u))
unfolding recharge check_provider pure raise ◌>>=◌
recharge_once user_id amount text key house s t u h =
    let (n, e, _, h1) = positive-then amount _ h in
    let (one, moved) = credited_once Rows.recharge key user_id n (reason text) s t u h1 in
    (n, e, refl, one, moved)
recharge_once user_id amount text key stripe s t u h =
    absurd (cc (ap (λ (p : Result Transfer × Db). p.0) h))
recharge_once user_id amount text key unknown s t u h =
    absurd (cc (ap (λ (p : Result Transfer × Db). p.0) h))
