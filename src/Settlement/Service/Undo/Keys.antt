-- ===== src/Settlement/Service/Undo/Keys.antt =====
-- The idempotency keys that a settlement (backend/app/settlement/service.py) uses up.
use xpredict.Prelude.{ℕ, ◌≡◌, ap, ◌∙◌, ⊤, true, Option, some, List, [], ◌∷◌, ◌++◌, arith, Extends}
use xpredict.Money.Errors.{ok}
use xpredict.Database.Rows.{Db, Transfer, bet_leg}
use xpredict.Database.Keys.{Key, key_eq_self, settle}
use xpredict.Session.Inversion.{ok-rel, >>=-eq-ok}
use xpredict.Wallet.{has_key, key_taken, post_transfer}
use xpredict.Wallet.Flow.{Sound}
use xpredict.Wallet.Posting.{post_transfer-Posted}
use xpredict.Ledger.{TransferSpec, post_specs}
use xpredict.Ledger.Soundness.{Does-post_specs}

-- The key of the first leg is taken.
abbrev pub FirstTaken : List TransferSpec → List Transfer → Type 0
FirstTaken [] ts = ⊤
FirstTaken (p ∷ specs) ts = key_taken (some (settle p.bet_id p.leg)) ts ≡ true

key_taken-append :
    (k : Key) (ts us : List Transfer)
    → key_taken (some k) ts ≡ true
    → key_taken (some k) (ts ++ us) ≡ true
unfolding key_taken
key_taken-append k [] us h = absurd (cc h)
key_taken-append k (t ∷ ts) us h = ground (arith, key_taken-append k ts us)

key_taken-snoc :
    (k : Key) (ts : List Transfer) (t : Transfer)
    → has_key k t ≡ true
    → key_taken (some k) (ts ++ t ∷ []) ≡ true
unfolding key_taken
key_taken-snoc k [] t h = ground (arith, h)
key_taken-snoc k (x ∷ ts) t h = ground (arith, key_taken-snoc k ts t h)

pub FirstTaken-Extends :
    (specs : List TransferSpec) (ts us : List Transfer)
    → Extends ts us
    → FirstTaken specs ts
    → FirstTaken specs us
FirstTaken-Extends [] ts us x h = tt
FirstTaken-Extends (p ∷ specs) ts us (more, e) h =
    ap (key_taken (some (settle p.bet_id p.leg))) e
    ∙ key_taken-append (settle p.bet_id p.leg) ts more h

-- A pass that has posted its legs has taken the key of the first.
pub post_specs-FirstTaken :
    (actor : Option ℕ) (m : ℕ) (specs : List TransferSpec) (s : Db) (a : ⊤) (u : Db)
    → post_specs settle actor m specs s ≡ (ok a, u)
    → FirstTaken specs u.transfers
unfolding post_specs
post_specs-FirstTaken actor m [] s a u h = tt
post_specs-FirstTaken actor m (p ∷ specs) s a u h =
    let (t, v, h1, h2) =
      >>=-eq-ok
        (post_transfer p.kind (some (settle p.bet_id p.leg)) actor p.debit_id p.credit_id p.amount
          (bet_leg p.bet_id m))
        (λ _. post_specs settle actor m specs) s h in
    let posted =
      post_transfer-Posted p.kind (some (settle p.bet_id p.leg)) actor p.debit_id p.credit_id
        p.amount (bet_leg p.bet_id m) s t v h1 in
    let taken : key_taken (some (settle p.bet_id p.leg)) v.transfers ≡ true =
      ap (λ (z : Db). key_taken (some (settle p.bet_id p.leg)) z.transfers) posted.after
      ∙ key_taken-snoc (settle p.bet_id p.leg) s.transfers _
          (key_eq_self (settle p.bet_id p.leg)) in
    let sound_rest : Sound v u = ok-rel (Does-post_specs settle actor m specs) h2 in
    FirstTaken-Extends (p ∷ specs) v.transfers u.transfers sound_rest.transfers_kept taken
