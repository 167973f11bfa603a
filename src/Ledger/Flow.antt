-- ===== src/Ledger/Flow.antt =====
-- The balances after a pass has posted its transfers (the loops over `specs` in
-- backend/app/settlement/service.py and backend/app/bets/service.py).
use xpredict.Prelude.{
  ℕ, ◌+◌, ◌≡◌, ap, ◌∙◌, ⊤, List, [], ◌∷◌, ◌++◌, ◌==◌, if◌then◌else◌, arith, Option, some,
}
use xpredict.Money.Errors.{ok}
use xpredict.Database.Rows.{Db, bet_leg}
use xpredict.Database.Keys.{Key, Leg}
use xpredict.Database.Tables.{account?, balance_or_zero}
use xpredict.Session.{pure}
use xpredict.Session.Inversion.{>>=-eq-ok, returned}
use xpredict.Wallet.{post_transfer}
use xpredict.Wallet.Posting.{balance, post_transfer-Posted}
use xpredict.Wallet.Flow.{Posted-balance}
use xpredict.Ledger.{TransferSpec, post_specs}

-- What the specs take from account `x`, and what they give it.
unfoldable pub paid_out : ℕ → List TransferSpec → ℕ
paid_out x [] = 0
paid_out x (p ∷ specs) = (if p.debit_id == x then p.amount else 0) + paid_out x specs

unfoldable pub paid_in : ℕ → List TransferSpec → ℕ
paid_in x [] = 0
paid_in x (p ∷ specs) = (if p.credit_id == x then p.amount else 0) + paid_in x specs

module _ (x : ℕ) where
  pub paid_out-append :
      (ps qs : List TransferSpec) → paid_out x (ps ++ qs) ≡ paid_out x ps + paid_out x qs
  unfolding paid_out
  paid_out-append [] qs = omega arith
  paid_out-append (p ∷ ps) qs = omega (arith, paid_out-append ps qs)

  pub paid_in-append :
      (ps qs : List TransferSpec) → paid_in x (ps ++ qs) ≡ paid_in x ps + paid_in x qs
  unfolding paid_in
  paid_in-append [] qs = omega arith
  paid_in-append (p ∷ ps) qs = omega (arith, paid_in-append ps qs)

-- Each balance moves by what the specs give it less what they take from it.
pub post_specs-flow :
    (key : ℕ → Leg → Key) (actor : Option ℕ) (m : ℕ) (specs : List TransferSpec) (s : Db) (a : ⊤)
    (u : Db)
    → post_specs key actor m specs s ≡ (ok a, u)
    → (x : ℕ) → balance x u + paid_out x specs ≡ balance x s + paid_in x specs
unfolding post_specs paid_out paid_in pure
post_specs-flow key actor m [] s a u h x =
    ap (λ (v : Db). balance_or_zero (account? x v.accounts) + 0) (returned h).1
post_specs-flow key actor m (p ∷ specs) s a u h x =
    let (t, v, h1, h2) =
      >>=-eq-ok
        (post_transfer p.kind (some (key p.bet_id p.leg)) actor p.debit_id p.credit_id p.amount
          (bet_leg p.bet_id m))
        (λ _. post_specs key actor m specs) s h in
    let posted =
      post_transfer-Posted p.kind (some (key p.bet_id p.leg)) actor p.debit_id p.credit_id p.amount
        (bet_leg p.bet_id m) s t v h1 in
    omega (arith, Posted-balance posted x, post_specs-flow key actor m specs v a u h2 x)

-- The loop leaves the bets as they are.
pub post_specs-bets :
    (key : ℕ → Leg → Key) (actor : Option ℕ) (m : ℕ) (specs : List TransferSpec) (s : Db) (a : ⊤)
    (u : Db)
    → post_specs key actor m specs s ≡ (ok a, u)
    → u.bets ≡ s.bets
unfolding post_specs pure
post_specs-bets key actor m [] s a u h = ap (λ (v : Db). v.bets) (returned h).1
post_specs-bets key actor m (p ∷ specs) s a u h =
    let (t, v, h1, h2) =
      >>=-eq-ok
        (post_transfer p.kind (some (key p.bet_id p.leg)) actor p.debit_id p.credit_id p.amount
          (bet_leg p.bet_id m))
        (λ _. post_specs key actor m specs) s h in
    let posted =
      post_transfer-Posted p.kind (some (key p.bet_id p.leg)) actor p.debit_id p.credit_id p.amount
        (bet_leg p.bet_id m) s t v h1 in
    post_specs-bets key actor m specs v a u h2 ∙ ap (λ (v : Db). v.bets) posted.after
