-- ===== src/Settlement/Service/Refunds.antt =====
-- Who gives back what in a reversal: the legs of `SettlementService.reverse_settlement`
-- (backend/app/settlement/service.py).
use mathlib.Core.Path.{subst}
use xpredict.Prelude.{
  ℕ, ◌+◌, ◌-◌, ◌≡◌, refl, ap, sym, ◌∙◌, Bool, true, false, List, [], ◌∷◌, ◌++◌, ◌==◌, if◌then◌else◌,
  arith,
}
use xpredict.Money.{compute_payout}
use xpredict.Money.Errors.{Result, ok, err}
use xpredict.Money.Rounding.{compute_payout-IsNearest, profit_or_loss-exact}
use xpredict.Database.Rows.{
  Db, Account, Bet, BetStatus, pending, settled_won, settled_lost, closed, house_promo_id,
  house_revenue_id,
}
use xpredict.Session.{pure}
use xpredict.Session.Inversion.{>>=-eq-ok, lift-then, returned}
use xpredict.Wallet.Queries.{resolve_user_wallet_id-then}
use xpredict.Ledger.{TransferSpec}
use xpredict.Ledger.Flow.{paid_out, paid_in, paid_out-append, paid_in-append}
use xpredict.Settlement.Service.{bet_reversal, reverse_specs, winner_reversal, loser_reversal}
use xpredict.Settlement.Service.Payments.{wallet_id, first_id, stakes, gain_lem}

abbrev pub is_won : BetStatus → Bool
is_won settled_won = true
is_won _ = false

abbrev pub payout_or_zero : Result ℕ → ℕ
payout_or_zero (ok p) = p
payout_or_zero (err e) = 0

-- What a bet was paid, computed again from its stake and its locked price.
abbrev pub payout_of : Bet → ℕ
payout_of b = payout_or_zero (compute_payout b.stake b.odds_at_placement)

-- What account `x` gives back, as the wallet of winners.
unfoldable pub given_back : ℕ → List Account → List Bet → ℕ
given_back x rows [] = 0
given_back x rows (b ∷ bets) =
    (if is_won b.status then (if wallet_id b.user_id rows == x then payout_of b else 0) else 0)
    + given_back x rows bets

-- The gains of the winners.
unfoldable pub gains : List Bet → ℕ
gains [] = 0
gains (b ∷ bets) = (if is_won b.status then payout_of b - b.stake else 0) + gains bets

-- The stakes of the losers.
unfoldable pub lost_stakes : List Bet → ℕ
lost_stakes [] = 0
lost_stakes (b ∷ bets) = (if is_won b.status then 0 else b.stake) + lost_stakes bets

-- The legs of one bet with status `st`.
record Refund (l : ℕ) (st : BetStatus) (b : Bet) (rows : List Account) (legs : List TransferSpec)
    : Type 0 where
  out :
      (x : ℕ)
      → paid_out x legs
        ≡ (if is_won st then (if wallet_id b.user_id rows == x then payout_of b else 0) else 0)
          + (if house_revenue_id == x then (if is_won st then 0 else b.stake) else 0)
  into :
      (x : ℕ)
      → paid_in x legs
        ≡ (if l == x then b.stake else 0)
          + (if house_promo_id == x then (if is_won st then payout_of b - b.stake else 0) else 0)

module _ (l : ℕ) (b : Bet) (rows : List Account) where
  winner_reversal-Refund :
      (v p : ℕ)
      → v ≡ wallet_id b.user_id rows
      → compute_payout b.stake b.odds_at_placement ≡ ok p
      → Refund l settled_won b rows (winner_reversal l v p b)
  unfolding paid_out paid_in
  winner_reversal-Refund v p at paid =
      let (_, least) = compute_payout-IsNearest b.stake b.odds_at_placement p paid in
      let gain = profit_or_loss-exact b.stake p ∙ gain_lem p b.stake least in
      record {
        out = λ x. rw (gain, paid, sym at) (ground (arith, least));
        into = λ x. rw (gain, paid) (ground (arith, least));
      }

  loser_reversal-Refund :
      (st : BetStatus) → is_won st ≡ false → Refund l st b rows (loser_reversal l b ∷ [])
  unfolding paid_out paid_in
  loser_reversal-Refund st lost = record {
    out = λ x. rw lost (ground arith);
    into = λ x. rw lost (ground arith);
  }

module _ (l : ℕ) (b : Bet) (s : Db) where
  -- The legs that the service derives for one bet; deriving them writes nothing.
  bet_reversal-Refund :
      (st : BetStatus) {legs : List TransferSpec} {t : Db}
      → bet_reversal st l b s ≡ (ok legs, t)
      → (t ≡ s) × Refund l st b s.accounts legs
  unfolding bet_reversal pure
  bet_reversal-Refund settled_won {legs} h =
      let (v, (a, found, e), h1) = resolve_user_wallet_id-then {s = s} b.user_id _ h in
      let (p, paid, h2) = lift-then {s = s} (compute_payout b.stake b.odds_at_placement) _ h1 in
      let (same_legs, same) = returned h2 in
      let at : v ≡ wallet_id b.user_id s.accounts = sym e ∙ sym (ap first_id found) in
      (same, rw same_legs (winner_reversal-Refund l b s.accounts v p at paid))
  bet_reversal-Refund pending h =
      let (same_legs, same) = returned h in
      (same, rw same_legs (loser_reversal-Refund l b s.accounts pending refl))
  bet_reversal-Refund settled_lost h =
      let (same_legs, same) = returned h in
      (same, rw same_legs (loser_reversal-Refund l b s.accounts settled_lost refl))
  bet_reversal-Refund closed h =
      let (same_legs, same) = returned h in
      (same, rw same_legs (loser_reversal-Refund l b s.accounts closed refl))

-- The legs of all the bets.
pub record Refunds (l : ℕ) (bets : List Bet) (rows : List Account) (specs : List TransferSpec)
    : Type 0 where
  pub out :
      (x : ℕ)
      → paid_out x specs
        ≡ given_back x rows bets + (if house_revenue_id == x then lost_stakes bets else 0)
  pub into :
      (x : ℕ)
      → paid_in x specs
        ≡ (if l == x then stakes bets else 0) + (if house_promo_id == x then gains bets else 0)

Refunds-append :
    {l : ℕ} {b : Bet} {bets : List Bet} {rows : List Account} {legs specs : List TransferSpec}
    → Refund l b.status b rows legs
    → Refunds l bets rows specs
    → Refunds l (b ∷ bets) rows (legs ++ specs)
unfolding stakes given_back gains lost_stakes
Refunds-append {legs = legs} {specs = specs} p q = record {
  out = λ x. ground (arith, paid_out-append x legs specs, p.out x, q.out x);
  into = λ x. ground (arith, paid_in-append x legs specs, p.into x, q.into x);
}

pub reverse_specs-Refunds :
    (l : ℕ) (bets : List Bet) (s : Db) {specs : List TransferSpec} {t : Db}
    → reverse_specs l bets s ≡ (ok specs, t)
    → (t ≡ s) × Refunds l bets s.accounts specs
unfolding reverse_specs stakes given_back gains lost_stakes paid_out paid_in pure
reverse_specs-Refunds l [] s h =
    let (e, e') = returned h in
    (e', rw e (record { out = λ x. ground arith; into = λ x. ground arith }))
reverse_specs-Refunds l (b ∷ bets) s {specs} {t} h =
    let (legs, s1, h1, h2) = >>=-eq-ok (bet_reversal b.status l b) _ s h in
    let (same, one) = bet_reversal-Refund l b s b.status h1 in
    let (rest, s2, h3, h4) = >>=-eq-ok (reverse_specs l bets) _ s1 h2 in
    let (same_rest, all) = reverse_specs-Refunds l bets s1 h3 in
    let (e, e') = returned h4 in
    (
      e' ∙ same_rest ∙ same,
      subst (Refunds l (b ∷ bets) s.accounts) (sym e)
          (Refunds-append one (subst (λ (v : Db). Refunds l bets v.accounts rest) same all)),
    )
