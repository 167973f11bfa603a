-- ===== src/Settlement/Service/Undo/Amounts.antt =====
-- What a reversal recomputes from the settled bets is what the settlement took from the plan
-- (backend/app/settlement/service.py).
use mathlib.Core.Path.{subst}
use xpredict.Prelude.{
  ℕ, ◌≡◌, refl, ap, sym, ◌∙◌, Bool, true, false, List, [], ◌∷◌, map, if◌then◌else◌, where_rows,
  arith, Bool-cases, inl, inr,
}
use xpredict.Database.Rows.{Account, Bet, BetStatus, settled_won, settled_lost}
use xpredict.Wallet.{is_wallet_of}
use xpredict.Ledger.Owners.{owners, where_wallet-owners}
use xpredict.Settlement.Plan.{SettledBet}
use xpredict.Settlement.Plan.Correct.{SettlesAs, SettlesAll, losing_stakes}
use xpredict.Settlement.Service.{to_settle}
use xpredict.Settlement.Service.Payments.{first_id, wallet_id, stakes, winnings, payouts_to}
use xpredict.Settlement.Service.Refunds.{
  is_won, payout_of, payout_or_zero, given_back, gains, lost_stakes,
}
use xpredict.Settlement.Service.Statuses.{statuses, with_statuses}

first_id-owners : (rows : List Account) → first_id (owners rows) ≡ first_id rows
first_id-owners [] = refl
first_id-owners (a ∷ rows) = refl

pub wallet_id-owners :
    (user : ℕ) (rows rows' : List Account)
    → owners rows' ≡ owners rows
    → wallet_id user rows' ≡ wallet_id user rows
wallet_id-owners user rows rows' h =
    sym (first_id-owners (where_rows (is_wallet_of user) rows'))
    ∙ ap first_id (where_wallet-owners user rows rows' h)
    ∙ first_id-owners (where_rows (is_wallet_of user) rows)

is_won_lem :
    (won : Bool) (st : BetStatus)
    → st ≡ (if won then settled_won else settled_lost)
    → is_won st ≡ won
is_won_lem true st e = ap is_won e
is_won_lem false st e = ap is_won e

-- The sums of a reversal over the settled bets, as those of the settlement.
pub record SameAmounts (w : ℕ) (sbs : List SettledBet) (bets : List Bet) (rows rows' : List Account)
    : Type 0 where
  pub stakes_same : stakes (with_statuses (statuses sbs) bets) ≡ stakes bets
  pub gains_same : gains (with_statuses (statuses sbs) bets) ≡ winnings sbs bets
  pub lost_same :
      lost_stakes (with_statuses (statuses sbs) bets) ≡ losing_stakes w (map to_settle bets)
  pub payouts_same :
      (x : ℕ) → given_back x rows' (with_statuses (statuses sbs) bets) ≡ payouts_to x rows sbs bets

module _ (w : ℕ) (rows rows' : List Account) (h : owners rows' ≡ owners rows) where
  SameAmounts-cons :
      (sb : SettledBet) (sbs : List SettledBet) (b : Bet) (bets : List Bet)
      → SettlesAs w (to_settle b) sb
      → SameAmounts w sbs bets rows rows'
      → SameAmounts w (sb ∷ sbs) (b ∷ bets) rows rows'
  unfolding stakes winnings payouts_to losing_stakes given_back gains lost_stakes
  SameAmounts-cons sb sbs b bets p q =
      let won = is_won_lem sb.won sb.status p.status_is in
      let wallet = wallet_id-owners b.user_id rows rows' h in
      let paid : sb.won ≡ true → payout_of b ≡ sb.payout =
        λ e. ap payout_or_zero (p.winner_paid e) in
      elim (Bool-cases sb.won) [
        | inl e ↦ record {
          stakes_same = omega (arith, q.stakes_same);
          gains_same = rw (won, e, paid e) (omega (arith, q.gains_same));
          lost_same = rw (won, ← p.won_iff, e) (omega (arith, q.lost_same));
          payouts_same = λ x. rw (won, e, paid e, wallet) (omega (arith, q.payouts_same x));
        }
        | inr e ↦ record {
          stakes_same = omega (arith, q.stakes_same);
          gains_same = rw (won, e) (omega (arith, q.gains_same));
          lost_same = rw (won, ← p.won_iff, e) (omega (arith, q.lost_same));
          payouts_same = λ x. rw (won, e) (omega (arith, q.payouts_same x));
        }
      ]

  pub SameAmounts_lem :
      (sbs : List SettledBet) (bets : List Bet)
      → SettlesAll w (map to_settle bets) sbs
      → SameAmounts w sbs bets rows rows'
  unfolding stakes winnings payouts_to losing_stakes given_back gains lost_stakes
  SameAmounts_lem [] [] all = record {
    stakes_same = refl;
    gains_same = refl;
    lost_same = refl;
    payouts_same = λ x. refl;
  }
  SameAmounts_lem (sb ∷ sbs) [] all = absurd (cc all)
  SameAmounts_lem [] (b ∷ bets) (sb, rest, e, p, all) = absurd (cc e)
  SameAmounts_lem (sb ∷ sbs) (b ∷ bets) (sb', rest, e, p, all) =
      let same : sb ≡ sb' = cc e in
      let same_rest : sbs ≡ rest = cc e in
      SameAmounts-cons sb sbs b bets (subst (SettlesAs w (to_settle b)) (sym same) p)
        (SameAmounts_lem sbs bets (subst (SettlesAll w (map to_settle bets)) (sym same_rest) all))
