-- ===== src/Settlement/Plan/Correct.antt =====
-- What `build_settlement_plan` of backend/app/settlement/plan.py returns, and when it raises.
use xpredict.Prelude.{
  ℕ, ◌+◌, ◌≡◌, refl, ap, sym, ◌∙◌, Bool, true, false, List, [], ◌∷◌, ◌++◌, ◌==◌, if◌then◌else◌,
  arith, inl, inr, Bool-cases, ltb, leb, ◌&&◌,
}
use mathlib.Core.Path.{subst}
use mathlib.Core.List.{append_assoc, append-nil}
use xpredict.Prelude.Int.{pos, ◌-ℤ◌}
use xpredict.Money.{one_price, quantize_money, compute_payout, profit_or_loss}
use xpredict.Money.Errors.{Error, ok, err, and_then, Result-cases, value_error}
use xpredict.Money.Rounding.{compute_payout-ok, profit_or_loss-exact}
use xpredict.Database.Rows.{settled_won, settled_lost}
use xpredict.Settlement.Plan.{
  BetToSettle, SettledBet, SettlementPlan, winner, loser, settle_bet, settle_bets,
  build_settlement_plan,
}

-- The rules of settlement for one bet, when outcome `w` won: a winner is paid what
-- `compute_payout` says, a loser nothing, and the P&L is what is paid less the stake.
pub record SettlesAs (w : ℕ) (bet : BetToSettle) (sb : SettledBet) : Type 0 where
  pub same_bet : sb.bet_id ≡ bet.bet_id
  pub won_iff : sb.won ≡ (bet.outcome_id == w)
  pub winner_paid : sb.won ≡ true → compute_payout bet.stake bet.price ≡ ok sb.payout
  pub loser_paid : sb.won ≡ false → sb.payout ≡ 0
  pub pnl_is : sb.pnl ≡ pos sb.payout -ℤ pos bet.stake
  pub status_is : sb.status ≡ (if sb.won then settled_won else settled_lost)

-- One result for each bet, in the order of the bets.
abbrev pub SettlesAll : ℕ → List BetToSettle → List SettledBet → Type 0
SettlesAll w [] sbs = sbs ≡ []
SettlesAll w (bet ∷ bets) sbs =
    (sb : SettledBet) × (rest : List SettledBet) × (sbs ≡ sb ∷ rest)
    × SettlesAs w bet sb
    × SettlesAll w bets rest

unfoldable pub payouts : List SettledBet → ℕ
payouts [] = 0
payouts (sb ∷ sbs) = sb.payout + payouts sbs

-- What the bets on other outcomes staked.
unfoldable pub losing_stakes : ℕ → List BetToSettle → ℕ
losing_stakes w [] = 0
losing_stakes w (bet ∷ bets) = (if bet.outcome_id == w then 0 else bet.stake) + losing_stakes w bets

quantized : (n : ℕ) → quantize_money n 1 ≡ n
unfolding quantize_money
quantized n = ground arith

ok-injective : {A : Type 0} (a b : A) → ok a ≡ ok b → a ≡ b
ok-injective a b h = cc h

abbrev won_result : BetToSettle → ℕ → SettledBet
won_result bet payout = record {
  bet_id = bet.bet_id;
  won = true;
  payout = payout;
  pnl = profit_or_loss bet.stake payout;
  status = settled_won;
}

abbrev lost_result : BetToSettle → SettledBet
lost_result bet = record {
  bet_id = bet.bet_id;
  won = false;
  payout = 0;
  pnl = profit_or_loss bet.stake 0;
  status = settled_lost;
}

-- The next value of the loop's variables, after a winner and after a loser.
abbrev after_winner : SettlementPlan → BetToSettle → ℕ → SettlementPlan
after_winner acc bet payout = record acc {
  settled = acc.settled ++ won_result bet payout ∷ [];
  total_payout = acc.total_payout + payout;
}

abbrev after_loser : SettlementPlan → BetToSettle → SettlementPlan
after_loser acc bet = record acc {
  settled = acc.settled ++ lost_result bet ∷ [];
  total_loser_stake = acc.total_loser_stake + bet.stake;
}

module _ (acc : SettlementPlan) (bet : BetToSettle) where
  settle_bet-won :
      (p : ℕ)
      → (bet.outcome_id == acc.winning_outcome_id) ≡ true
      → compute_payout bet.stake bet.price ≡ ok p
      → settle_bet acc bet ≡ ok (after_winner acc bet p)
  unfolding settle_bet winner
  settle_bet-won p won hp = rw (won, hp) refl

  settle_bet-won_raises :
      (e : Error)
      → (bet.outcome_id == acc.winning_outcome_id) ≡ true
      → compute_payout bet.stake bet.price ≡ err e
      → settle_bet acc bet ≡ err e
  unfolding settle_bet winner
  settle_bet-won_raises e won hp = rw (won, hp) refl

  settle_bet-lost :
      (bet.outcome_id == acc.winning_outcome_id) ≡ false
      → settle_bet acc bet ≡ ok (after_loser acc bet)
  unfolding settle_bet loser
  settle_bet-lost lost = rw (lost, quantized 0) refl

won_result-SettlesAs :
    (w : ℕ) (bet : BetToSettle) (p : ℕ)
    → (bet.outcome_id == w) ≡ true
    → compute_payout bet.stake bet.price ≡ ok p
    → SettlesAs w bet (won_result bet p)
won_result-SettlesAs w bet p won hp = record {
  same_bet = refl;
  won_iff = sym won;
  winner_paid = λ _. hp;
  loser_paid = λ h. absurd (cc h);
  pnl_is = profit_or_loss-exact bet.stake p;
  status_is = refl;
}

lost_result-SettlesAs :
    (w : ℕ) (bet : BetToSettle) → (bet.outcome_id == w) ≡ false → SettlesAs w bet (lost_result bet)
lost_result-SettlesAs w bet lost = record {
  same_bet = refl;
  won_iff = sym lost;
  winner_paid = λ h. absurd (cc h);
  loser_paid = λ _. refl;
  pnl_is = profit_or_loss-exact bet.stake 0;
  status_is = refl;
}

-- One turn of the loop.
record Turn (acc next : SettlementPlan) (bet : BetToSettle) : Type 0 where
  sb : SettledBet
  settles : SettlesAs acc.winning_outcome_id bet sb
  same_winner : next.winning_outcome_id ≡ acc.winning_outcome_id
  settled : next.settled ≡ acc.settled ++ sb ∷ []
  paid : next.total_payout ≡ acc.total_payout + sb.payout
  lost :
      next.total_loser_stake
      ≡ acc.total_loser_stake + (if bet.outcome_id == acc.winning_outcome_id then 0 else bet.stake)

settle_bet-Turn :
    (acc next : SettlementPlan) (bet : BetToSettle)
    → settle_bet acc bet ≡ ok next
    → Turn acc next bet
settle_bet-Turn acc next bet h = elim (Bool-cases (bet.outcome_id == acc.winning_outcome_id)) [
  | inl won ↦ elim (Result-cases (compute_payout bet.stake bet.price)) [
    | inl (p, hp) ↦
        let e : next ≡ after_winner acc bet p =
          ok-injective _ _ (sym h ∙ settle_bet-won acc bet p won hp) in
        record {
          sb = won_result bet p;
          settles = won_result-SettlesAs acc.winning_outcome_id bet p won hp;
          same_winner = rw e refl;
          settled = rw e refl;
          paid = rw e refl;
          lost = rw (e, won) (omega arith);
        }
    | inr (x, hx) ↦ absurd (cc (sym h ∙ settle_bet-won_raises acc bet x won hx))
  ]
  | inr lost ↦
      let e : next ≡ after_loser acc bet =
        ok-injective _ _ (sym h ∙ settle_bet-lost acc bet lost) in
      record {
        sb = lost_result bet;
        settles = lost_result-SettlesAs acc.winning_outcome_id bet lost;
        same_winner = rw e refl;
        settled = rw e refl;
        paid = rw e (omega arith);
        lost = rw (e, lost) refl;
      }
]

-- The loop from any values of its variables.
record Looped (acc last : SettlementPlan) (bets : List BetToSettle) : Type 0 where
  results : List SettledBet
  settles : SettlesAll acc.winning_outcome_id bets results
  same_winner : last.winning_outcome_id ≡ acc.winning_outcome_id
  settled : last.settled ≡ acc.settled ++ results
  paid : last.total_payout ≡ acc.total_payout + payouts results
  lost : last.total_loser_stake ≡ acc.total_loser_stake + losing_stakes acc.winning_outcome_id bets

Looped-cons :
    (acc next last : SettlementPlan) (bet : BetToSettle) (bets : List BetToSettle)
    → Turn acc next bet
    → Looped next last bets
    → Looped acc last (bet ∷ bets)
unfolding payouts losing_stakes
Looped-cons acc next last bet bets turn loop =
    let settles : SettlesAll acc.winning_outcome_id bets loop.results =
      subst (λ w. SettlesAll w bets loop.results) turn.same_winner loop.settles in
    let lost : last.total_loser_stake
        ≡ next.total_loser_stake + losing_stakes acc.winning_outcome_id bets =
      loop.lost ∙ ap (λ w. next.total_loser_stake + losing_stakes w bets) turn.same_winner in
    record {
      results = turn.sb ∷ loop.results;
      settles = (turn.sb, loop.results, refl, turn.settles, settles);
      same_winner = loop.same_winner ∙ turn.same_winner;
      settled =
          loop.settled
          ∙ ap (λ l. l ++ loop.results) turn.settled
          ∙ append_assoc acc.settled (turn.sb ∷ []) loop.results;
      paid = omega (arith, loop.paid, turn.paid);
      lost = omega (arith, lost, turn.lost);
    }

settle_bets-Looped :
    (acc last : SettlementPlan) (bets : List BetToSettle)
    → settle_bets acc bets ≡ ok last
    → Looped acc last bets
unfolding settle_bets payouts losing_stakes
settle_bets-Looped acc last [] h =
    let e : last ≡ acc = ok-injective _ _ (sym h) in
    record {
      results = [];
      settles = refl;
      same_winner = rw e refl;
      settled = rw e (sym (append-nil acc.settled));
      paid = rw e (omega arith);
      lost = rw e (omega arith);
    }
settle_bets-Looped acc last (bet ∷ bets) h = elim (Result-cases (settle_bet acc bet)) [
  | inr (x, hx) ↦ absurd (cc (sym h ∙ ap (λ r. and_then r (λ next. settle_bets next bets)) hx))
  | inl (next, hn) ↦ Looped-cons acc next last bet bets (settle_bet-Turn acc next bet hn) (
      settle_bets-Looped next last bets
        (sym (ap (λ r. and_then r (λ n. settle_bets n bets)) hn) ∙ h))
]

abbrev start : ℕ → SettlementPlan
start w = record { winning_outcome_id = w; settled = []; total_payout = 0; total_loser_stake = 0 }

abbrev finish : SettlementPlan → SettlementPlan
finish acc = record acc {
  total_payout = quantize_money acc.total_payout 1;
  total_loser_stake = quantize_money acc.total_loser_stake 1;
}

-- A plan has one result for each bet, in their order: a bet on the winning outcome is paid by
-- `compute_payout`, any other is paid nothing. Its totals are the sum of the payouts and the sum of
-- the losing stakes, exactly.
pub build_settlement_plan_correct :
    (bets : List BetToSettle) (w : ℕ) (plan : SettlementPlan)
    → build_settlement_plan bets w ≡ ok plan
    → (plan.winning_outcome_id ≡ w)
      × SettlesAll w bets plan.settled
      × (plan.total_payout ≡ payouts plan.settled)
      × (plan.total_loser_stake ≡ losing_stakes w bets)
unfolding build_settlement_plan
build_settlement_plan_correct bets w plan h = elim (Result-cases (settle_bets (start w) bets)) [
  | inr (x, hx) ↦ absurd (cc (sym h ∙ ap (λ r. and_then r (λ acc. ok (finish acc))) hx))
  | inl (last, hl) ↦
      finished (settle_bets-Looped (start w) last bets hl)
        (ok-injective plan (finish last) (sym h ∙ ap (λ r. and_then r (λ acc. ok (finish acc))) hl))
]
  where
    finished :
        {last : SettlementPlan}
        → Looped (start w) last bets
        → plan ≡ finish last
        → (plan.winning_outcome_id ≡ w)
          × SettlesAll w bets plan.settled
          × (plan.total_payout ≡ payouts plan.settled)
          × (plan.total_loser_stake ≡ losing_stakes w bets)
    finished {last} loop e =
        let results : plan.settled ≡ loop.results =
          ap (λ (p : SettlementPlan). p.settled) e ∙ loop.settled in
        (
          ap (λ (p : SettlementPlan). p.winning_outcome_id) e ∙ loop.same_winner,
          subst (SettlesAll w bets) (sym results) loop.settles,
          omega (
            arith,
            ap (λ (p : SettlementPlan). p.total_payout) e,
            quantized last.total_payout,
            loop.paid,
            ap payouts results,
          ),
          omega (
            arith,
            ap (λ (p : SettlementPlan). p.total_loser_stake) e,
            quantized last.total_loser_stake,
            loop.lost,
          ),
        )

-- The bet can be settled when outcome `w` won.
abbrev pub is_payable : ℕ → BetToSettle → Bool
is_payable w bet =
    if bet.outcome_id == w
    then ltb 0 bet.stake && ltb 0 bet.price && leb bet.price one_price
    else true

unfoldable pub all_payable : ℕ → List BetToSettle → Bool
all_payable w [] = true
all_payable w (bet ∷ bets) = is_payable w bet && all_payable w bets

settle_bet-payable :
    (acc : SettlementPlan) (bet : BetToSettle)
    → is_payable acc.winning_outcome_id bet ≡ true
    → (next : SettlementPlan) × (settle_bet acc bet ≡ ok next)
      × (next.winning_outcome_id ≡ acc.winning_outcome_id)
settle_bet-payable acc bet h = elim (Bool-cases (bet.outcome_id == acc.winning_outcome_id)) [
  | inr lost ↦ (after_loser acc bet, settle_bet-lost acc bet lost, refl)
  | inl won ↦ (
    _,
    settle_bet-won acc bet _ won
        (compute_payout-ok bet.stake bet.price (ground arith) (ground arith) (ground arith)),
    refl,
  )
]

settle_bet-unpayable :
    (acc : SettlementPlan) (bet : BetToSettle)
    → is_payable acc.winning_outcome_id bet ≡ false
    → settle_bet acc bet ≡ err value_error
unfolding compute_payout
settle_bet-unpayable acc bet h = elim (Bool-cases (bet.outcome_id == acc.winning_outcome_id)) [
  | inr lost ↦ absurd (ground arith)
  | inl won ↦ settle_bet-won_raises acc bet value_error won (raised won)
]
  where
    raised :
        (bet.outcome_id == acc.winning_outcome_id) ≡ true
        → compute_payout bet.stake bet.price ≡ err value_error
    raised won = ground arith

settle_bets-total :
    (acc : SettlementPlan) (bets : List BetToSettle)
    → if all_payable acc.winning_outcome_id bets
      then ((last : SettlementPlan) × (settle_bets acc bets ≡ ok last))
      else (settle_bets acc bets ≡ err value_error)
unfolding settle_bets all_payable
settle_bets-total acc [] = (acc, refl)
settle_bets-total acc (bet ∷ bets) = elim (Bool-cases (is_payable acc.winning_outcome_id bet)) [
  | inr bad ↦ rw (bad, settle_bet-unpayable acc bet bad) refl
  | inl good ↦
      let (next, hn, w) = settle_bet-payable acc bet good in
      let rest = settle_bets-total next bets in
      rw (good, hn)
        (subst
          (λ v.
            if all_payable v bets
            then ((last : SettlementPlan) × (settle_bets next bets ≡ ok last))
            else (settle_bets next bets ≡ err value_error))
          w rest)
]

-- A plan is made exactly when every bet on the winning outcome has a positive stake and a price in
-- (0, 1]. One winning bet that was placed at the price 0 makes the whole plan raise ValueError.
pub build_settlement_plan_total :
    (bets : List BetToSettle) (w : ℕ)
    → if all_payable w bets
      then ((plan : SettlementPlan) × (build_settlement_plan bets w ≡ ok plan))
      else (build_settlement_plan bets w ≡ err value_error)
unfolding build_settlement_plan
build_settlement_plan_total bets w = go (all_payable w bets) (settle_bets-total (start w) bets)
  where
    go :
        (b : Bool)
        → (if b
            then ((last : SettlementPlan) × (settle_bets (start w) bets ≡ ok last))
            else (settle_bets (start w) bets ≡ err value_error))
        → if b
          then ((plan : SettlementPlan) × (build_settlement_plan bets w ≡ ok plan))
          else (build_settlement_plan bets w ≡ err value_error)
    go true (last, h) = (finish last, ap (λ r. and_then r (λ acc. ok (finish acc))) h)
    go false h = ap (λ r. and_then r (λ acc. ok (finish acc))) h
