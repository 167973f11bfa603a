-- ===== src/Settlement/Service/Payments.antt =====
-- Who pays whom in a settlement: the legs of `SettlementService.resolve_market`
-- (backend/app/settlement/service.py) against the rules of the plan.
use mathlib.Core.Path.{subst}
use xpredict.Prelude.{
  ℕ, ◌+◌, ◌-◌, ◌≤◌, ◌≡◌, refl, ap, sym, ◌∙◌, Bool, true, false, List, [], ◌∷◌, ◌++◌, map, ◌==◌,
  if◌then◌else◌, where_rows, arith,
}
use xpredict.Prelude.Int.{pos, ◌-ℤ◌}
use xpredict.Money.Errors.{ok}
use xpredict.Money.Rounding.{compute_payout-IsNearest}
use xpredict.Database.Rows.{Db, Account, Bet, house_promo_id, house_revenue_id}
use xpredict.Session.{pure, ◌>>=◌}
use xpredict.Session.Inversion.{>>=-eq-ok, returned}
use xpredict.Wallet.{is_wallet_of}
use xpredict.Wallet.Queries.{resolve_user_wallet_id-then}
use xpredict.Ledger.{TransferSpec}
use xpredict.Ledger.Flow.{paid_out, paid_in, paid_out-append, paid_in-append}
use xpredict.Settlement.Plan.{SettledBet}
use xpredict.Settlement.Plan.Correct.{SettlesAs, SettlesAll, losing_stakes}
use xpredict.Settlement.Service.{
  to_settle, winner_specs, loser_spec, winner_legs, bet_specs, settle_specs,
}

abbrev pub first_id : List Account → ℕ
first_id [] = 0
first_id (a ∷ rows) = a.id

-- The wallet of a user.
abbrev pub wallet_id : ℕ → List Account → ℕ
wallet_id user rows = first_id (where_rows (is_wallet_of user) rows)

unfoldable pub stakes : List Bet → ℕ
stakes [] = 0
stakes (b ∷ bets) = b.stake + stakes bets

-- What the winners gain over their stakes, which the house pays.
unfoldable pub winnings : List SettledBet → List Bet → ℕ
winnings [] bets = 0
winnings (sb ∷ sbs) [] = 0
winnings (sb ∷ sbs) (b ∷ bets) = (if sb.won then sb.payout - b.stake else 0) + winnings sbs bets

-- What is paid to account `x` as the wallet of winners.
unfoldable pub payouts_to : ℕ → List Account → List SettledBet → List Bet → ℕ
payouts_to x rows [] bets = 0
payouts_to x rows (sb ∷ sbs) [] = 0
payouts_to x rows (sb ∷ sbs) (b ∷ bets) =
    (if sb.won then (if wallet_id b.user_id rows == x then sb.payout else 0) else 0)
    + payouts_to x rows sbs bets

-- The legs of one bet.
record Legs (l w : ℕ) (sb : SettledBet) (b : Bet) (rows : List Account) (legs : List TransferSpec)
    : Type 0 where
  out :
      (x : ℕ)
      → paid_out x legs
        ≡ (if l == x then b.stake else 0)
          + (if house_promo_id == x then (if sb.won then sb.payout - b.stake else 0) else 0)
  into :
      (x : ℕ)
      → paid_in x legs
        ≡ (if sb.won then (if wallet_id b.user_id rows == x then sb.payout else 0) else 0)
          + (if house_revenue_id == x then (if b.outcome_id == w then 0 else b.stake) else 0)

pub gain_lem : (p q : ℕ) → q ≤ p → pos p -ℤ pos q ≡ pos (p - q)
unfolding ◌-ℤ◌
gain_lem p q h = ground arith

module _ (l w v : ℕ) (sb : SettledBet) (b : Bet) (rows : List Account)
    (settles : SettlesAs w (to_settle b) sb) where
  winner_specs-Legs :
      sb.won ≡ true → v ≡ wallet_id b.user_id rows → Legs l w sb b rows (winner_specs l v sb b)
  unfolding paid_out paid_in
  winner_specs-Legs won at =
      let (_, least) =
        compute_payout-IsNearest b.stake b.odds_at_placement sb.payout (settles.winner_paid won) in
      let gain = settles.pnl_is ∙ gain_lem sb.payout b.stake least in
      record {
        out = λ x. rw (gain, won) (ground (arith, least));
        into = λ x. rw (gain, won, sym at) (ground (arith, least, sym settles.won_iff ∙ won));
      }

  loser_spec-Legs : sb.won ≡ false → Legs l w sb b rows (loser_spec l b ∷ [])
  unfolding paid_out paid_in
  loser_spec-Legs lost = record {
    out = λ x. ground arith;
    into = λ x. ground (arith, settles.won_iff);
  }

module _ (l w : ℕ) (sb : SettledBet) (b : Bet) (s : Db) where
  winner_legs-Legs :
      {legs : List TransferSpec} {t : Db}
      → SettlesAs w (to_settle b) sb
      → sb.won ≡ true
      → winner_legs l sb b s ≡ (ok legs, t)
      → (t ≡ s) × Legs l w sb b s.accounts legs
  unfolding winner_legs
  winner_legs-Legs settles won h =
      let (v, (a, found, e), h1) =
        resolve_user_wallet_id-then b.user_id (λ v. pure (winner_specs l v sb b)) h in
      let (same_legs, same) = returned h1 in
      let at : v ≡ wallet_id b.user_id s.accounts = sym e ∙ sym (ap first_id found) in
      (same, rw same_legs (winner_specs-Legs l w v sb b s.accounts settles won at))

  -- The legs that the service derives for one bet; deriving them writes nothing.
  bet_specs-Legs :
      {legs : List TransferSpec} {t : Db}
      → SettlesAs w (to_settle b) sb
      → bet_specs l sb b s ≡ (ok legs, t)
      → (t ≡ s) × Legs l w sb b s.accounts legs
  unfolding bet_specs pure
  bet_specs-Legs {legs} {t} settles h = go sb.won refl h
    where
      go :
          (c : Bool)
          → sb.won ≡ c
          → (if c then winner_legs l sb b else pure (loser_spec l b ∷ [])) s ≡ (ok legs, t)
          → (t ≡ s) × Legs l w sb b s.accounts legs
      go true won k = winner_legs-Legs settles won k
      go false lost k =
          let (same_legs, same) = returned k in
          (same, rw same_legs (loser_spec-Legs l w 0 sb b s.accounts settles lost))

-- The legs of all the bets.
pub record AllLegs (l w : ℕ) (sbs : List SettledBet) (bets : List Bet) (rows : List Account)
    (specs : List TransferSpec) : Type 0 where
  pub out :
      (x : ℕ)
      → paid_out x specs
        ≡ (if l == x then stakes bets else 0)
          + (if house_promo_id == x then winnings sbs bets else 0)
  pub into :
      (x : ℕ)
      → paid_in x specs
        ≡ payouts_to x rows sbs bets
          + (if house_revenue_id == x then losing_stakes w (map to_settle bets) else 0)

AllLegs-append :
    {l w : ℕ} {sb : SettledBet} {sbs : List SettledBet} {b : Bet} {bets : List Bet}
    {rows : List Account} {legs specs : List TransferSpec}
    → Legs l w sb b rows legs
    → AllLegs l w sbs bets rows specs
    → AllLegs l w (sb ∷ sbs) (b ∷ bets) rows (legs ++ specs)
unfolding stakes winnings payouts_to losing_stakes
AllLegs-append {legs = legs} {specs = specs} p q = record {
  out = λ x. ground (arith, paid_out-append x legs specs, p.out x, q.out x);
  into = λ x. ground (arith, paid_in-append x legs specs, p.into x, q.into x);
}

AllLegs-cons :
    (l w : ℕ) (sb : SettledBet) (sbs : List SettledBet) (b : Bet) (bets : List Bet) (s : Db)
    {specs : List TransferSpec} {t : Db}
    → SettlesAs w (to_settle b) sb
    → ((rest : List TransferSpec) (v : Db)
        → settle_specs l sbs bets s ≡ (ok rest, v)
        → (v ≡ s) × AllLegs l w sbs bets s.accounts rest)
    → settle_specs l (sb ∷ sbs) (b ∷ bets) s ≡ (ok specs, t)
    → (t ≡ s) × AllLegs l w (sb ∷ sbs) (b ∷ bets) s.accounts specs
unfolding settle_specs
AllLegs-cons l w sb sbs b bets s {specs} {t} settles others h =
    let (legs, s1, h1, h2) =
      >>=-eq-ok (bet_specs l sb b) (λ legs. settle_specs l sbs bets >>= λ rest. pure (legs ++ rest))
        s h in
    let (e1, first) = bet_specs-Legs l w sb b s settles h1 in
    let h3 : (settle_specs l sbs bets >>= λ rest. pure (legs ++ rest)) s ≡ (ok specs, t) =
      subst (λ v. (settle_specs l sbs bets >>= λ rest. pure (legs ++ rest)) v ≡ (ok specs, t)) e1
        h2 in
    let (rest, s2, h4, h5) =
      >>=-eq-ok (settle_specs l sbs bets) (λ rest. pure (legs ++ rest)) s h3 in
    let (e2, more) = others rest s2 h4 in
    let (e3, e4) = returned h5 in
    (
      e4 ∙ e2,
      subst (AllLegs l w (sb ∷ sbs) (b ∷ bets) s.accounts) (sym e3) (AllLegs-append first more),
    )

-- The legs that the service derives for all of them.
pub settle_specs-AllLegs :
    (l w : ℕ) (bets : List Bet) (sbs : List SettledBet) (s : Db) {specs : List TransferSpec}
    {t : Db}
    → SettlesAll w (map to_settle bets) sbs
    → settle_specs l sbs bets s ≡ (ok specs, t)
    → (t ≡ s) × AllLegs l w sbs bets s.accounts specs
unfolding settle_specs stakes winnings payouts_to losing_stakes paid_out paid_in
settle_specs-AllLegs l w [] sbs s {specs} {t} settles h =
    let (e, e') = returned (subst (λ z. settle_specs l z [] s ≡ (ok specs, t)) settles h) in
    (e', rw (settles, e) (record { out = λ x. ground arith; into = λ x. ground arith }))
settle_specs-AllLegs l w (b ∷ bets) sbs s {specs} {t} (sb, rest, e, one, all) h =
    subst (λ z. (t ≡ s) × AllLegs l w z (b ∷ bets) s.accounts specs) (sym e)
      (AllLegs-cons l w sb rest b bets s one
        (λ specs' v k. settle_specs-AllLegs l w bets rest s all k)
        (subst (λ z. settle_specs l z (b ∷ bets) s ≡ (ok specs, t)) e h))
