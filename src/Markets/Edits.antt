-- ===== src/Markets/Edits.antt =====
-- What `MarketService.update_market` (backend/app/markets/service.py) does to the odds of a market.
use mathlib.Core.Path.{subst}
use xpredict.Prelude.{
  String, ℕ, ◌+◌, ◌-◌, ◌≤◌, ◌≡◌, refl, sym, ap, ◌∙◌, true, false, ◌&&◌, not, some, List, [], ◌∷◌,
  ◌++◌, map, ltb, if◌then◌else◌, arith, is_yes, All,
}
use xpredict.Money.Errors.{ok, http_exception}
use xpredict.Database.Rows.{Db, Market, Outcome}
use xpredict.Session.{pure, ◌>>=◌, ◌>>◌}
use xpredict.Session.Inversion.{returned, raise_if-then}
use xpredict.Ledger.{record_audit}
use xpredict.Settlement.Port.{set_market, write_market}
use xpredict.Markets.{
  MarketUpdate, OddsDelta, delta, edited, snapshot, one_odds, is_open_market, is_given,
  set_outcomes, edited_outcomes, updated_market, changed_fields, add_snapshots, audit_changes,
  update_market,
}

-- An outcome without its live odds.
abbrev pub unpriced : Outcome → Outcome
unpriced o = record o { current_odds = 0 }

-- The odds that an edit of the YES odds to `odds` leaves in the market, in the price history and in
-- what is published.
pub record Repriced (now odds : ℕ) (m : Market) (s : Db) (m' : Market) (deltas : List OddsDelta)
    (u : Db) : Type 0 where
  pub stored : u.markets ≡ set_market m' s.markets
  pub prices :
      All
        (λ (o : Outcome). o.current_odds ≡ (if is_yes o.label then odds else one_odds - odds))
        m'.outcomes
  pub same_outcomes : map unpriced m'.outcomes ≡ map unpriced m.outcomes
  pub history : u.odds_snapshots ≡ s.odds_snapshots ++ map (snapshot now m.id) m'.outcomes
  pub published : deltas ≡ map delta m'.outcomes
  pub sums_to_one :
      (y n : Outcome)
      → m'.outcomes ≡ y ∷ n ∷ []
      → is_yes y.label ≡ true
      → is_yes n.label ≡ false
      → y.current_odds + n.current_odds ≡ one_odds

edited-prices :
    (odds : ℕ) (outcomes : List Outcome)
    → All
        (λ (o : Outcome). o.current_odds ≡ (if is_yes o.label then odds else one_odds - odds))
        (map (edited odds) outcomes)
edited-prices odds [] = tt
edited-prices odds (o ∷ outcomes) = (refl, edited-prices odds outcomes)

edited-same :
    (odds : ℕ) (outcomes : List Outcome)
    → map unpriced (map (edited odds) outcomes) ≡ map unpriced outcomes
edited-same odds [] = refl
edited-same odds (o ∷ outcomes) = ap (λ r. unpriced o ∷ r) (edited-same odds outcomes)

prices-sum :
    (odds : ℕ) (y n : Outcome)
    → odds ≤ one_odds
    → y.current_odds ≡ (if is_yes y.label then odds else one_odds - odds)
    → n.current_odds ≡ (if is_yes n.label then odds else one_odds - odds)
    → is_yes y.label ≡ true
    → is_yes n.label ≡ false
    → y.current_odds + n.current_odds ≡ one_odds
prices-sum odds y n bound p q is_y is_n = ground (arith, bound, p, q, is_y, is_n)

-- The audit row and the publication do not come to the odds.
audit_changes-then :
    (admin x : ℕ) (names : List String) {A : Type 0} (a b : A) (s u : Db)
    → (audit_changes admin x names >> pure a) s ≡ (ok b, u)
    → (b ≡ a) × (u.markets ≡ s.markets) × (u.odds_snapshots ≡ s.odds_snapshots)
unfolding audit_changes record_audit pure ◌>>=◌
audit_changes-then admin x [] a b s u h =
    let (e, e') = returned h in
    (e, ap (λ (v : Db). v.markets) e', ap (λ (v : Db). v.odds_snapshots) e')
audit_changes-then admin x (n ∷ names) a b s u h =
    let (e, e') = returned h in
    (e, ap (λ (v : Db). v.markets) e', ap (λ (v : Db). v.odds_snapshots) e')

module _ (now admin : ℕ) (m : Market) (body : MarketUpdate) (s : Db) where
  update_market-ok :
      (m' : Market) (deltas : List OddsDelta) (u : Db)
      → update_market now admin m body s ≡ (ok (m', deltas), u)
      → (m' ≡ updated_market body m)
        × (deltas ≡ map delta (set_outcomes body.odds_yes m.outcomes))
        × (u.markets ≡ set_market (updated_market body m) s.markets)
        × (u.odds_snapshots
            ≡ s.odds_snapshots ++ map (snapshot now m.id) (set_outcomes body.odds_yes m.outcomes))
  unfolding update_market write_market add_snapshots ◌>>=◌
  update_market-ok m' deltas u h =
      let (_, h1) =
        raise_if-then {s = s} (not (is_open_market m.status)) (http_exception 409) _ h in
      let (_, h2) =
        raise_if-then {s = s} (ltb 0 m.bet_count && is_given body.resolution_criteria)
          (http_exception 423) _ h1 in
      let done : Db = record s {
        markets = set_market (updated_market body m) s.markets;
        odds_snapshots =
            s.odds_snapshots ++ map (snapshot now m.id) (set_outcomes body.odds_yes m.outcomes);
      } in
      let (e, k1, k2) =
        audit_changes-then admin m.id (changed_fields body)
          (updated_market body m, map delta (set_outcomes body.odds_yes m.outcomes)) (m', deltas)
          done u h2 in
      (
        ap (λ (r : Market × List OddsDelta). r.0) e,
        ap (λ (r : Market × List OddsDelta). r.1) e,
        k1,
        k2,
      )

-- An edit of the YES odds that returns is as `Repriced` says, if they are at most 1: every outcome
-- has its new odds, which are also the new point of its price history and what is published, and
-- the odds of YES and NO add up to 1.
pub update_market_reprices :
    (now admin odds : ℕ) (m : Market) (body : MarketUpdate) (s : Db) (m' : Market)
    (deltas : List OddsDelta) (u : Db)
    → body.odds_yes ≡ some odds
    → odds ≤ one_odds
    → update_market now admin m body s ≡ (ok (m', deltas), u)
    → Repriced now odds m s m' deltas u
update_market_reprices now admin odds m body s m' deltas u given bound h =
    let (e, k, rows, history) = update_market-ok now admin m body s m' deltas u h in
    let outcomes : m'.outcomes ≡ map (edited odds) m.outcomes =
      ap (λ (r : Market). r.outcomes) e ∙ ap (λ o. edited_outcomes o m.outcomes) given in
    let set : set_outcomes body.odds_yes m.outcomes ≡ m'.outcomes =
      ap (λ o. set_outcomes o m.outcomes) given ∙ sym outcomes in
    let prices =
      subst
        (All (λ (o : Outcome). o.current_odds ≡ (if is_yes o.label then odds else one_odds - odds)))
        (sym outcomes) (edited-prices odds m.outcomes) in
    record {
      stored = rows ∙ ap (λ r. set_market r s.markets) (sym e);
      prices = prices;
      same_outcomes = ap (map unpriced) outcomes ∙ edited-same odds m.outcomes;
      history = history ∙ ap (λ r. s.odds_snapshots ++ map (snapshot now m.id) r) set;
      published = k ∙ ap (map delta) set;
      sums_to_one = λ y n both is_y is_n.
          let (p, (q, _)) =
            subst
              (All (λ (o : Outcome).
                o.current_odds ≡ (if is_yes o.label then odds else one_odds - odds)))
              both prices in
          prices-sum odds y n bound p q is_y is_n;
    }
