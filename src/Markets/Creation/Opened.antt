-- ===== src/Markets/Creation/Opened.antt =====
-- What `MarketService.create_market` (backend/app/markets/service.py) has written when it returns.
use mathlib.Core.Path.{subst}
use xpredict.Prelude.{
  ℕ, ◌+◌, ◌≡◌, refl, sym, ap, ◌∙◌, ⊤, Bool, true, false, String, none, some, List, [], ◌∷◌, ◌++◌,
  map, ◌==◌, if◌then◌else◌, arith, inl, inr, Bool-cases,
}
use xpredict.Money.Errors.{Result, ok, err, unique_violation, unbound_local_error}
use xpredict.Database.Rows.{Db, Market, open_status, market_created}
use xpredict.Session.{pure, raise, uuid4, ◌>>=◌}
use xpredict.Session.Inversion.{returned, >>=-eq-ok, on_unique_violation-cases}
use xpredict.Ledger.{record_audit}
use xpredict.Settlement.Port.{market?, set_market, write_market}
use xpredict.Markets.{snapshot, add_snapshots}
use xpredict.Markets.Creation.{
  MarketCreate, generate_slug, slug_taken, insert_market, flush_market, house_market,
  binary_outcomes, add_market, add_outcomes, create_market,
}

set_market-snoc :
    (m m' : Market) (ms : List Market)
    → m'.id ≡ m.id
    → market? m.id ms ≡ none
    → set_market m' (ms ++ m ∷ []) ≡ ms ++ m' ∷ []
unfolding set_market market?
set_market-snoc m m' [] same fresh = ground (arith, same)
set_market-snoc m m' (x ∷ ms) same fresh = elim (Bool-cases (x.id == m.id)) [
  | inl e ↦ absurd (ground (arith, e, fresh))
  | inr ne ↦
      let other : (x.id == m'.id) ≡ false = ground (arith, same, ne) in
      let rest : market? m.id ms ≡ none = ground (arith, ne, fresh) in
      rw other (ap (λ r. x ∷ r) (set_market-snoc m m' ms same rest))
]

pub insert_market-ok :
    (m : Market) (s : Db) {a : ⊤} {u : Db}
    → insert_market m s ≡ (ok a, u)
    → (slug_taken m.slug s.markets ≡ false) × (u ≡ record s { markets = s.markets ++ m ∷ [] })
unfolding insert_market
insert_market-ok m s {a} {u} h = go (slug_taken m.slug s.markets) h
  where
    go :
        (b : Bool)
        → ◌≡◌ {A = Result ⊤ × Db}
            (if b
              then (err unique_violation, s)
              else (ok tt, record s { markets = s.markets ++ m ∷ [] }))
            (ok a, u)
        → (b ≡ false) × (u ≡ record s { markets = s.markets ++ m ∷ [] })
    go true k = absurd (cc (ap (λ (p : Result ⊤ × Db). p.0) k))
    go false k = (refl, (returned k).1)

flush_market-ok :
    (m : Market) (s : Db) {a : ⊤} {u : Db}
    → flush_market m s ≡ (ok a, u)
    → insert_market m s ≡ (ok a, u)
unfolding raise
flush_market-ok m s h =
    elim (on_unique_violation-cases (insert_market m) (raise unbound_local_error) s h) [
      | inl k ↦ k
      | inr (t, _, k) ↦ absurd (cc (ap (λ (p : Result ⊤ × Db). p.0) k))
    ]

-- A market that was opened by the request `body`: a row under a slug that no other market has, with
-- two outcomes whose odds add up to 1, each with the first point of its price history, and nothing
-- else changes but the audit log.
pub record Opened (now admin : ℕ) (body : MarketCreate) (s : Db) (m : Market) (u : Db)
    : Type 0 where
  pub yes_id : ℕ
  pub no_id : ℕ
  pub is_open : m.status ≡ open_status
  pub outcomes : m.outcomes ≡ binary_outcomes yes_id no_id body.initial_odds_yes
  pub fresh_slug : slug_taken m.slug s.markets ≡ false
  pub after : u ≡ record s {
    markets = s.markets ++ m ∷ [];
    odds_snapshots = s.odds_snapshots ++ map (snapshot now m.id) m.outcomes;
    audit_log =
        s.audit_log
        ++ record { actor = some admin; event = market_created m.id body.question } ∷ [];
    next_id = s.next_id + 4;
  }

module _ (slugify : String → String) (now admin : ℕ) (body : MarketCreate) (s : Db) where
  abbrev row : Market
  row = house_market (s.next_id + 1) (generate_slug slugify body.question s.next_id) body

  add_market-ok :
      (m : Market) (u : Db)
      → add_market slugify body s ≡ (ok m, u)
      → (slug_taken row.slug s.markets ≡ false)
        × (m ≡ row)
        × (u ≡ record s { markets = s.markets ++ row ∷ []; next_id = s.next_id + 1 + 1 })
  unfolding add_market uuid4 ◌>>=◌ pure
  add_market-ok m u h =
      let drawn : Db = record s { next_id = s.next_id + 1 + 1 } in
      let (_, t, h1, h2) = >>=-eq-ok (flush_market row) (λ _. pure row) drawn h in
      let (free, e) = insert_market-ok row drawn (flush_market-ok row drawn h1) in
      let (same, e') = returned h2 in (free, same, e' ∙ e)

  with_outcomes : Market → Db → Market
  with_outcomes m t = record m {
    outcomes = binary_outcomes t.next_id (t.next_id + 1) body.initial_odds_yes;
  }

  add_outcomes-ok :
      (m m' : Market) (t u : Db)
      → add_outcomes now admin body m t ≡ (ok m', u)
      → (m' ≡ with_outcomes m t)
        × (u ≡ record t {
          markets = set_market (with_outcomes m t) t.markets;
          odds_snapshots = t.odds_snapshots ++ map (snapshot now m.id) (with_outcomes m t).outcomes;
          audit_log =
              t.audit_log
              ++ record { actor = some admin; event = market_created m.id body.question } ∷ [];
          next_id = t.next_id + 1 + 1;
        })
  unfolding add_outcomes uuid4 write_market add_snapshots record_audit ◌>>=◌ pure with_outcomes
  add_outcomes-ok m m' t u h = returned h

four_ids : (n : ℕ) → n + 1 + 1 + 1 + 1 ≡ n + 4
four_ids n = omega arith

-- A market that is created is as `Opened` says, if the id that it draws is not a market's.
pub create_market_effect :
    (slugify : String → String) (now admin : ℕ) (body : MarketCreate) (s : Db) (m : Market) (u : Db)
    → market? (s.next_id + 1) s.markets ≡ none
    → create_market slugify now admin body s ≡ (ok m, u)
    → Opened now admin body s m u
unfolding create_market with_outcomes
create_market_effect slugify now admin body s m u fresh h =
    let (added, t, h1, h2) =
      >>=-eq-ok (add_market slugify body) (add_outcomes now admin body) s h in
    let (free, same, e) = add_market-ok slugify now admin body s added t h1 in
    let drawn = house_market (s.next_id + 1) (generate_slug slugify body.question s.next_id) body in
    let between : Db = record s {
      markets = s.markets ++ drawn ∷ [];
      next_id = s.next_id + 1 + 1;
    } in
    let h3 : add_outcomes now admin body drawn between ≡ (ok m, u) =
      (λ i. add_outcomes now admin body (sym same i) (sym e i)) ∙ h2 in
    let (whole, after) = add_outcomes-ok slugify now admin body s drawn m between u h3 in
    let full = with_outcomes slugify now admin body s drawn between in
    let rows : set_market full between.markets ≡ s.markets ++ full ∷ [] =
      set_market-snoc drawn full s.markets refl fresh in
    subst (λ x. Opened now admin body s x u) (sym whole)
      (record {
        yes_id = between.next_id;
        no_id = between.next_id + 1;
        is_open = refl;
        outcomes = refl;
        fresh_slug = free;
        after = after ∙ λ i. record between {
          markets = rows i;
          odds_snapshots = s.odds_snapshots ++ map (snapshot now full.id) full.outcomes;
          audit_log =
              s.audit_log
              ++ record { actor = some admin; event = market_created full.id body.question } ∷ [];
          next_id = four_ids s.next_id i;
        };
      })
