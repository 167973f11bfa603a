-- ===== src/Markets/Router/Guards.antt =====
-- What the endpoints on one market (backend/app/markets/router.py) refuse, and what the check before
-- a bet says.
use xpredict.Prelude.{
  ℕ, ◌≡◌, refl, true, ◌&&◌, not, String, none, some, List, [], ◌∷◌, ltb, leb, if◌then◌else◌, ap,
  sym, ◌∙◌, arith, ◌↔◌, ltb, Option-cases, inl, inr, Bool-cases,
}
use xpredict.Money.Errors.{Result, ok, err, http_exception}
use xpredict.Database.Rows.{Db, Market, MarketStatus, open_status}
use xpredict.Session.{Action, pure, raise, gets, raise_if, begin, commit_or_rollback, ◌>>=◌, ◌>>◌}
use xpredict.Session.Inversion.{>>=-runs, >>=-raises}
use xpredict.Wallet.Replay.{begin-raises}
use xpredict.Ledger.{record_audit}
use xpredict.Settlement.Port.{market?}
use xpredict.Bets.MarketPort.{
  MarketView, house_read_adapter, is_open, is_open_status, house_read_adapter-is_open,
}
use xpredict.Markets.{
  MarketUpdate, OddsDelta, is_open_market, is_given, changed_fields, audit_changes, update_market,
}
use xpredict.Markets.Router.{
  load_market, patch_market, market_by_slug, eligible, bet_check, refusal,
}

load_market-runs :
    (x : ℕ) (s : Db) (m : Market) → market? x s.markets ≡ some m → load_market x s ≡ (ok m, s)
unfolding load_market gets pure ◌>>=◌
load_market-runs x s m found = rw found refl

load_market-fails :
    (x : ℕ) (s : Db) → market? x s.markets ≡ none → load_market x s ≡ (err (http_exception 404), s)
unfolding load_market gets raise ◌>>=◌
load_market-fails x s found = rw found refl

update_market-refused :
    (now admin : ℕ) (body : MarketUpdate) (m : Market) (code : ℕ) (s : Db)
    → refusal body (some m) ≡ some code
    → update_market now admin m body s ≡ (err (http_exception code), s)
unfolding update_market raise_if ◌>>=◌
update_market-refused now admin body m code s h = elim (Bool-cases (is_open_market m.status)) [
  | inl opened ↦ elim (Bool-cases (ltb 0 m.bet_count && is_given body.resolution_criteria)) [
    | inl locked ↦
        let same : 423 ≡ code = ground (arith, h, opened, locked) in
        rw (opened, locked) (λ i. (err (http_exception (same i)), s))
    | inr free ↦ absurd (ground (arith, h, opened, free))
  ]
  | inr shut ↦
      let same : 409 ≡ code = ground (arith, h, shut) in
      rw shut (λ i. (err (http_exception (same i)), s))
]

audit_then :
    (admin x : ℕ) (names : List String) {A : Type 0} (a : A) (s : Db)
    → ((audit_changes admin x names >> pure a) s).0 ≡ ok a
unfolding audit_changes record_audit pure ◌>>=◌
audit_then admin x [] a s = refl
audit_then admin x (name ∷ names) a s = refl

update_market-accepted :
    (now admin : ℕ) (body : MarketUpdate) (m : Market) (s : Db)
    → refusal body (some m) ≡ none
    → (r : Market × List OddsDelta) × ((update_market now admin m body s).0 ≡ ok r)
unfolding update_market raise_if audit_changes pure ◌>>=◌
update_market-accepted now admin body m s h = elim (Bool-cases (is_open_market m.status)) [
  | inl opened ↦ elim (Bool-cases (ltb 0 m.bet_count && is_given body.resolution_criteria)) [
    | inl locked ↦ absurd (ground (arith, h, opened, locked))
    | inr free ↦ rw (opened, free) (_, audit_then admin m.id (changed_fields body) _ _)
  ]
  | inr shut ↦ absurd (ground (arith, h, shut))
]

begin-returns :
    {A : Type 0} (m : Action A) (s : Db) (a : A)
    → (m (record s { locks = [] })).0 ≡ ok a
    → (begin m s).0 ≡ ok a
unfolding begin
begin-returns {A} m s a h = go (m (record s { locks = [] })) h
  where
    go : (p : Result A × Db) → p.0 ≡ ok a → (commit_or_rollback s p).0 ≡ ok a
    go (ok b, t) k = k
    go (err e, t) k = absurd (cc k)

module _ (now admin x : ℕ) (body : MarketUpdate) (s : Db) where
  patch_market-refused :
      (code : ℕ)
      → refusal body (market? x s.markets) ≡ some code
      → patch_market now admin x body s ≡ (err (http_exception code), s)
  unfolding patch_market
  patch_market-refused code h = elim (Option-cases (market? x s.markets)) [
    | inl missing ↦
        let same : 404 ≡ code = cc (ap (refusal body) (sym missing) ∙ h) in
        begin-raises (load_market x >>= λ m. update_market now admin m body) s (
          >>=-raises (load_market x) (λ m. update_market now admin m body) (record s { locks = [] })
            (load_market-fails x (record s { locks = [] }) missing))
        ∙ (λ i. (err (http_exception (same i)), s))
    | inr (m, found) ↦ begin-raises (load_market x >>= λ m. update_market now admin m body) s (
        >>=-runs (load_market x) (λ m. update_market now admin m body) (record s { locks = [] })
          (load_market-runs x (record s { locks = [] }) m found)
        ∙ update_market-refused now admin body m code (record s { locks = [] })
            (ap (refusal body) (sym found) ∙ h))
  ]

  patch_market-accepted :
      refusal body (market? x s.markets) ≡ none
      → (r : Market × List OddsDelta) × ((patch_market now admin x body s).0 ≡ ok r)
  unfolding patch_market
  patch_market-accepted h = elim (Option-cases (market? x s.markets)) [
    | inl missing ↦ absurd (cc (ap (refusal body) (sym missing) ∙ h))
    | inr (m, found) ↦
        let start : Db = record s { locks = [] } in
        let (r, k) =
          update_market-accepted now admin body m start (ap (refusal body) (sym found) ∙ h) in
        (
          r,
          begin-returns (load_market x >>= λ m. update_market now admin m body) s r (
              ap (λ (p : Result (Market × List OddsDelta) × Db). p.0)
                (>>=-runs (load_market x) (λ m. update_market now admin m body) start
                  (load_market-runs x start m found))
              ∙ k),
        )
  ]

-- A PATCH of a market is refused for three reasons: there is no such market (404), it is not open
-- (409), or its bet counter is not 0 and the request gives new criteria (423). Then nothing is
-- written; else it returns.
pub patch_market-refusal :
    (now admin x : ℕ) (body : MarketUpdate) (s : Db)
    → ((code : ℕ)
        → refusal body (market? x s.markets) ≡ some code
        → patch_market now admin x body s ≡ (err (http_exception code), s))
      × (refusal body (market? x s.markets) ≡ none
          → (r : Market × List OddsDelta) × ((patch_market now admin x body s).0 ≡ ok r))
patch_market-refusal now admin x body s =
    (patch_market-refused now admin x body s, patch_market-accepted now admin x body s)

Passes : MarketStatus → ℕ → ℕ → Type 0
Passes st deadline now =
    (if not (is_open_market st)
      then err (http_exception 400)
      else if leb deadline now
      then err (http_exception 400)
      else ok true)
    ≡ ok true

Passes-is_open :
    (st : MarketStatus) (deadline now : ℕ)
    → Passes st deadline now ↔ ((is_open_status st && ltb now deadline) ≡ true)
unfolding Passes
Passes-is_open open_status deadline now = elim (Bool-cases (leb deadline now)) [
  | inl e ↦ (
    (λ h. absurd (cc (sym (ap (λ b. if b then err (http_exception 400) else ok true) e) ∙ h))),
    (λ h. absurd (ground (arith, e, h))),
  )
  | inr ne ↦ (
    (λ h. ground (arith, ne)),
    (λ h. ap (λ b. if b then err (http_exception 400) else ok true) ne),
  )
]
Passes-is_open _ deadline now = ((λ h. absurd (cc h)), (λ h. absurd (cc h)))

-- The check that the page of a market asks for agrees with betting: on a market that both find, the
-- check passes at a time exactly when the market that `place_bet` reads is open at that time.
pub bet_check_agrees :
    (slug : String) (s : Db) (now : ℕ) (m : Market) (view : MarketView)
    → market_by_slug slug s.markets ≡ some m
    → market? m.id s.markets ≡ some m
    → house_read_adapter s m.id ≡ some view
    → (bet_check now slug s ≡ ok true) ↔ (is_open view now ≡ true)
unfolding bet_check Passes
bet_check_agrees slug s now m view by_slug by_id read =
    let seen = house_read_adapter-is_open s m.id now m view by_id read in
    let checked : bet_check now slug s ≡ eligible now (some m) = ap (eligible now) by_slug in
    let (to, from) = Passes-is_open m.status m.deadline now in
    ((λ h. seen ∙ to (sym checked ∙ h)), (λ h. checked ∙ from (sym seen ∙ h)))
