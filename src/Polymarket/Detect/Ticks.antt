-- ===== src/Polymarket/Detect/Ticks.antt =====
-- Two runs of `_run_detect_resolutions` (backend/app/integrations/polymarket/tasks.py): the grace
-- period starts, and when it is over the market is settled.
use xpredict.Prelude.{
  ℕ, ◌+◌, ◌≤◌, ◌≡◌, refl, ap, ◌∙◌, ⊤, false, String, Option, none, some, List, [], ◌∷◌, inl, inr,
  arith, where_rows, ==_self, Bool-cases,
}
use xpredict.Money.Errors.{Result, ok}
use xpredict.Database.Rows.{Db, Market, resolved}
use xpredict.Session.{pure}
use xpredict.Session.Inversion.{>>=-runs}
use xpredict.Settlement.Port.{house_adapter}
use xpredict.Settlement.Service.{resolve_market}
use xpredict.Polymarket.Gamma.{GammaMarket, internal_status}
use xpredict.Polymarket.Winner.{Answer, market, map_winning_outcome_id}
use xpredict.Polymarket.Detect.{
  stamp, stamp_row, start_grace, auto_text, in_grace, settle_after_grace, on_answer, detect_source,
  detect_candidate, detect_each, is_candidate, candidates, run_detect_resolutions,
}

module _ (now grace : ℕ) (fetch : String → Answer) (m : Market) (s : Db) (source_id : String)
    (parsed : GammaMarket) (mirrored : m.source_market_id ≡ some source_id)
    (answered : fetch source_id ≡ market parsed) (final : internal_status parsed ≡ resolved) where
  on_final :
      detect_candidate now grace fetch m s
      ≡ settle_after_grace now grace m parsed m.uma_resolved_at s
  unfolding detect_candidate detect_source on_answer
  on_final = rw (mirrored, answered, final) refl

  detect_candidate-starts :
      m.uma_resolved_at ≡ none
      → detect_candidate now grace fetch m s
        ≡ (ok tt, record s { markets = stamp now m.id s.markets })
  unfolding settle_after_grace start_grace
  detect_candidate-starts not_started =
      on_final ∙ ap (λ since. settle_after_grace now grace m parsed since s) not_started

  detect_candidate-settles :
      (since w : ℕ)
      → m.uma_resolved_at ≡ some since
      → since + grace ≤ now
      → map_winning_outcome_id parsed.outcome_prices_raw parsed.outcomes_raw m.outcomes ≡ ok w
      → detect_candidate now grace fetch m s
        ≡ (ok tt, (resolve_market (house_adapter now) m.id w auto_text none s).1)
  unfolding settle_after_grace
  detect_candidate-settles since w started elapsed winner =
      let over : in_grace now grace since ≡ false = ground (arith, elapsed) in
      on_final
      ∙ ap (λ x. settle_after_grace now grace m parsed x s) started
      ∙ rw (over, winner) refl

-- The stamp changes no column that the SELECT reads.
stamp-is_candidate :
    (t now x : ℕ) (m : Market) (since : Option ℕ)
    → is_candidate t (stamp_row now x m since) ≡ is_candidate t m
stamp-is_candidate t now x m (some since) = refl
stamp-is_candidate t now x m none = ground arith

where-stamp :
    (t now x : ℕ) (ms : List Market)
    → where_rows (is_candidate t) (stamp now x ms) ≡ stamp now x (where_rows (is_candidate t) ms)
where-stamp t now x [] = refl
where-stamp t now x (m ∷ ms) = elim (Bool-cases (is_candidate t m)) [
  | inl e ↦
      let e' = stamp-is_candidate t now x m m.uma_resolved_at ∙ e in
      rw (e, e', where-stamp t now x ms) refl
  | inr ne ↦
      let ne' = stamp-is_candidate t now x m m.uma_resolved_at ∙ ne in
      rw (ne, ne', where-stamp t now x ms) refl
]

stamp_self :
    (now : ℕ) (m : Market)
    → m.uma_resolved_at ≡ none
    → stamp now m.id (m ∷ []) ≡ record m { uma_resolved_at = some now } ∷ []
stamp_self now m h = rw (h, ==_self m.id) refl

run-one :
    (now grace : ℕ) (fetch : String → Answer) (m : Market) (s u : Db)
    → candidates now s ≡ m ∷ []
    → detect_candidate now grace fetch m s ≡ (ok tt, u)
    → run_detect_resolutions now grace fetch s ≡ u
unfolding run_detect_resolutions detect_each pure
run-one now grace fetch m s u only h =
    ap (λ ms. (detect_each now grace fetch ms s).1) only
    ∙ ap (λ (r : Result ⊤ × Db). r.1)
        (>>=-runs (detect_candidate now grace fetch m) (λ _. detect_each now grace fetch []) s h)

-- A market that is the only candidate of two ticks, that Gamma reports as resolved at both, and
-- whose winner is known at the second, is settled by the second if it comes a grace period after
-- the first or later: by resolve_market, on the rows as they were with the start noted.
pub two_ticks_settle :
    (first second grace : ℕ) (fetch fetch' : String → Answer) (m : Market) (s : Db)
    (source_id : String) (parsed parsed' : GammaMarket) (w : ℕ)
    → candidates first s ≡ m ∷ []
    → candidates second s ≡ m ∷ []
    → m.source_market_id ≡ some source_id
    → m.uma_resolved_at ≡ none
    → fetch source_id ≡ market parsed
    → internal_status parsed ≡ resolved
    → fetch' source_id ≡ market parsed'
    → internal_status parsed' ≡ resolved
    → map_winning_outcome_id parsed'.outcome_prices_raw parsed'.outcomes_raw m.outcomes ≡ ok w
    → first + grace ≤ second
    → run_detect_resolutions second grace fetch' (run_detect_resolutions first grace fetch s)
      ≡ (resolve_market
          (house_adapter second)
          m.id
          w
          auto_text
          none
          (record s { markets = stamp first m.id s.markets })).1
two_ticks_settle first second grace fetch fetch' m s source_id parsed parsed' w only only' mirrored
      not_started answered final answered' final' winner elapsed =
    let started : Db = record s { markets = stamp first m.id s.markets } in
    let m' : Market = record m { uma_resolved_at = some first } in
    let again : candidates second started ≡ m' ∷ [] =
      where-stamp second first m.id s.markets
      ∙ ap (stamp first m.id) only'
      ∙ stamp_self first m not_started in
    ap (run_detect_resolutions second grace fetch') (
      run-one first grace fetch m s started only (
        detect_candidate-starts first grace fetch m s source_id parsed mirrored answered final
          not_started))
    ∙ run-one second grace fetch' m' started _ again (
        detect_candidate-settles second grace fetch' m' started source_id parsed' mirrored answered'
          final' first w refl elapsed winner)
