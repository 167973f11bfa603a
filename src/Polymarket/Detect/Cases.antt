-- ===== src/Polymarket/Detect/Cases.antt =====
-- What one candidate of `_run_detect_resolutions` (backend/app/integrations/polymarket/tasks.py) may
-- come to.
use xpredict.Prelude.{
  ℕ, ◌+◌, ◌≤◌, ◌≡◌, refl, String, Option, none, some, if◌then◌else◌, ◌⊎◌, inl, inr, arith,
  Bool-cases,
}
use xpredict.Money.Errors.{Result, ok, err}
use xpredict.Database.Rows.{Db, Market, MarketStatus, resolved}
use xpredict.Session.{pure, raise}
use xpredict.Settlement.Port.{house_adapter}
use xpredict.Settlement.Service.{resolve_market}
use xpredict.Events.{is_resolved}
use xpredict.Polymarket.Gamma.{GammaMarket, internal_status}
use xpredict.Polymarket.Winner.{
  Answer, missing, malformed, market, failed, map_winning_outcome_id, WinsAtGamma,
  map_winning_outcome_id-WinsAtGamma,
}
use xpredict.Polymarket.Detect.{
  stamp, start_grace, auto_text, settle_winner, in_grace, settle_after_grace, on_answer,
  detect_source, detect_candidate,
}

-- The grace period of the market starts at `now`.
pub record Starts (now : ℕ) (m : Market) (s u : Db) : Type 0 where
  pub not_started : m.uma_resolved_at ≡ none
  pub after : u ≡ record s { markets = stamp now m.id s.markets }

-- The market is settled: it is mirrored, Gamma answers with a status that counts as resolved, a grace
-- period that started at `since` is over, and `winner` is the outcome that wins at Gamma.
pub record Settles (now grace : ℕ) (fetch : String → Answer) (m : Market) (s u : Db) : Type 0 where
  pub since : ℕ
  pub winner : ℕ
  pub source_id : String
  pub parsed : GammaMarket
  pub started : m.uma_resolved_at ≡ some since
  pub elapsed : since + grace ≤ now
  pub mirrored : m.source_market_id ≡ some source_id
  pub answered : fetch source_id ≡ market parsed
  pub final : internal_status parsed ≡ resolved
  pub wins : WinsAtGamma parsed m winner
  pub after : u ≡ (resolve_market (house_adapter now) m.id winner auto_text none s).1

module _ (now grace : ℕ) (fetch : String → Answer) (m : Market) (s : Db) where
  abbrev pub Outcomes : Db → Type 0
  Outcomes u = (u ≡ s) ⊎ (Starts now m s u ⊎ Settles now grace fetch m s u)

  settle_winner-cases :
      (since : ℕ) (source_id : String) (parsed : GammaMarket)
      → m.uma_resolved_at ≡ some since
      → since + grace ≤ now
      → m.source_market_id ≡ some source_id
      → fetch source_id ≡ market parsed
      → internal_status parsed ≡ resolved
      → (r : Result ℕ)
      → map_winning_outcome_id parsed.outcome_prices_raw parsed.outcomes_raw m.outcomes ≡ r
      → Outcomes (settle_winner now m r s).1
  settle_winner-cases since source_id parsed started elapsed mirrored answered final (err e) h =
      inl refl
  settle_winner-cases since source_id parsed started elapsed mirrored answered final (ok w) h =
      inr (
        inr (record {
          since = since;
          winner = w;
          source_id = source_id;
          parsed = parsed;
          started = started;
          elapsed = elapsed;
          mirrored = mirrored;
          answered = answered;
          final = final;
          wins = map_winning_outcome_id-WinsAtGamma parsed m w h;
          after = refl;
        }))

  settle_after_grace-cases :
      (source_id : String) (parsed : GammaMarket) (since : Option ℕ)
      → m.uma_resolved_at ≡ since
      → m.source_market_id ≡ some source_id
      → fetch source_id ≡ market parsed
      → internal_status parsed ≡ resolved
      → Outcomes (settle_after_grace now grace m parsed since s).1
  unfolding settle_after_grace start_grace pure
  settle_after_grace-cases source_id parsed none started mirrored answered final =
      inr (inl (record { not_started = started; after = refl }))
  settle_after_grace-cases source_id parsed (some since) started mirrored answered final =
      elim (Bool-cases (in_grace now grace since)) [
        | inl e ↦ rw e (inl refl)
        | inr ne ↦ rw ne (
            settle_winner-cases since source_id parsed started (ground (arith, ne)) mirrored
              answered final _ refl)
      ]

  on_answer-cases :
      (source_id : String) (answer : Answer)
      → m.source_market_id ≡ some source_id
      → fetch source_id ≡ answer
      → Outcomes (on_answer now grace m answer s).1
  unfolding on_answer pure raise
  on_answer-cases source_id missing mirrored answered = inl refl
  on_answer-cases source_id malformed mirrored answered = inl refl
  on_answer-cases source_id (failed e) mirrored answered = inl refl
  on_answer-cases source_id (market parsed) mirrored answered = go (internal_status parsed) refl
    where
      go :
          (st : MarketStatus)
          → internal_status parsed ≡ st
          → Outcomes
              ((if is_resolved st
                  then settle_after_grace now grace m parsed m.uma_resolved_at
                  else pure tt)
                s).1
      go resolved final =
          settle_after_grace-cases source_id parsed m.uma_resolved_at refl mirrored answered final
      go _ final = inl refl

  detect_source-cases :
      (source : Option String)
      → m.source_market_id ≡ source
      → Outcomes (detect_source now grace fetch m source s).1
  unfolding detect_source pure
  detect_source-cases none mirrored = inl refl
  detect_source-cases (some source_id) mirrored =
      on_answer-cases source_id (fetch source_id) mirrored refl

-- One tick does one of three things to a candidate: nothing; it starts the grace period, if none was
-- started; or it makes exactly one call of resolve_market, for the outcome that wins at Gamma, and
-- this only if Gamma's answer counts as resolved and the grace period that was started is over.
pub detect_candidate_cases :
    (now grace : ℕ) (fetch : String → Answer) (m : Market) (s : Db)
    → ((detect_candidate now grace fetch m s).1 ≡ s)
      ⊎ (Starts now m s (detect_candidate now grace fetch m s).1
          ⊎ Settles now grace fetch m s (detect_candidate now grace fetch m s).1)
unfolding detect_candidate
detect_candidate_cases now grace fetch m s =
    detect_source-cases now grace fetch m s m.source_market_id refl
