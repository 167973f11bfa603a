-- ===== src/Polymarket/Detect/Soundness.antt =====
-- `_run_detect_resolutions` (backend/app/integrations/polymarket/tasks.py) keeps to the double entry.
use mathlib.Core.Path.{subst}
use xpredict.Prelude.{ℕ, ◌≡◌, refl, sym, String, none, List, [], ◌∷◌, ◌⊎◌, inl, inr, arith}
use xpredict.Database.Rows.{Db, Market}
use xpredict.Session.Rules.{AlwaysDoes, Always-bind, Always-pure}
use xpredict.Settlement.Port.{house_adapter}
use xpredict.Settlement.Service.Soundness.{resolve_market-Sound}
use xpredict.Wallet.Flow.{Sound, sound, Sound-reflexive, Sound-same}
use xpredict.Polymarket.Winner.{Answer}
use xpredict.Polymarket.Detect.{
  detect_candidate, detect_each, candidates, run_detect_resolutions, auto_text,
}
use xpredict.Polymarket.Detect.Cases.{Starts, Settles, detect_candidate_cases}

module _ (now grace : ℕ) (fetch : String → Answer) where
  Outcomes-Sound :
      (m : Market) (s u : Db)
      → (u ≡ s) ⊎ (Starts now m s u ⊎ Settles now grace fetch m s u)
      → Sound s u
  Outcomes-Sound m s u (inl e) = subst (Sound s) (sym e) (Sound-reflexive s)
  Outcomes-Sound m s u (inr (inl h)) =
      subst (Sound s) (sym h.after) (Sound-same s _ refl refl refl (omega arith))
  Outcomes-Sound m s u (inr (inr h)) =
      subst (Sound s) (sym h.after)
        ((resolve_market-Sound (house_adapter now) m.id h.winner auto_text none).at s)

  detect_candidate-Sound : (m : Market) → AlwaysDoes sound (detect_candidate now grace fetch m)
  detect_candidate-Sound m = record {
    at = λ s. Outcomes-Sound m s _ (detect_candidate_cases now grace fetch m s);
  }

  detect_each-Sound : (ms : List Market) → AlwaysDoes sound (detect_each now grace fetch ms)
  unfolding detect_each
  detect_each-Sound [] = Always-pure tt
  detect_each-Sound (m ∷ ms) =
      Always-bind (detect_candidate now grace fetch m) (λ _. detect_each now grace fetch ms)
        (detect_candidate-Sound m) (λ _. detect_each-Sound ms)

  pub run_detect_resolutions-Sound : (s : Db) → Sound s (run_detect_resolutions now grace fetch s)
  unfolding run_detect_resolutions
  run_detect_resolutions-Sound s = (detect_each-Sound (candidates now s)).at s
