-- ===== src/Examples/LiveBets.antt =====
-- The theorems on backend/app/integrations/livebets/service.py, at the runs.
use xpredict.Prelude.{◌≡◌, refl, true}
use xpredict.Money.Errors.{ok}
use xpredict.Database.Rows.{LiveStatus}
use xpredict.LiveBets.{VerifiedBet, mirror_result, is_live_settled}
use xpredict.LiveBets.Effect.{LiveSettled, record_settled_effect}
use xpredict.Examples.Runs.{live_won, mirrored, live_paid, record_settled_runs}

record_settled_effect_example :
    (v : VerifiedBet) × (ok live_won ≡ ok v)
    × (is_live_settled v.status ≡ true)
    × LiveSettled 7 900 v mirrored live_paid
record_settled_effect_example =
    record_settled_effect (ok live_won) 7 900 mirrored (mirror_result 900 LiveStatus.won true)
      live_paid refl record_settled_runs
