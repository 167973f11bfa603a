-- ===== src/Examples/Money.antt =====
-- The payout arithmetic of backend/app/settlement/payout.py on concrete stakes and prices.
use xpredict.Prelude.{◌*◌, ◌≡◌, ◌≤◌, refl}
use xpredict.Money.{one_price, compute_payout, cashout_value}
use xpredict.Money.Errors.{ok}
use xpredict.Money.Rounding.{IsNearest, compute_payout-IsNearest}

third : compute_payout 10000 300000 ≡ ok 33333
unfolding compute_payout
third = refl

quarter : compute_payout 20000 250000 ≡ ok 80000
unfolding compute_payout
quarter = refl

quarter_at_half : cashout_value 20000 250000 500000 ≡ ok 40000
unfolding cashout_value
quarter_at_half = refl

quarter_at_tenth : cashout_value 20000 250000 100000 ≡ ok 8000
unfolding cashout_value
quarter_at_tenth = refl

compute_payout-IsNearest_example : IsNearest (10000 * one_price) 300000 33333 × (10000 ≤ 33333)
compute_payout-IsNearest_example = compute_payout-IsNearest 10000 300000 33333 third
