-- ===== src/Money.antt =====
-- The pure payout arithmetic of backend/app/settlement/payout.py. An amount of money is a whole
-- number of ticks of 0.0001 (`_MONEY_QUANTUM`, NUMERIC(18, 4)); a price is a whole number of
-- millionths (NUMERIC(8, 6)).
pub mod Errors
pub mod Rounding
use Errors.{Result, ok, err, value_error}
use xpredict.Prelude.{ℕ, suc, ◌+◌, ◌*◌, ◌/◌, ◌&&◌, ltb, leb, if◌then◌else◌}
use xpredict.Prelude.Int.{ℤ, pos, negsuc, ◌-ℤ◌}

-- The price 1.000000, in millionths.
abbrev pub one_price : ℕ
one_price = 1000000

-- ROUND_HALF_UP of the exact value num / den ticks to a whole tick.
unfoldable pub quantize_money : ℕ → ℕ → ℕ
quantize_money num den = (2 * num + den) / (2 * den)

-- The same for a signed value: halves go away from zero.
unfoldable pub quantize_signed : ℤ → ℕ → ℤ
unfolding quantize_money ◌-ℤ◌
quantize_signed (pos n) den = pos (quantize_money n den)
quantize_signed (negsuc n) den = pos 0 -ℤ pos (quantize_money (suc n) den)

unfoldable pub compute_payout : ℕ → ℕ → Result ℕ
unfolding quantize_money
compute_payout stake price =
    if leb stake 0
    then err value_error
    else if ltb 0 price && leb price one_price
    then ok (quantize_money (stake * one_price) price)
    else err value_error

unfoldable pub profit_or_loss : ℕ → ℕ → ℤ
unfolding quantize_signed ◌-ℤ◌
profit_or_loss stake payout = quantize_signed (pos payout -ℤ pos stake) 1

unfoldable pub cashout_value : ℕ → ℕ → ℕ → Result ℕ
unfolding quantize_money
cashout_value stake entry_price current_price =
    if leb stake 0
    then err value_error
    else if ltb 0 entry_price && leb entry_price one_price
    then (if leb current_price one_price
        then ok (quantize_money (stake * current_price) entry_price)
        else err value_error)
    else err value_error
