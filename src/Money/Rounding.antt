-- ===== src/Money/Rounding.antt =====
-- What backend/app/settlement/payout.py computes: nearest amounts, order, and the raised errors.
use native.Mathlib.Nat.{lt-mul-div-succ, mul-div-le}
use mathlib.Core.Path.{subst}
use native.Mathlib.Decide.{dec_lt}
use xpredict.Prelude.{ℕ, ◌+◌, ◌*◌, ◌/◌, ◌≤◌, ◌<◌, ◌≡◌, ◌↔◌, ◌⊎◌, arith, ap, sym, ◌∙◌}
use xpredict.Prelude.Int.{ℤ, pos, negsuc, ◌-ℤ◌}
use xpredict.Money.{
  one_price, quantize_money, quantize_signed, compute_payout, profit_or_loss, cashout_value,
}
use xpredict.Money.Errors.{Error, ok, err, value_error}

-- `q` is num / den rounded to the nearest tick, a half going up.
pub record IsNearest (num den q : ℕ) : Type 0 where
  pub low : 2 * q * den ≤ 2 * num + den
  pub high : 2 * num < 2 * q * den + den

quantize-low : (n d : ℕ) → 2 * d * ((2 * n + d) / (2 * d)) ≤ 2 * n + d
quantize-low n d = mul-div-le (2 * n + d) (2 * d)

quantize-high : (n d : ℕ) → 0 < d → 2 * n + d < 2 * d * ((2 * n + d) / (2 * d) + 1)
quantize-high n d h = lt-mul-div-succ (2 * n + d) (omega arith)

pub quantize_money-IsNearest : (n d : ℕ) → 0 < d → IsNearest n d (quantize_money n d)
unfolding quantize_money
quantize_money-IsNearest n d h = record {
  low = omega (arith, quantize-low n d);
  high = omega (arith, quantize-high n d h);
}

mul_le_mul : (a b c : ℕ) → a ≤ b → a * c ≤ b * c
mul_le_mul a b c h = grind arith

mul_lt_mul : (a b c : ℕ) → a < b → 0 < c → a * c < b * c
mul_lt_mul a b c h p = grind arith

-- Nearest amounts are in the order of the rounded fractions, n / d ≤ m / e.
pub IsNearest-mono :
    (n d m e q r : ℕ) → 0 < d → 0 < e → n * e ≤ m * d → IsNearest n d q → IsNearest m e r → q ≤ r
IsNearest-mono n d m e q r pd pe h a b = elim (dec_lt r q) [
  | no k ↦ omega arith
  | yes k ↦ absurd (
      omega (
        arith,
        mul_le_mul (2 * q * d) (2 * n + d) e a.low,
        mul_lt_mul (2 * m) (2 * r * e + e) d b.high pd,
        mul_le_mul (r + 1) q (d * e) (omega arith),
      ))
]

-- A whole number of ticks is its own nearest amount.
pub IsNearest-exact : (n d q : ℕ) → 0 < d → IsNearest (n * d) d q → q ≡ n
IsNearest-exact n d q pd a =
    let self : IsNearest (n * d) d n = omega arith in
    omega (
      arith,
      IsNearest-mono (n * d) d (n * d) d q n pd pd (omega arith) a self,
      IsNearest-mono (n * d) d (n * d) d n q pd pd (omega arith) self a,
    )

pub compute_payout-ok :
    (stake price : ℕ)
    → 0 < stake
    → 0 < price
    → price ≤ one_price
    → compute_payout stake price ≡ ok (quantize_money (stake * one_price) price)
unfolding compute_payout
compute_payout-ok stake price hs hp h1 = ground arith

-- A call that returns had a stake and a price in range, and returned the quotient.
pub compute_payout-inv :
    (stake price q : ℕ)
    → compute_payout stake price ≡ ok q
    → (0 < stake)
      × (0 < price)
      × (price ≤ one_price)
      × (q ≡ quantize_money (stake * one_price) price)
unfolding compute_payout
compute_payout-inv stake price q h = ground arith

pub cashout_value-ok :
    (stake entry current : ℕ)
    → 0 < stake
    → 0 < entry
    → entry ≤ one_price
    → current ≤ one_price
    → cashout_value stake entry current ≡ ok (quantize_money (stake * current) entry)
unfolding cashout_value
cashout_value-ok stake entry current hs he h1 hc = ground arith

pub cashout_value-inv :
    (stake entry current q : ℕ)
    → cashout_value stake entry current ≡ ok q
    → (0 < stake)
      × (0 < entry)
      × (entry ≤ one_price)
      × (current ≤ one_price)
      × (q ≡ quantize_money (stake * current) entry)
unfolding cashout_value
cashout_value-inv stake entry current q h = ground arith

quantized : (n d q : ℕ) → 0 < d → q ≡ quantize_money n d → IsNearest n d q
quantized n d q pd e = rw e (quantize_money-IsNearest n d pd)

-- A winning bet is paid stake / price to the nearest tick, a half up, and never less than its
-- stake.
pub compute_payout-IsNearest :
    (stake price q : ℕ)
    → compute_payout stake price ≡ ok q
    → IsNearest (stake * one_price) price q × (stake ≤ q)
compute_payout-IsNearest stake price q h =
    let (hs, hp, h1, e) = compute_payout-inv stake price q h in
    let near = quantized (stake * one_price) price q hp e in
    let self : IsNearest (stake * price) price stake = omega arith in
    (
      near,
      IsNearest-mono (stake * price) price (stake * one_price) price stake q hp hp
          (omega (arith, mul_le_mul price one_price (stake * price) h1)) self near,
    )

-- `compute_payout` raises exactly for a stake of zero or a price outside (0, 1], and what it
-- raises is ValueError.
pub compute_payout_raises :
    (stake price : ℕ)
    → ((e : Error) × (compute_payout stake price ≡ err e))
      ↔ ((stake ≡ 0) ⊎ (price ≡ 0) ⊎ (one_price < price))
unfolding compute_payout
compute_payout_raises stake price = (λ (e, h). ground arith, λ h. (value_error, ground arith))

-- Raising the stake or lowering the price never lowers the payout.
pub compute_payout_mono :
    (stake price q stake' price' q' : ℕ)
    → compute_payout stake price ≡ ok q
    → compute_payout stake' price' ≡ ok q'
    → stake ≤ stake'
    → price' ≤ price
    → q ≤ q'
compute_payout_mono stake price q stake' price' q' h h' le ge =
    let (_, hp, _, e) = compute_payout-inv stake price q h in
    let (_, hp', _, e') = compute_payout-inv stake' price' q' h' in
    IsNearest-mono (stake * one_price) price (stake' * one_price) price' q q' hp hp'
      (omega (
        arith,
        mul_le_mul stake stake' (one_price * price') le,
        mul_le_mul price' price (stake' * one_price) ge,
      ))
      (quantized _ _ q hp e) (quantized _ _ q' hp' e')

-- The P&L of a position is its payout less its stake, exactly: nothing is lost to rounding.
pub profit_or_loss-exact :
    (stake payout : ℕ) → profit_or_loss stake payout ≡ pos payout -ℤ pos stake
unfolding profit_or_loss
profit_or_loss-exact stake payout = go (pos payout -ℤ pos stake)
  where
    go : (z : ℤ) → quantize_signed z 1 ≡ z
    go (pos n) = ground arith
    go (negsuc n) = ground arith

-- At the entry price a position is worth its stake; at a price of 1 it is worth the payout of a
-- win, and at 0 nothing.
pub cashout_value_anchors :
    (stake entry q : ℕ)
    → compute_payout stake entry ≡ ok q
    → (cashout_value stake entry entry ≡ ok stake)
      × (cashout_value stake entry one_price ≡ ok q)
      × (cashout_value stake entry 0 ≡ ok 0)
cashout_value_anchors stake entry q h =
    let (hs, he, h1, e) = compute_payout-inv stake entry q h in
    (
      cashout_value-ok stake entry entry hs he h1 h1
          ∙ ap ok (
              IsNearest-exact stake entry _ he (quantize_money-IsNearest (stake * entry) entry he)),
      cashout_value-ok stake entry one_price hs he h1 (omega arith) ∙ ap ok (sym e),
      cashout_value-ok stake entry 0 hs he h1 (omega arith)
          ∙ ap ok (
              IsNearest-exact 0 entry _ he (
                subst (λ z. IsNearest z entry (quantize_money (stake * 0) entry)) (omega arith)
                  (quantize_money-IsNearest (stake * 0) entry he))),
    )

-- The cash-out value of a position does not fall when the live price rises, and never passes the
-- payout of a win.
pub cashout_value_mono :
    (stake entry c c' v v' q : ℕ)
    → cashout_value stake entry c ≡ ok v
    → cashout_value stake entry c' ≡ ok v'
    → compute_payout stake entry ≡ ok q
    → c ≤ c'
    → (v ≤ v') × (v' ≤ q)
cashout_value_mono stake entry c c' v v' q h h' hq le =
    let (_, he, _, _, e) = cashout_value-inv stake entry c v h in
    let (_, _, _, h1, e') = cashout_value-inv stake entry c' v' h' in
    let (_, _, _, eq) = compute_payout-inv stake entry q hq in
    (
      IsNearest-mono (stake * c) entry (stake * c') entry v v' he he
          (omega (arith, mul_le_mul c c' (stake * entry) le)) (quantized _ _ v he e)
          (quantized _ _ v' he e'),
      IsNearest-mono (stake * c') entry (stake * one_price) entry v' q he he
          (omega (arith, mul_le_mul c' one_price (stake * entry) h1)) (quantized _ _ v' he e')
          (quantized _ _ q he eq),
    )
