-- ===== src/Serial/Cadence/Divisor.antt =====
-- The divisor of firmware/serial/cadence-uart.c.
use native.Mathlib.Nat.{div-add-mod'}
use zstage.Base.{
  ℕ, zero, suc, ◌+◌, ◌-◌, ◌*◌, ◌/◌, ◌%◌, ◌^◌, ◌<◌, ◌≤◌, ◌≡◌, ◌⊎◌, inl, inr, refl, arith, ◌==◌,
  if◌then◌else◌, false,
}
use zstage.Serial.Cadence.{uart_min_clk_divisor}

-- The least divisor, by quotient and remainder of the rounded-up division.
from_quotient :
    (q r hz f : ℕ)
    → q * hz + r ≡ f + hz - 1
    → r < hz
    → f < 2 ^ 32
    → (f ≤ hz * ((if q == 0 then 0 else (q - 1) % 2 ^ 32) + 1))
      × (((if q == 0 then 0 else (q - 1) % 2 ^ 32) ≡ 0)
          ⊎ (hz * (if q == 0 then 0 else (q - 1) % 2 ^ 32) < f))
from_quotient zero r hz f e l h = (ground arith, inl refl)
from_quotient (suc k) r hz f e l h =
    let below : k * hz < f = omega arith in
    let small : k < 2 ^ 32 = grind arith in
    let same : (suc k - 1) % 2 ^ 32 ≡ k = omega arith in
    let nonzero : (suc k == 0) ≡ false = ground arith in
    rw (same, nonzero) (omega arith, inr (omega arith))

-- For a frequency and a target above 0 that fit `u32`, the divisor `d` is the least with
-- `in_freq ≤ max_target_hz * (d + 1)`.
pub uart_min_clk_divisor-least :
    (in_freq max_target_hz : ℕ)
    → in_freq < 2 ^ 32
    → 0 < max_target_hz
    → max_target_hz < 2 ^ 32
    → (in_freq ≤ max_target_hz * (uart_min_clk_divisor in_freq max_target_hz + 1))
      × ((uart_min_clk_divisor in_freq max_target_hz ≡ 0)
          ⊎ (max_target_hz * uart_min_clk_divisor in_freq max_target_hz < in_freq))
unfolding uart_min_clk_divisor
uart_min_clk_divisor-least in_freq hz f p h =
    let no_wrap : (in_freq + hz - 1) % 2 ^ 64 ≡ in_freq + hz - 1 = omega arith in
    let n = in_freq + hz - 1 in
    rw no_wrap (from_quotient (n / hz) (n % hz) hz in_freq (div-add-mod' n hz) (grind arith) f)
