-- ===== src/Backoff/Bounds.antt =====
-- Bounds of the delay before a failed task is tried again.
use argodemo.Common.{ℕ, zero, suc, ◌*◌, ◌≤◌, ◌<◌, arith}
use argodemo.Backoff.{
  second, exponential_delay_random_ms, calculate_delay_with_max, calculate_delay,
}

-- No delay after the first failure is above the maximum.
pub delay-le-max : (initial max k rnd : ℕ) → calculate_delay_with_max initial max (suc k) rnd ≤ max
unfolding calculate_delay_with_max
delay-le-max initial max k rnd = ground arith

-- 5 s before the first failure, then 6, 7, 9, 13 and 21 s, and 32 s from the sixth one on.
abbrev pub floor : ℕ → ℕ
floor zero = 5 * second
floor (suc zero) = 6 * second
floor (suc (suc zero)) = 7 * second
floor (suc (suc (suc zero))) = 9 * second
floor (suc (suc (suc (suc zero)))) = 13 * second
floor (suc (suc (suc (suc (suc zero))))) = 21 * second
floor _ = 32 * second

-- With an initial delay of five seconds, the delay for a count of failures is between the floor
-- of the count and that of the next one, whatever random milliseconds, below the bound, are added.
pub calculate_delay_range :
    (k rnd : ℕ)
    → rnd < exponential_delay_random_ms
    → (floor k ≤ calculate_delay (5 * second) k rnd)
      × (calculate_delay (5 * second) k rnd ≤ floor (suc k))
unfolding calculate_delay
calculate_delay_range zero rnd h = ground arith
calculate_delay_range (suc zero) rnd h = ground arith
calculate_delay_range (suc (suc zero)) rnd h = ground arith
calculate_delay_range (suc (suc (suc zero))) rnd h = ground arith
calculate_delay_range (suc (suc (suc (suc zero)))) rnd h = ground arith
calculate_delay_range (suc (suc (suc (suc (suc zero))))) rnd h = ground arith
calculate_delay_range (suc (suc (suc (suc (suc (suc k)))))) rnd h = ground arith

-- With an initial delay of five seconds, the next delay is never shorter, whatever random
-- milliseconds, below the bound, are added to the two.
pub calculate_delay_mono :
    (k rnd rnd' : ℕ)
    → rnd < exponential_delay_random_ms
    → rnd' < exponential_delay_random_ms
    → calculate_delay (5 * second) k rnd ≤ calculate_delay (5 * second) (suc k) rnd'
calculate_delay_mono k rnd rnd' h h' =
    omega (arith, calculate_delay_range k rnd h, calculate_delay_range (suc k) rnd' h')
