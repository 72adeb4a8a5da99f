-- ===== src/Backoff.antt =====
-- shell-operator/pkg/utils/exponential_backoff/delay.go. Durations are nanoseconds; the random
-- addition of milliseconds is an argument. Retry counts and durations are not negative.
pub mod Bounds
mod Tests
use argodemo.Common.{ℕ, zero, suc, ◌+◌, ◌-◌, ◌*◌, ◌%◌, ◌^◌, ltb, leb, if◌then◌else◌}

abbrev pub second : ℕ
second = 1_000_000_000

abbrev pub millisecond : ℕ
millisecond = 1_000_000

abbrev pub max_exponential_backoff_delay : ℕ
max_exponential_backoff_delay = 32 * second

abbrev pub exponential_delay_factor : ℕ
exponential_delay_factor = 2

abbrev pub exponential_delay_random_ms : ℕ
exponential_delay_random_ms = 1000

-- `int(math.Log(32) / math.Log(2))`
abbrev pub exponential_calculations_count : ℕ
exponential_calculations_count = 5

-- `Duration.Truncate`
abbrev truncate : ℕ → ℕ → ℕ
truncate d m = d - d % m

abbrev delta : ℕ → ℕ → ℕ
delta max retry =
    if leb retry exponential_calculations_count
    then second * exponential_delay_factor ^ (retry - 1)
    else max

unfoldable pub calculate_delay_with_max : ℕ → ℕ → ℕ → ℕ → ℕ
calculate_delay_with_max initial max zero rnd = initial
calculate_delay_with_max initial max (suc k) rnd =
    let delay = truncate (initial + delta max (suc k) + rnd * millisecond) (100 * millisecond) in
    if ltb max delay then max else delay

unfoldable pub calculate_delay : ℕ → ℕ → ℕ → ℕ
unfolding calculate_delay_with_max
calculate_delay initial retry rnd =
    calculate_delay_with_max initial max_exponential_backoff_delay retry rnd
