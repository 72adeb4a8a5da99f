-- ===== src/Backoff/Tests.antt =====
-- Delays at sample inputs, and the theorems about them applied.
use argodemo.Common.{◌≡◌, refl, ◌*◌, ◌+◌, ◌≤◌, arith}
use argodemo.Backoff.{second, millisecond, calculate_delay}
use argodemo.Backoff.Bounds.{calculate_delay_range}

delay_third : calculate_delay (5 * second) 3 450 ≡ 9 * second + 400 * millisecond
unfolding calculate_delay
delay_third = refl

calculate_delay_range_example :
    (7 * second ≤ calculate_delay (5 * second) 2 999)
    × (calculate_delay (5 * second) 2 999 ≤ 9 * second)
calculate_delay_range_example = calculate_delay_range 2 999 (omega arith)
