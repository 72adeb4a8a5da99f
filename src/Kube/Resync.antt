-- ===== src/Kube/Resync.antt =====
-- `RandomizedResyncPeriod` of shell-operator/pkg/kube_events_manager/util.go, in nanoseconds. The
-- two calls of `rand.Int63n` are parameters.
use argodemo.Common.{ℕ, ◌+◌, ◌-◌, ◌*◌, ◌/◌, ◌≤◌, ◌<◌, arith}

abbrev pub second : ℕ
second = 1000000000

abbrev resync_period_median : ℕ
resync_period_median = 3 * (3600 * second)

abbrev resync_period_spread : ℕ
resync_period_spread = 2 * (3600 * second)

abbrev resync_period_granularity : ℕ
resync_period_granularity = 5 * (60 * second)

abbrev resync_period_jitter_granularity : ℕ
resync_period_jitter_granularity = 15 * second

unfoldable pub randomized_resync_period : (ℕ → ℕ) → (ℕ → ℕ) → ℕ
randomized_resync_period random random' =
    let spread_count = resync_period_spread / resync_period_granularity in
    let rnd_spread_delta = random spread_count * resync_period_granularity in
    let jitter_count = resync_period_granularity / resync_period_jitter_granularity in
    let rnd_jitter_delta = random' jitter_count * resync_period_jitter_granularity in
    (resync_period_median - resync_period_spread / 2) + rnd_spread_delta + rnd_jitter_delta

-- With random numbers below the bound that each is drawn for, a resync period is at least two
-- hours and at most fifteen seconds less than four hours.
pub randomized_resync_period_range :
    (random random' : ℕ → ℕ)
    → ((n : ℕ) → 0 < n → random n < n)
    → ((n : ℕ) → 0 < n → random' n < n)
    → (2 * (3600 * second) ≤ randomized_resync_period random random')
      × (randomized_resync_period random random' + 15 * second ≤ 4 * (3600 * second))
unfolding randomized_resync_period
randomized_resync_period_range random random' below below' = (
  omega (arith, below 24, below' 20),
  omega (arith, below 24 (omega arith), below' 20 (omega arith)),
)
