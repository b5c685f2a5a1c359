-- ===== src/Lease/Delay.antt =====
-- The two delays against their bounds and against one another.
use claimward_vpn_client.Common.{
  ℕ, ◌+◌, ◌*◌, ◌≤◌, ◌<◌, pos, negsuc, pos_part, neg_part, ◌≤ℤ◌, ◌<ℤ◌, int64_half, arith,
}
use claimward_vpn_client.Lease.{Duration, renew_delay, app_renew_delay, second, minute}

-- Whatever is left, the helper waits between 30 seconds and 10 minutes.
pub renew_delay_bounds :
    (r : Duration) → (pos (30 * second) ≤ℤ renew_delay r) × (renew_delay r ≤ℤ pos (10 * minute))
unfolding renew_delay
renew_delay_bounds r = ground arith

-- With a minute to 20 minutes left, the helper waits half of what is left, rounded down.
pub renew_delay_half :
    (n : ℕ)
    → 60 * second ≤ n
    → n ≤ 20 * minute
    → (pos_part (renew_delay (pos n)) * 2 ≤ n) × (n ≤ pos_part (renew_delay (pos n)) * 2 + 1)
unfolding renew_delay
renew_delay_half n h k = ground arith

-- Whatever is left, and even where doubling it wraps, the app waits between 20 seconds and 8 minutes.
pub app_renew_delay_bounds :
    (r : Duration)
    → (pos (20 * second) ≤ℤ app_renew_delay r) × (app_renew_delay r ≤ℤ pos (8 * minute))
unfolding app_renew_delay
app_renew_delay_bounds r = ground arith

-- The app brings its bearer before the helper renews, unless the lease ran out so long ago (146
-- years) that doubling it wraps.
pub app_renew_delay-lt :
    (r : Duration)
    → pos_part r < int64_half
    → neg_part r ≤ 4611686018427387904
    → app_renew_delay r <ℤ renew_delay r
unfolding renew_delay app_renew_delay
app_renew_delay-lt (pos n) h k = ground arith
app_renew_delay-lt (negsuc n) h k = ground arith
