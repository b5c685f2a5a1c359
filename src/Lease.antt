-- ===== src/Lease.antt =====
-- When a lease is renewed: `renewDelay` of pkg/helper/helper.go and of pkg/appcore/appcore.go, and
-- the arithmetic of Go's `time` that they and the helper's renewals use.
--
-- An instant is the number of nanoseconds since Go's zero time, so that `IsZero` is a test for 0.
-- A `time.Duration` is an int64 of nanoseconds.
pub mod Delay
use claimward_vpn_client.Common.{
  ℕ, ◌+◌, ◌-◌, ◌==◌, Bool, ℤ, pos, pos_part, neg_part, sub_ℕ, min_ℤ, max_ℤ, int64_half, negsuc,
  mul_int64, quot_int64,
}

abbrev pub Time : Type 0
Time = ℕ

abbrev pub Duration : Type 0
Duration = ℤ

abbrev pub second : ℕ
second = 1000000000

abbrev pub minute : ℕ
minute = 60000000000

abbrev pub hour : ℕ
hour = 3600000000000

abbrev pub is_zero : Time → Bool
is_zero t = t == 0

-- `t.Add(d)`.
abbrev pub add_time : Time → Duration → Time
add_time t d = t + pos_part d - neg_part d

-- `time.Until(t)` at `now`: the difference, held within the int64 range.
abbrev pub until : Time → Time → Duration
until t now = min_ℤ (max_ℤ (sub_ℕ t now) (negsuc (int64_half - 1))) (pos (int64_half - 1))

abbrev pub max_renew_delay : Duration
max_renew_delay = pos 600000000000

-- The helper's: at half of what the lease has left.
unfoldable pub renew_delay : Duration → Duration
renew_delay remaining = min_ℤ (max_ℤ (quot_int64 remaining 2) (pos 30000000000)) max_renew_delay

-- The app's: at 40% of it.
unfoldable pub app_renew_delay : Duration → Duration
app_renew_delay remaining =
    min_ℤ (max_ℤ (quot_int64 (mul_int64 remaining 2) 5) (pos 20000000000)) (pos 480000000000)
