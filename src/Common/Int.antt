-- ===== src/Common/Int.antt =====
-- Signed integers over the native numbers, and the 64-bit ones of `time.Duration`.
use Prim.Native.Nat.{ℕ, suc, ◌+◌, ◌-◌, ◌*◌, ◌/◌, ◌%◌, ◌≤◌, ◌<◌}
use mathlib.Core.Bool.{Bool}
use claimward_vpn_client.Common.Tests.{ltb, leb, if◌then◌else◌}

-- `negsuc n` is -(n + 1).
pub data ℤ : Type 0 where
  pos : ℕ → ℤ
  negsuc : ℕ → ℤ

abbrev pub pos_part : ℤ → ℕ
pos_part (pos n) = n
pos_part (negsuc n) = 0

abbrev pub neg_part : ℤ → ℕ
neg_part (pos n) = 0
neg_part (negsuc n) = suc n

-- a - b, as an integer.
abbrev pub sub_ℕ : ℕ → ℕ → ℤ
sub_ℕ a b = if leb b a then pos (a - b) else negsuc (b - a - 1)

infix 50 ◌≤ℤ◌ ◌<ℤ◌
abbrev pub ◌≤ℤ◌ : ℤ → ℤ → Type 0
a ≤ℤ b = pos_part a + neg_part b ≤ pos_part b + neg_part a

abbrev pub ◌<ℤ◌ : ℤ → ℤ → Type 0
a <ℤ b = pos_part a + neg_part b < pos_part b + neg_part a

abbrev pub leb_ℤ : ℤ → ℤ → Bool
leb_ℤ a b = leb (pos_part a + neg_part b) (pos_part b + neg_part a)

abbrev pub min_ℤ : ℤ → ℤ → ℤ
min_ℤ a b = if leb_ℤ a b then a else b

abbrev pub max_ℤ : ℤ → ℤ → ℤ
max_ℤ a b = if leb_ℤ a b then b else a

abbrev pub int64_half : ℕ
int64_half = 9223372036854775808

abbrev pub int64_mod : ℕ
int64_mod = 18446744073709551616

-- The 64-bit pattern of an integer, and the signed integer that a pattern stands for.
abbrev pub to_word : ℤ → ℕ
to_word (pos n) = n % int64_mod
to_word (negsuc n) = int64_mod - 1 - n % int64_mod

abbrev pub of_word : ℕ → ℤ
of_word u = if ltb u int64_half then pos u else negsuc (int64_mod - 1 - u)

-- int64 `*` by a constant, which wraps, and `/` by a constant, which rounds towards zero.
abbrev pub mul_int64 : ℤ → ℕ → ℤ
mul_int64 (pos n) k = of_word (n * k % int64_mod)
mul_int64 (negsuc n) k = of_word ((int64_mod - suc n * k % int64_mod) % int64_mod)

abbrev pub quot_int64 : ℤ → ℕ → ℤ
quot_int64 (pos n) k = pos (n / k)
quot_int64 (negsuc n) k = sub_ℕ 0 (suc n / k)

-- int64 `+`, which wraps.
abbrev pub add_int64 : ℤ → ℤ → ℤ
add_int64 a b = of_word ((to_word a + to_word b) % int64_mod)
