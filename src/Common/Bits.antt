-- ===== src/Common/Bits.antt =====
-- The bits of a mask, and the masks that `bit_and` finds nothing in common between.
use Prim.Native.Nat.{ℕ, zero, suc, ◌/◌, ◌%◌, ◌≤◌, min, bit_and, digits, bit_and-bitwise}
use mathlib.Core.Path.{◌≡◌, refl, sym, ◌∙◌}
use mathlib.Core.Logic.{◌↔◌}
use mathlib.Core.Bool.{true}
use native.Mathlib.Omega.{arith}
use claimward_vpn_client.Common.Tests.{◌==◌, ==_iff}

-- The bit at a place.
abbrev pub bit : ℕ → ℕ → ℕ
bit zero m = m % 2
bit (suc k) m = bit k (m / 2)

-- Two masks with no bit in common.
abbrev pub Disjoint : ℕ → ℕ → Type 0
Disjoint m w = (k : ℕ) → bit k w ≡ 1 → bit k m ≡ 0

-- What `bit_and` computes, at any fuel.
abbrev conj : ℕ → ℕ → ℕ → ℕ
conj fuel m w = digits (λ _. 0) min fuel m w

bit-zero : (k : ℕ) → bit k 0 ≡ 0
bit-zero zero = refl
bit-zero (suc k) = bit-zero k

conj_apart : (fuel m w : ℕ) → m ≤ fuel → conj fuel m w ≡ 0 → Disjoint m w
conj_apart fuel zero w h e k set = bit-zero k
conj_apart zero (suc m) w h e k set = absurd (omega arith)
conj_apart (suc fuel) (suc m) w h e zero set = omega arith
conj_apart (suc fuel) (suc m) w h e (suc k) set =
    conj_apart fuel (suc m / 2) (w / 2) (omega arith) (omega arith) k set

apart_conj : (fuel m w : ℕ) → m ≤ fuel → Disjoint m w → conj fuel m w ≡ 0
apart_conj zero zero w h d = refl
apart_conj (suc fuel) zero w h d = refl
apart_conj zero (suc m) w h d = absurd (omega arith)
apart_conj (suc fuel) (suc m) w h d =
    let higher = apart_conj fuel (suc m / 2) (w / 2) (omega arith) (λ k. d (suc k)) in
    let lowest : w % 2 ≡ 1 → suc m % 2 ≡ 0 = d 0 in ground (arith, higher, lowest)

pub is_zero_iff : (m w : ℕ) → ((bit_and m w == 0) ≡ true) ↔ Disjoint m w
is_zero_iff m w = (
  λ h. conj_apart m m w (omega arith) (sym (bit_and-bitwise m w) ∙ (==_iff (bit_and m w) 0).0 h),
  λ d. (==_iff (bit_and m w) 0).1 (bit_and-bitwise m w ∙ apart_conj m m w (omega arith) d),
)
