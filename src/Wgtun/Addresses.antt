-- ===== src/Wgtun/Addresses.antt =====
-- What pkg/wgtun uses of Go's `net/netip`: addresses and prefixes as numbers, and their order. Only
-- their text is a parameter (`Syntax`).
use claimward_vpn_client.Common.{
  ℕ, ◌-◌, ◌*◌, ◌/◌, ◌%◌, ◌^◌, ◌==◌, ltb, String, Bool, true, false, ◌&&◌, ◌≡◌, ◌⊎◌, inl, inr, arith,
  if◌then◌else◌,
}
use claimward_vpn_client.Errors.{Result}

-- `netip.Addr`, of 32 or 128 bits.
pub data Addr : Type 0 where
  v4 : ℕ → Addr
  v6 : ℕ → Addr

-- `netip.Prefix`, which has no zone.
pub record Prefix : Type 0 where
  pub addr : Addr
  pub bits : ℕ

-- An address with its IPv6 zone, which a resolver's may have.
pub record Zoned : Type 0 where
  pub addr : Addr
  pub zone : String

-- `ParsePrefix` and `ParseAddr`.
pub record Syntax : Type 0 where
  pub parse_prefix : String → Result Prefix
  pub parse_addr : String → Result Zoned

abbrev pub is4 : Addr → Bool
is4 (v4 n) = true
is4 (v6 n) = false

-- `Is4In6`: the upper 96 bits are those of an IPv4-mapped address.
abbrev pub is_4in6 : Addr → Bool
is_4in6 (v4 n) = false
is_4in6 (v6 n) = n / 2 ^ 32 == 0xffff

abbrev pub unmap : Addr → Addr
unmap (v4 n) = v4 n
unmap (v6 n) = if n / 2 ^ 32 == 0xffff then v4 (n % 2 ^ 32) else v6 n

abbrev pub unmap_zoned : Zoned → Zoned
unmap_zoned a = if is_4in6 a.addr then record { addr = unmap a.addr; zone = "" } else a

-- The first `bits` bits of a number of `width`, and zeros.
abbrev pub top_bits : ℕ → ℕ → ℕ → ℕ
top_bits width bits n = n / 2 ^ (width - bits) * 2 ^ (width - bits)

abbrev masked_addr : ℕ → Addr → Addr
masked_addr bits (v4 n) = v4 (top_bits 32 bits n)
masked_addr bits (v6 n) = v6 (top_bits 128 bits n)

-- `Masked`.
unfoldable pub masked : Prefix → Prefix
masked r = record r { addr = masked_addr r.bits r.addr }

abbrev pub addr_eq : Addr → Addr → Bool
addr_eq (v4 m) (v4 n) = m == n
addr_eq (v4 m) (v6 n) = false
addr_eq (v6 m) (v4 n) = false
addr_eq (v6 m) (v6 n) = m == n

-- `Compare`, below 0: the shorter address first.
abbrev pub addr_lt : Addr → Addr → Bool
addr_lt (v4 m) (v4 n) = ltb m n
addr_lt (v4 m) (v6 n) = true
addr_lt (v6 m) (v4 n) = false
addr_lt (v6 m) (v6 n) = ltb m n

abbrev pub prefix_eq : Prefix → Prefix → Bool
prefix_eq r s = addr_eq r.addr s.addr && r.bits == s.bits

-- The order of `sortPrefixes`.
unfoldable pub prefix_lt : Prefix → Prefix → Bool
prefix_lt r s = if addr_eq r.addr s.addr then ltb r.bits s.bits else addr_lt r.addr s.addr

addr_eq_lem : (a b : Addr) → addr_eq a b ≡ true → a ≡ b
addr_eq_lem (v4 m) (v4 n) h = ground arith
addr_eq_lem (v4 m) (v6 n) h = cc
addr_eq_lem (v6 m) (v4 n) h = cc
addr_eq_lem (v6 m) (v6 n) h = ground arith

pub prefix_eq_lem : (r s : Prefix) → prefix_eq r s ≡ true → r ≡ s
prefix_eq_lem r s h = ground (arith, addr_eq_lem r.addr s.addr)

pub prefix_eq_self : (r : Prefix) → prefix_eq r r ≡ true
prefix_eq_self r = self r.addr
  where
    self : (a : Addr) → (addr_eq a a && r.bits == r.bits) ≡ true
    self (v4 n) = ground arith
    self (v6 n) = ground arith

-- A prefix that is not after another, and not the same, is before it.
prefix_lt_total_at :
    (a b : Addr) (m n : ℕ)
    → (if addr_eq b a then ltb n m else addr_lt b a) ≡ false
    → ((addr_eq a b && m == n) ≡ true) ⊎ ((if addr_eq a b then ltb m n else addr_lt a b) ≡ true)
prefix_lt_total_at (v4 x) (v4 y) m n h = ground arith
prefix_lt_total_at (v4 x) (v6 y) m n h = ground arith
prefix_lt_total_at (v6 x) (v4 y) m n h = ground arith
prefix_lt_total_at (v6 x) (v6 y) m n h = ground arith

pub prefix_lt_total : (r s : Prefix) → prefix_lt s r ≡ false → (r ≡ s) ⊎ (prefix_lt r s ≡ true)
unfolding prefix_lt
prefix_lt_total r s h = elim (prefix_lt_total_at r.addr s.addr r.bits s.bits h) [
  | inl e ↦ inl (prefix_eq_lem r s e)
  | inr l ↦ inr l
]

prefix_lt_trans_at :
    (a b c : Addr) (l m n : ℕ)
    → (if addr_eq a b then ltb l m else addr_lt a b) ≡ true
    → (if addr_eq b c then ltb m n else addr_lt b c) ≡ true
    → (if addr_eq a c then ltb l n else addr_lt a c) ≡ true
prefix_lt_trans_at (v4 x) (v4 y) (v4 z) l m n h k = ground arith
prefix_lt_trans_at (v4 x) (v4 y) (v6 z) l m n h k = ground arith
prefix_lt_trans_at (v4 x) (v6 y) (v4 z) l m n h k = ground arith
prefix_lt_trans_at (v4 x) (v6 y) (v6 z) l m n h k = ground arith
prefix_lt_trans_at (v6 x) (v4 y) c l m n h k = ground arith
prefix_lt_trans_at (v6 x) (v6 y) (v4 z) l m n h k = ground arith
prefix_lt_trans_at (v6 x) (v6 y) (v6 z) l m n h k = ground arith

pub prefix_lt_trans :
    (r s t : Prefix) → prefix_lt r s ≡ true → prefix_lt s t ≡ true → prefix_lt r t ≡ true
unfolding prefix_lt
prefix_lt_trans r s t = prefix_lt_trans_at r.addr s.addr t.addr r.bits s.bits t.bits
