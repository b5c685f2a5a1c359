-- ===== src/Access/Unix.antt =====
-- The owner and mode checks of pkg/helper/listen_unix.go, and `LoadConfig` of pkg/helper/helper.go,
-- which refuses a file that they refuse.
use claimward_vpn_client.Common.{
  ℕ, ◌/◌, ◌%◌, ◌==◌, ◌+++◌, ◌≡◌, sym, subst, ◌↔◌, ◌≢◌, String, [], Option, none, some, Bool, true,
  false, not, ◌&&◌, ◌||◌, Bool-cases, inl, inr, bit_and, Disjoint, is_zero_iff, decimal, is_blank,
  is_empty, if◌then◌else◌, arith, ◌⊎◌,
}
use claimward_vpn_client.Errors.{plain, Result, ok, err, ◌>>=◌, ◌>>◌, wrap, Result-cases}
use claimward_vpn_client.Helper.State.{Config}

-- What the code reads of `os.Stat`: the owner, if the system says one, the permission bits and the
-- sticky bit.
pub record FileInfo : Type 0 where
  pub uid : Option ℕ
  pub perm : ℕ
  pub sticky : Bool

abbrev letter : ℕ → ℕ → String → String
letter perm place s = if perm / place % 2 == 1 then s else "-"

-- `fi.Mode().Perm()` in text.
unfoldable pub mode_text : ℕ → String
mode_text m =
    "-"
    +++ letter m 256 "r"
    +++ letter m 128 "w"
    +++ letter m 64 "x"
    +++ letter m 32 "r"
    +++ letter m 16 "w"
    +++ letter m 8 "x"
    +++ letter m 4 "r"
    +++ letter m 2 "w"
    +++ letter m 1 "x"

-- Write permission for the group and for the others.
abbrev pub others_write : ℕ
others_write = 0o022

abbrev pub owner_ok : ℕ → FileInfo → Option ℕ → Result (Unit {0})
owner_ok root fi none = ok tt
owner_ok root fi (some u) =
    if not (u == root) || not (bit_and fi.perm others_write == 0)
    then err (
        plain (
          "must be owned by root and writable by root alone (owner "
          +++ decimal u
          +++ ", mode "
          +++ mode_text fi.perm
          +++ ")"))
    else ok tt

-- `checkOwner`; the first argument is `rootUID`.
unfoldable pub check_owner : ℕ → Result FileInfo → Result (Unit {0})
check_owner root stat = do fi ← stat; owner_ok root fi fi.uid

abbrev pub dir_ok : String → FileInfo → Option ℕ → Result (Unit {0})
dir_ok dir fi none = ok tt
dir_ok dir fi (some u) =
    if not (u == 0) || (not (bit_and fi.perm others_write == 0) && not fi.sticky)
    then err (
        plain (
          dir
          +++ " may be written by somebody other than root; the helper's socket would not be its own"))
    else ok tt

-- `checkDir`.
unfoldable pub check_dir : String → Result FileInfo → Result (Unit {0})
check_dir dir stat = do fi ← stat; dir_ok dir fi fi.uid

abbrev with_defaults : String → String → Config → Config
with_defaults group socket c = record c {
  group = if is_blank c.group then group else c.group;
  socket = if is_blank c.socket then socket else c.socket;
}

-- `LoadConfig`: what the file system says of the file, its text, and the platform's defaults.
unfoldable pub load_config :
    (String → Result Config)
    → ℕ
    → String
    → Result FileInfo
    → Result String
    → String
    → String
    → Result Config
load_config decode root path stat file group socket = do
  wrap path (check_owner root stat)
  b ← file
  c ← wrap path (decode b)
  if is_empty c.servers
      then err (
          plain (
            path
            +++ ": no servers: the helper must be told which claimward-vpn-server it may connect to"))
      else ok (with_defaults group socket c)

owner_ok_iff :
    (root u : ℕ) (fi : FileInfo)
    → (owner_ok root fi (some u) ≡ ok tt) ↔ ((u ≡ root) × Disjoint fi.perm others_write)
owner_ok_iff root u fi =
    let w = is_zero_iff fi.perm others_write in
    elim (Bool-cases (u == root)) [
      | inr stranger ↦ (λ h. absurd (ground arith), λ h. absurd (ground (arith, h.0)))
      | inl roots ↦ elim (Bool-cases (bit_and fi.perm others_write == 0)) [
        | inr writable ↦ (λ h. absurd (ground arith), λ h. absurd (ground (arith, w.1 h.1)))
        | inl shut ↦ (λ h. (ground arith, w.0 shut), λ h. ground arith)
      ]
    ]

dir_ok_iff :
    (dir : String) (u : ℕ) (fi : FileInfo)
    → (dir_ok dir fi (some u) ≡ ok tt)
      ↔ ((u ≡ 0) × (Disjoint fi.perm others_write ⊎ (fi.sticky ≡ true)))
dir_ok_iff dir u fi =
    let w = is_zero_iff fi.perm others_write in
    elim (Bool-cases (u == 0)) [
      | inr stranger ↦ (λ h. absurd (ground arith), λ h. absurd (ground (arith, h.0)))
      | inl roots ↦ elim (Bool-cases fi.sticky) [
        | inl kept ↦ (λ h. (ground arith, inr kept), λ h. ground arith)
        | inr loose ↦ elim (Bool-cases (bit_and fi.perm others_write == 0)) [
          | inl shut ↦ (λ h. (ground arith, inl (w.0 shut)), λ h. ground arith)
          | inr writable ↦ (
            λ h. absurd (ground arith),
            λ h. elim h.1 [
              | inl d ↦ absurd (ground (arith, w.1 d))
              | inr kept ↦ absurd (ground arith)
            ],
          )
        ]
      ]
    ]

-- A file whose owner is known is accepted exactly when root owns it and neither its group nor the
-- others may write it.
pub check_owner_iff :
    (root u : ℕ) (fi : FileInfo)
    → fi.uid ≡ some u
    → (check_owner root (ok fi) ≡ ok tt) ↔ ((u ≡ root) × Disjoint fi.perm others_write)
unfolding check_owner
check_owner_iff root u fi e =
    subst (λ o. (owner_ok root fi o ≡ ok tt) ↔ ((u ≡ root) × Disjoint fi.perm others_write)) (sym e)
      (owner_ok_iff root u fi)

-- A directory whose owner is known is accepted exactly when root owns it and the group and the others
-- may not write it, or only under the sticky bit.
pub check_dir_iff :
    (dir : String) (u : ℕ) (fi : FileInfo)
    → fi.uid ≡ some u
    → (check_dir dir (ok fi) ≡ ok tt)
      ↔ ((u ≡ 0) × (Disjoint fi.perm others_write ⊎ (fi.sticky ≡ true)))
unfolding check_dir
check_dir_iff dir u fi e =
    subst
      (λ o.
        (dir_ok dir fi o ≡ ok tt)
        ↔ ((u ≡ 0) × (Disjoint fi.perm others_write ⊎ (fi.sticky ≡ true))))
      (sym e) (dir_ok_iff dir u fi)

-- A configuration that is loaded names a server, has a group and a socket, and came from a file that
-- the check of its owner accepted.
pub load_config_lem :
    (decode : String → Result Config) (root : ℕ) (path : String) (stat : Result FileInfo)
    (file : Result String) (group socket : String) (c : Config)
    → is_blank group ≡ false
    → is_blank socket ≡ false
    → load_config decode root path stat file group socket ≡ ok c
    → (check_owner root stat ≡ ok tt)
      × (c.servers ≢ [])
      × (is_blank c.group ≡ false)
      × (is_blank c.socket ≡ false)
unfolding load_config
load_config_lem decode root path stat file group socket c g s h =
    elim (Result-cases (check_owner root stat)) [
      | inr (e, refused) ↦ absurd (ground arith)
      | inl (u, accepted) ↦ elim (Result-cases file) [
        | inr (e, unread) ↦ absurd (ground arith)
        | inl (b, text) ↦ elim (Result-cases (decode b)) [
          | inr (e, broken) ↦ absurd (ground arith)
          | inl (d, decoded) ↦ (accepted, λ none_named. ground arith, ground arith, ground arith)
        ]
      ]
    ]
