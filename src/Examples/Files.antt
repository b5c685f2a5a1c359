-- ===== src/Examples/Files.antt =====
-- The files of pkg/helper and of pkg/tokenstore: who may write them, and saves that fail.
use claimward_vpn_client.Common.{
  ℕ, ◌≡◌, ◌≢◌, ◌↔◌, ◌⊎◌, refl, [], ◌∷◌, none, some, true, false, All, Disjoint, is_blank,
}
use claimward_vpn_client.Errors.{ok, err, plain}
use claimward_vpn_client.Helper.State.{Config}
use claimward_vpn_client.Access.{check_acl, trusted, Ace}
use claimward_vpn_client.Access.Windows.{IsHarmless, check_acl_iff}
use claimward_vpn_client.Access.Unix.{
  FileInfo, check_owner, check_dir, others_write, check_dir_iff, load_config, load_config_lem,
}
use claimward_vpn_client.Store.{Stored, Files, Os, no_session, save}

-- Everybody may write.
abbrev everybody : Ace
everybody = record { kind = 0; flags = 0; mask = 2; sid = "S-1-1-0" }

check_acl_iff_example :
    (check_acl "S-1-5-18" (everybody ∷ []) false ≡ ok tt)
    ↔ ((trusted "S-1-5-18" ≡ true) × (false ≡ false) × All IsHarmless (everybody ∷ []))
check_acl_iff_example = check_acl_iff "S-1-5-18" (everybody ∷ []) false

abbrev root : ℕ
root = 0

abbrev private : FileInfo
private = record { uid = some 0; perm = 0o644; sticky = false }

abbrev shared : FileInfo
shared = record { uid = some 0; perm = 0o777; sticky = true }

check_dir_iff_example :
    (check_dir "/tmp" (ok shared) ≡ ok tt)
    ↔ ((root ≡ root) × (Disjoint 0o777 others_write ⊎ (true ≡ true)))
check_dir_iff_example = check_dir_iff "/tmp" 0 shared refl

abbrev config : Config
config = record { servers = "https://vpn.example" ∷ []; group = ""; socket = "" }

abbrev filled : Config
filled = record config { group = "claimward"; socket = "/run/s" }

config_loads :
    load_config (λ _. ok config) 0 "helper.json" (ok private) (ok "{}") "claimward" "/run/s"
    ≡ ok filled
unfolding load_config check_owner
config_loads = refl

load_config_lem_example :
    (check_owner 0 (ok private) ≡ ok tt)
    × (filled.servers ≢ [])
    × (is_blank filled.group ≡ false)
    × (is_blank filled.socket ≡ false)
load_config_lem_example =
    load_config_lem (λ _. ok config) 0 "helper.json" (ok private) (ok "{}") "claimward" "/run/s"
      filled refl refl config_loads

abbrev signed_in : Stored
signed_in = record no_session { provider = "github"; bearer = "token" }

abbrev os : Os
os = record {
  user_dir = ok tt;
  read = ok tt;
  mkdir = ok tt;
  write = ok tt;
  written = none;
  rename = ok tt;
  remove = ok tt;
  encode = λ s. s.bearer;
  decode = λ _. ok signed_in;
}

abbrev full : Os
full = record os { write = err (plain "no space left on device"); written = some "{" }

abbrev files : Files
files = record { session = some "old"; tmp = none }

signed_in_saved : (save os files signed_in).1 ≡ ok tt
unfolding save
signed_in_saved = refl
