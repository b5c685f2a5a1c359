-- ===== src/Examples/Sockets.antt =====
-- The helper's sockets on a host that takes every call.
use claimward_vpn_client.Common.{ℕ, ◌≡◌, ◌↔◌, ◌⊎◌, refl, String, List, [], ◌∷◌, none, some, false}
use claimward_vpn_client.Errors.{ok, err, Error}
use claimward_vpn_client.Access.{sid_system, check_acl, trusted, denies}
use claimward_vpn_client.Access.Unix.{check_dir}
use claimward_vpn_client.Socket.Windows.{
  Call, RawAce, Descriptor, Win32, Found, Created, ◌then_on◌, socket_group, create_secured,
  apply_sddl, refuse_reparse_point, aces_of, check_path, listen_as, listen,
}
use claimward_vpn_client.Socket.Windows.Owners.{IsOwn, check_path_iff}
use claimward_vpn_client.Socket.Windows.Opened.{Balanced, listen-Balanced}
use claimward_vpn_client.Socket.Windows.Secured.{Secured, listen-Secured}
use claimward_vpn_client.Socket.Unix
use claimward_vpn_client.Socket.Unix.{Host, Unix, Removal, ready}
use claimward_vpn_client.Socket.Unix.Moments.{Opened, listen-Opened}

-- A plain entry that allows everything to SYSTEM.
abbrev system_ace : RawAce
system_ace = record { kind = 0; flags = 0; mask = 0x1f01ff; sid_at_start = sid_system }

-- A path whose security was set last is SYSTEM's, and nobody else may write it.
abbrev last_set : List Call → Descriptor
last_set [] = record { owner = ok none; dacl = ok none }
last_set (c ∷ made) = record { owner = ok (some sid_system); dacl = ok (some (ok system_ace ∷ [])) }

abbrev windows : Win32
windows = record {
  lookup_sid = λ name. ok (record { sid = "S-1-5-21-7"; kind = 4 });
  type_alias = 4;
  type_group = 2;
  type_well_known = 5;
  parent = λ p. "C:\\ProgramData\\claimward";
  lstat = λ made p. Found.there;
  stat = λ made p. ok tt;
  parse_sddl = λ text. ok (record { owner = ok sid_system; dacl = ok [] });
  utf16 = λ text. ok tt;
  attributes = λ made p. ok 16;
  reparse_point = 1024;
  security_of = λ made p. ok (last_set made);
  make_parents = λ made p. ok tt;
  create_dir = λ made p sddl. Created.done;
  set_security = λ made p owner dacl. ok tt;
  remove_file = λ made p. Found.there;
  bind = λ made p. ok tt;
}

abbrev pipe : String
pipe = "C:\\ProgramData\\claimward\\helper.sock"

listens : (listen windows pipe "claimward" []).result ≡ ok tt
unfolding listen listen_as socket_group create_secured ◌then_on◌ apply_sddl refuse_reparse_point
    check_path aces_of check_acl trusted denies
listens = refl

listen-Secured_example : Secured windows pipe "claimward" (listen windows pipe "claimward" []).made
listen-Secured_example = listen-Secured windows pipe "claimward" [] listens

listen-Balanced_example :
    Balanced [] pipe
      (listen windows pipe "claimward" []).made
      (listen windows pipe "claimward" []).result
listen-Balanced_example = listen-Balanced windows pipe "claimward" []

check_path_iff_example :
    (check_path windows [] "C:\\x" ≡ ok tt)
    ↔ ((d : Descriptor) × (ok (last_set []) ≡ ok d) × IsOwn d)
check_path_iff_example = check_path_iff windows [] "C:\\x"

abbrev unix : Unix
unix = record {
  uid = 0;
  gid = 0;
  lookup_group = λ name. ok "990";
  atoi = λ text. ok 990;
  parent = λ p. "/run/claimward";
  stat = λ p. ok (record { uid = some 0; perm = 0o755; sticky = false });
  remove = Removal.gone;
  bind = ok tt;
  chown = ok tt;
  chmod = ok tt;
}

abbrev host : Host
host = record { umask = 0o022; listeners = 0; moments = [] }

listen-Opened_example :
    ((e : Error) × (ready unix "/run/claimward/s" "claimward" ≡ err e)
      × (Unix.listen unix "/run/claimward/s" "claimward" host
          ≡ record { host = host; result = err e }))
    ⊎ ((gid : ℕ) × (ready unix "/run/claimward/s" "claimward" ≡ ok gid)
        × (check_dir "/run/claimward" (unix.stat "/run/claimward") ≡ ok tt)
        × Opened gid host
            (Unix.listen unix "/run/claimward/s" "claimward" host).host
            (Unix.listen unix "/run/claimward/s" "claimward" host).result)
listen-Opened_example = listen-Opened unix "/run/claimward/s" "claimward" host
