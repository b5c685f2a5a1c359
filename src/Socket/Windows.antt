-- ===== src/Socket/Windows.antt =====
-- pkg/helper/listen_windows.go: the socket, its directory and the configuration file by their access
-- control lists. What the system answers may depend on the calls before.
pub mod Owners
pub mod Opened
pub mod Secured
use claimward_vpn_client.Common.{
  ℕ, ◌==◌, ◌+++◌, decimal, quote, is_blank, String, List, [], ◌∷◌, Option, none, some, Bool, true,
  false, not, ◌&&◌, ◌||◌, bit_and, if◌then◌else◌,
}
use claimward_vpn_client.Errors.{Error, plain, Result, ok, err, wrap, wrapped, ◌>>=◌, ◌>>◌}
use claimward_vpn_client.Access.{sid_interactive, Ace, dir_sddl, socket_sddl, check_acl}

-- What is done to the file system and the socket, newest first in a history.
pub data Call : Type 0 where
  make_parents : String → Call
  create_dir : (dir sddl : String) → Call
  set_security : (path owner : String) → List Ace → Call
  remove_file : String → Call
  bind : String → Call
  close_listener : String → Call

-- `LookupSID`.
pub record Account : Type 0 where
  pub sid : String
  pub kind : ℕ

-- `os.Lstat` and `os.Remove` tell a file that is not there from other errors.
pub data Found : Type 0 where
  there : Found
  missing : Error → Found
  failed : Error → Found

-- The answer to `CreateDirectory`.
pub data Created : Type 0 where
  done : Created
  already_exists : Error → Created
  refused : Error → Created

-- An entry of a DACL as it lies in memory, with the SID at the place that the plain layout gives it.
pub record RawAce : Type 0 where
  pub kind : ℕ
  pub flags : ℕ
  pub mask : ℕ
  pub sid_at_start : String

-- A security descriptor: its owner, if it has one, and its DACL, if it has one, each entry of which
-- `GetAce` reads or does not.
pub record Descriptor : Type 0 where
  pub owner : Result (Option String)
  pub dacl : Result (Option (List (Result RawAce)))

-- A descriptor that was written as text.
pub record Parsed : Type 0 where
  pub owner : Result String
  pub dacl : Result (List Ace)

-- The Win32 calls and Go's `os`, `net` and `path/filepath`.
pub record Win32 : Type 0 where
  pub lookup_sid : String → Result Account
  pub type_alias : ℕ
  pub type_group : ℕ
  pub type_well_known : ℕ
  pub parent : String → String
  pub lstat : List Call → String → Found
  pub stat : List Call → String → Result (Unit {0})
  pub parse_sddl : String → Result Parsed
  pub utf16 : String → Result (Unit {0})
  pub attributes : List Call → String → Result ℕ
  pub reparse_point : ℕ
  pub security_of : List Call → String → Result Descriptor
  pub make_parents : List Call → String → Result (Unit {0})
  pub create_dir : List Call → String → String → Created
  pub set_security : List Call → String → String → List Ace → Result (Unit {0})
  pub remove_file : List Call → String → Found
  pub bind : List Call → String → Result (Unit {0})

-- The calls made so far, and the error that ended them.
pub record Done : Type 0 where
  pub made : List Call
  pub result : Result (Unit {0})

abbrev pub fine : List Call → Done
fine made = record { made = made; result = ok tt }

abbrev pub stuck : List Call → Error → Done
stuck made e = record { made = made; result = err e }

infixl 5 ◌then_on◌
unfoldable pub ◌then_on◌ : Done → (List Call → Done) → Done
d then_on next = elim d.result [ ok u ↦ next d.made | err e ↦ d ]

-- An error that is passed on behind a prefix.
abbrev pub behind : String → Done → Done
behind what d = record { made = d.made; result = wrap what d.result }

abbrev pub group_of : Win32 → String → Account → Result String
group_of w group a =
    if not (a.kind == w.type_alias)
      && not (a.kind == w.type_group)
      && not (a.kind == w.type_well_known)
    then err (plain (quote group +++ " is not a group (SID type " +++ decimal a.kind +++ ")"))
    else ok a.sid

abbrev pub looked_up : Win32 → String → Result Account → Result String
looked_up w group (err e) = ok sid_interactive
looked_up w group (ok a) = group_of w group a

-- `socketGroup`.
unfoldable pub socket_group : Win32 → String → Result String
socket_group w group =
    if is_blank group then ok sid_interactive else looked_up w group (w.lookup_sid group)

abbrev pub dir_created : String → List Call → Created → Done
dir_created dir made done = fine made
dir_created dir made (already_exists e) = fine made
dir_created dir made (refused e) = stuck made (wrapped ("create " +++ dir) e)

-- The descriptor and the name are readied, and the directory is created with the descriptor.
abbrev pub readied : Win32 → String → String → List Call → Result (Unit {0}) → Done
readied w dir sddl made (err e) = stuck made e
readied w dir sddl made (ok u) =
    dir_created dir (create_dir dir sddl ∷ made) (w.create_dir made dir sddl)

abbrev pub parents_made : Win32 → String → String → List Call → Result (Unit {0}) → Done
parents_made w dir sddl made (err e) = stuck made e
parents_made w dir sddl made (ok u) =
    readied w dir sddl made (do sd ← w.parse_sddl sddl; w.utf16 dir)

abbrev pub created_unless : Win32 → String → String → List Call → Found → Done
created_unless w dir sddl made there = fine made
created_unless w dir sddl made (failed e) = stuck made e
created_unless w dir sddl made (missing e) =
    parents_made w dir sddl (make_parents (w.parent dir) ∷ made)
      (w.make_parents made (w.parent dir))

-- `createSecured`.
unfoldable pub create_secured : Win32 → String → String → List Call → Done
create_secured w dir sddl made = created_unless w dir sddl made (w.lstat made dir)

-- The owner and the DACL of a descriptor text.
abbrev pub both_parts : Parsed → Result (String × List Ace)
both_parts sd = do owner ← sd.owner; dacl ← sd.dacl; ok (owner, dacl)

abbrev pub security_set : Win32 → String → List Call → Result (String × List Ace) → Done
security_set w path made (err e) = stuck made e
security_set w path made (ok (owner, dacl)) = record {
  made = set_security path owner dacl ∷ made;
  result = w.set_security made path owner dacl;
}

-- `applySDDL`.
unfoldable pub apply_sddl : Win32 → String → String → List Call → Done
apply_sddl w path sddl made = security_set w path made (do sd ← w.parse_sddl sddl; both_parts sd)

-- `refuseReparsePoint`.
unfoldable pub refuse_reparse_point : Win32 → List Call → String → Result (Unit {0})
refuse_reparse_point w made path = do
  w.utf16 path
  attrs ← w.attributes made path
  if bit_and attrs w.reparse_point == 0
      then ok tt
      else err (
          plain (
            path
            +++ " is a reparse point (junction or link); refusing to put the helper's socket where it leads"))

-- An entry as `checkACL` reads it: only a plain one has its SID at the start.
abbrev pub ace_of : RawAce → Ace
ace_of a = record {
  kind = a.kind;
  flags = a.flags;
  mask = a.mask;
  sid = if a.kind == 0x0 || a.kind == 0x1 then a.sid_at_start else "unparsed";
}

-- The loop over the DACL, which ends at the first entry that cannot be read.
unfoldable pub aces_of : List (Result RawAce) → Result (List Ace)
aces_of [] = ok []
aces_of (r ∷ rest) = do a ← r; aces ← aces_of rest; ok (ace_of a ∷ aces)

abbrev pub acl_checked : String → Option (List (Result RawAce)) → Result (Unit {0})
acl_checked owner none = check_acl owner [] true
acl_checked owner (some raw) = do aces ← aces_of raw; check_acl owner aces false

abbrev pub owned : Option String → Option (List (Result RawAce)) → Result (Unit {0})
owned none dacl = err (plain "it has no owner")
owned (some owner) dacl = acl_checked owner dacl

abbrev pub descriptor_ok : Descriptor → Result (Unit {0})
descriptor_ok d = do owner ← d.owner; dacl ← d.dacl; owned owner dacl

-- `checkPath`.
unfoldable pub check_path : Win32 → List Call → String → Result (Unit {0})
check_path w made path = do d ← w.security_of made path; descriptor_ok d

-- `checkOwner`.
unfoldable pub check_owner : Win32 → List Call → String → Result (Unit {0})
check_owner w made path = do
  w.stat made path
  refuse_reparse_point w made path
  check_path w made path

-- A check that changes nothing, as a step.
abbrev pub checked : Result (Unit {0}) → List Call → Done
checked r made = record { made = made; result = r }

abbrev pub file_removed : List Call → Found → Done
file_removed made there = fine made
file_removed made (missing e) = fine made
file_removed made (failed e) = stuck made e

abbrev pub remove_step : Win32 → String → List Call → Done
remove_step w path made = file_removed (remove_file path ∷ made) (w.remove_file made path)

-- A listener that could not be opened is none.
abbrev pub bound : String → List Call → Result (Unit {0}) → Done
bound path made (err e) = stuck made e
bound path made (ok u) = fine (bind path ∷ made)

abbrev pub bind_step : Win32 → String → List Call → Done
bind_step w path made = bound path made (w.bind made path)

-- An error once the listener is there closes it.
abbrev pub closed_at : String → List Call → Result (Unit {0}) → Done
closed_at path made (ok u) = fine made
closed_at path made (err e) = stuck (close_listener path ∷ made) e

abbrev pub closed_unless_ok : String → Done → Done
closed_unless_ok path d = closed_at path d.made d.result

abbrev pub secured_socket : Win32 → String → String → List Call → Done
secured_socket w path sid made =
    closed_unless_ok path (behind ("secure " +++ path) (apply_sddl w path (socket_sddl sid) made))

-- What `Listen` does once the group is known.
unfoldable pub listen_as : Win32 → String → String → List Call → Done
listen_as w path sid made =
    let dir = w.parent path in
    create_secured w dir (dir_sddl sid) made
    then_on (λ m. checked (refuse_reparse_point w m dir) m)
    then_on (λ m. behind ("secure " +++ dir) (apply_sddl w dir (dir_sddl sid) m))
    then_on (λ m. checked (wrap dir (check_path w m dir)) m)
    then_on (λ m. remove_step w path m)
    then_on (λ m. bind_step w path m)
    then_on (λ m. secured_socket w path sid m)

abbrev pub grouped : Win32 → String → List Call → Result String → Done
grouped w path made (err e) = stuck made e
grouped w path made (ok sid) = listen_as w path sid made

-- `Listen`, after the calls `made`.
unfoldable pub listen : Win32 → String → String → List Call → Done
listen w path group made = grouped w path made (socket_group w group)
