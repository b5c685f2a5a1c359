-- ===== src/Access.antt =====
-- Who may write the helper's files: the Windows access rules of pkg/helper/acl.go, and the owner and
-- mode checks of pkg/helper/listen_unix.go.
pub mod Windows
pub mod Unix
use claimward_vpn_client.Common.{
  ℕ, ◌==◌, ◌+++◌, String, List, [], ◌∷◌, Bool, true, false, not, ◌&&◌, ◌||◌, str_eq, bit_and, hex,
  join_with, if◌then◌else◌,
}
use claimward_vpn_client.Errors.{Error, plain, Result, ok, err}
use Prim.Native.Nat.{bit_or}

abbrev pub sid_system : String
sid_system = "S-1-5-18"

abbrev pub sid_administrators : String
sid_administrators = "S-1-5-32-544"

abbrev pub sid_interactive : String
sid_interactive = "S-1-5-4"

abbrev pub file_list_directory : ℕ
file_list_directory = 0x0001

abbrev pub file_add_file : ℕ
file_add_file = 0x0002

abbrev pub file_add_subdir : ℕ
file_add_subdir = 0x0004

abbrev pub file_read_ea : ℕ
file_read_ea = 0x0008

abbrev pub file_write_ea : ℕ
file_write_ea = 0x0010

abbrev pub file_traverse : ℕ
file_traverse = 0x0020

abbrev pub file_delete_child : ℕ
file_delete_child = 0x0040

abbrev pub file_read_attrs : ℕ
file_read_attrs = 0x0080

abbrev pub file_write_attrs : ℕ
file_write_attrs = 0x0100

abbrev pub access_delete : ℕ
access_delete = 0x00010000

abbrev pub read_control : ℕ
read_control = 0x00020000

abbrev pub write_dac : ℕ
write_dac = 0x00040000

abbrev pub write_owner : ℕ
write_owner = 0x00080000

abbrev pub synchronize : ℕ
synchronize = 0x00100000

abbrev pub generic_all : ℕ
generic_all = 0x10000000

abbrev pub generic_write : ℕ
generic_write = 0x40000000

abbrev any_of : List ℕ → ℕ
any_of [] = 0
any_of (r ∷ rs) = bit_or r (any_of rs)

abbrev pub dir_use : ℕ
dir_use = any_of (
    synchronize ∷ read_control ∷ file_read_attrs ∷ file_traverse ∷ file_read_ea
    ∷ file_list_directory ∷ [])

abbrev pub socket_use : ℕ
socket_use = any_of (
    synchronize ∷ read_control ∷ file_read_attrs ∷ file_read_ea ∷ file_list_directory
    ∷ file_write_attrs ∷ file_write_ea ∷ file_add_subdir ∷ file_add_file ∷ [])

abbrev pub write_rights : ℕ
write_rights = any_of (
    file_add_file ∷ file_add_subdir ∷ file_delete_child ∷ access_delete ∷ write_dac ∷ write_owner
    ∷ generic_write ∷ generic_all ∷ [])

abbrev pub ace_inherit_only : ℕ
ace_inherit_only = 0x08

-- The entry types that take rights away.
unfoldable pub denies : ℕ → Bool
denies t = t == 0x1 || t == 0x6 || t == 0xa || t == 0xc

pub record Ace : Type 0 where
  pub kind : ℕ
  pub flags : ℕ
  pub mask : ℕ
  pub sid : String

unfoldable pub trusted : String → Bool
trusted sid = str_eq sid sid_system || str_eq sid sid_administrators

unfoldable pub dir_sddl : String → String
dir_sddl group =
    "O:SYG:SYD:P(A;OICI;FA;;;SY)(A;OICI;FA;;;BA)(A;;0x" +++ hex dir_use +++ ";;;" +++ group +++ ")"

unfoldable pub socket_sddl : String → String
socket_sddl group =
    "O:SYG:SYD:P(A;;FA;;;SY)(A;;FA;;;BA)(A;;0x" +++ hex socket_use +++ ";;;" +++ group +++ ")"

-- An entry that is passed over: it denies, or speaks of what is created in the directory.
abbrev pub is_skipped : Ace → Bool
is_skipped a = denies a.kind || not (bit_and a.flags ace_inherit_only == 0)

abbrev pub is_writer : Ace → Bool
is_writer a = not (bit_and a.mask write_rights == 0) && not (trusted a.sid)

abbrev pub writer_text : Ace → String
writer_text a = a.sid +++ " (0x" +++ hex a.mask +++ ")"

-- The loop of `checkACL`.
unfoldable pub writers : List Ace → List String
writers [] = []
writers (a ∷ dacl) =
    let rest = writers dacl in
    if is_skipped a then rest else if is_writer a then writer_text a ∷ rest else rest

abbrev pub verdict : List String → Result (Unit {0})
verdict [] = ok tt
verdict (w ∷ ws) = err (
    plain
      ("writable by somebody other than SYSTEM or Administrators: " +++ join_with ", " (w ∷ ws)))

-- `checkACL`.
unfoldable pub check_acl : String → List Ace → Bool → Result (Unit {0})
unfolding writers
check_acl owner dacl nil_dacl =
    if not (trusted owner)
    then err (plain ("owned by " +++ owner +++ ", not by SYSTEM or Administrators"))
    else if nil_dacl
    then err (plain "it has no DACL: everybody may write it")
    else verdict (writers dacl)
