-- ===== src/Socket/Unix.antt =====
-- `Listen` of pkg/helper/listen_unix.go: the socket's owner and mode at each moment.
pub mod Moments
use claimward_vpn_client.Common.{
  ℕ, ◌-◌, ◌+◌, ◌+++◌, quote, str_eq, bit_and, String, List, [], ◌∷◌, Option, none, some,
  if◌then◌else◌,
}
use claimward_vpn_client.Errors.{Error, Result, ok, err, wrap, ◌>>=◌, ◌>>◌}
use claimward_vpn_client.Access.Unix.{FileInfo, check_dir}

-- `DefaultGroup`, where `os` is `runtime.GOOS`.
abbrev pub default_group : String → String
default_group os = if str_eq os "darwin" then "admin" else "claimward"

-- A file's owner, group and mode.
pub record Node : Type 0 where
  pub uid : ℕ
  pub gid : ℕ
  pub mode : ℕ

-- `os.Remove`, which tells a file that is not there from other errors.
pub data Removal : Type 0 where
  gone : Removal
  missing : Error → Removal
  failed : Error → Removal

-- The process's umask, the listeners that it has open, and what the socket has been since it was
-- created, newest first.
pub record Host : Type 0 where
  pub umask : ℕ
  pub listeners : ℕ
  pub moments : List Node

-- The system: the process's user and group, and how each call goes.
pub record Unix : Type 0 where
  pub uid : ℕ
  pub gid : ℕ
  pub lookup_group : String → Result String
  pub atoi : String → Result ℕ
  pub parent : String → String
  pub stat : String → Result FileInfo
  pub remove : Removal
  pub bind : Result (Unit {0})
  pub chown : Result (Unit {0})
  pub chmod : Result (Unit {0})

pub record Outcome : Type 0 where
  pub host : Host
  pub result : Result (Unit {0})

-- The mode of a new socket under a umask.
abbrev pub born_mode : ℕ → ℕ
born_mode umask = 0o777 - bit_and 0o777 umask

-- The mode that the socket has now.
abbrev pub mode_now : List Node → ℕ
mode_now [] = 0
mode_now (n ∷ ns) = n.mode

abbrev pub seen : Host → Node → Host
seen h n = record h { moments = n ∷ h.moments }

-- A listener that is opened creates its socket.
abbrev pub opened : Unix → Host → Host
opened u h =
    seen (record h { listeners = h.listeners + 1 })
      (record { uid = u.uid; gid = u.gid; mode = born_mode h.umask })

abbrev pub closed : Host → Host
closed h = record h { listeners = h.listeners - 1 }

abbrev pub mode_set : Unix → ℕ → Host → Result (Unit {0}) → Outcome
mode_set u gid h (err e) = record { host = closed h; result = err e }
mode_set u gid h (ok v) = record {
  host = seen h (record { uid = 0; gid = gid; mode = 0o660 });
  result = ok tt;
}

abbrev pub owner_set : Unix → ℕ → Host → Result (Unit {0}) → Outcome
owner_set u gid h (err e) = record { host = closed h; result = err e }
owner_set u gid h (ok v) =
    mode_set u gid (seen h (record { uid = 0; gid = gid; mode = mode_now h.moments })) u.chmod

-- The socket is bound under the umask 0177, and the old one is put back either way.
abbrev pub bound : Unix → ℕ → Host → Result (Unit {0}) → Outcome
bound u gid h (err e) = record { host = h; result = err e }
bound u gid h (ok v) =
    owner_set u gid (record (opened u (record h { umask = 0o177 })) { umask = h.umask }) u.chown

abbrev pub cleared : Unix → ℕ → Host → Removal → Outcome
cleared u gid h gone = bound u gid h u.bind
cleared u gid h (missing e) = bound u gid h u.bind
cleared u gid h (failed e) = record { host = h; result = err e }

abbrev pub admitted : Unix → Host → Result ℕ → Outcome
admitted u h (err e) = record { host = h; result = err e }
admitted u h (ok gid) = cleared u gid h u.remove

-- What is known before anything is touched: the group's number, and that the directory is safe.
unfoldable pub ready : Unix → String → String → Result ℕ
ready u path group = do
  text ← wrap ("the helper's group " +++ quote group) (u.lookup_group group)
  gid ← u.atoi text
  check_dir (u.parent path) (u.stat (u.parent path))
  ok gid

-- `Listen`.
unfoldable pub listen : Unix → String → String → Host → Outcome
listen u path group h = admitted u h (ready u path group)
