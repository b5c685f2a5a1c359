-- ===== src/Store.antt =====
-- pkg/tokenstore/tokenstore.go: the session file, and the file beside it that a save goes through.
-- What the file system refuses, and the JSON codec, are a record of values and functions.
pub mod Atomic
use claimward_vpn_client.Common.{String, Option, none, some, ◌≡◌}
use claimward_vpn_client.Errors.{Error, Result, ok, err, ◌>>=◌, ◌>>◌}
use claimward_vpn_client.Lease.{Time}

-- `Session`.
pub record Stored : Type 0 where
  pub provider : String
  pub bearer : String
  pub bearer_kind : String
  pub refresh_token : String
  pub expiry : Time
  pub wg_private_key : String
  pub tenant : String

abbrev pub no_session : Stored
no_session = record {
  provider = "";
  bearer = "";
  bearer_kind = "";
  refresh_token = "";
  expiry = 0;
  wg_private_key = "";
  tenant = "";
}

pub record Files : Type 0 where
  pub session : Option String
  pub tmp : Option String

-- `written` is what a write that fails leaves in the file.
pub record Os : Type 0 where
  pub user_dir : Result (Unit {0})
  pub read : Result (Unit {0})
  pub mkdir : Result (Unit {0})
  pub write : Result (Unit {0})
  pub written : Option String
  pub rename : Result (Unit {0})
  pub remove : Result (Unit {0})
  pub encode : Stored → String
  pub decode : String → Result Stored

abbrev pub decoded : Os → Option String → Result (Option Stored)
decoded os none = ok none
decoded os (some text) = do s ← os.decode text; ok (some s)

module _ (os : Os) where
  -- `Load`.
  unfoldable pub load : Files → Result (Option Stored)
  load f = do os.user_dir; os.read; decoded os f.session

  abbrev pub rename_file : Files → Result (Unit {0}) → Files × Result (Unit {0})
  rename_file f (err e) = (f, err e)
  rename_file f (ok u) = (record { session = f.tmp; tmp = none }, ok tt)

  abbrev pub write_file : Files → String → Result (Unit {0}) → Files × Result (Unit {0})
  write_file f text (err e) = (record f { tmp = os.written }, err e)
  write_file f text (ok u) = rename_file (record f { tmp = some text }) os.rename

  abbrev pub make_dir : Files → String → Result (Unit {0}) → Files × Result (Unit {0})
  make_dir f text (err e) = (f, err e)
  make_dir f text (ok u) = write_file f text os.write

  -- `Save`.
  unfoldable pub save : Files → Stored → Files × Result (Unit {0})
  save f s = make_dir f (os.encode s) (os.user_dir >> os.mkdir)

  abbrev pub removed : Files → Result (Unit {0}) → Files × Result (Unit {0})
  removed f (err e) = (f, err e)
  removed f (ok u) = (record f { session = none }, ok tt)

  -- `Clear`; a file that is not there is no error.
  unfoldable pub clear : Files → Files × Result (Unit {0})
  clear f = removed f (os.user_dir >> os.remove)
