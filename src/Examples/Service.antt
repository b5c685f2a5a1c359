-- ===== src/Examples/Service.antt =====
-- pkg/appcore/appcore.go with a helper that answers every request: a choice of a tenant, a connect, and
-- a round of the renewal loop.
use mathlib.Core.List.{Mem}
use claimward_vpn_client.Common.{
  ℕ, ◌≡◌, subst, ◌⊎◌, refl, String, [], ◌∷◌, some, none, true, false, is_blank,
}
use claimward_vpn_client.Errors.{ok, err, plain}
use claimward_vpn_client.Wire.{Tenant, Response, parse_private, generate}
use claimward_vpn_client.HelperClient
use claimward_vpn_client.HelperClient.{Socket}
use claimward_vpn_client.Store.{Stored, Files, Os, no_session, load, save}
use claimward_vpn_client.Auth.{new_provider}
use claimward_vpn_client.App.Config.{Config, empty_config, validate}
use claimward_vpn_client.App.Core.{World, Core, Shown, new_core, logf, session, set_at, bearer_for}
use claimward_vpn_client.App.Core.Actions.{set_tenant, is_offered, connect}
use claimward_vpn_client.App.Core.Renewal.{status}
use claimward_vpn_client.App.Core.Steps.{here}
use claimward_vpn_client.App.Core.OneLoop.{OneLoop, new-OneLoop, Reach-OneLoop}
use claimward_vpn_client.App.Core.Operations.{connect-AppReach}
use claimward_vpn_client.App.Core.Choice.{Chosen, set_tenant-Chosen}
use claimward_vpn_client.App.Core.Ends.{status-renewed}
use claimward_vpn_client.Auth.GitHub
use claimward_vpn_client.App.Config.{load_config, holds}
use claimward_vpn_client.App.Core.SignIn.{Providers, attempt, login}
use claimward_vpn_client.App.Core.SignIn.Session.{SignedIn, login-SignedIn}
use claimward_vpn_client.App.Core.Settings.{
  Disk, ConfigFiles, save_config, update_config, load_config-update_config,
}
use claimward_vpn_client.Examples.Logins.{github, idp as oidc}
use claimward_vpn_client.Examples.World.{keys}
use claimward_vpn_client.Examples.SignIn.{idp}

abbrev pub config : Config
config = record empty_config {
  server_url = "https://vpn.example";
  provider = "github";
  github_client_id = "app";
}

abbrev pub signed_in : Stored
signed_in = record no_session { provider = "github"; bearer = "token"; wg_private_key = "key" }

-- The file holds the tenant, and the rest of the session never changes.
abbrev pub os : Os
os = record {
  user_dir = ok tt;
  read = ok tt;
  mkdir = ok tt;
  write = ok tt;
  written = none;
  rename = ok tt;
  remove = ok tt;
  encode = λ s. s.tenant;
  decode = λ t. ok (record signed_in { tenant = t });
}

abbrev up : Response
up = record {
  succeeded = true;
  error = "";
  connected = true;
  interface = "wg0";
  assigned_ip = "10.80.0.5/32";
  tenant = "";
  tenants = [];
  lease_expires_at = none;
  last_error = "";
}

abbrev socket : Socket
socket = record { dial = ok tt; write = λ _. ok tt; read = λ _. ok up }

abbrev pub world : World
world = record {
  now = 1000000000;
  clock = "12:00:00";
  hostname = "laptop";
  socket = λ _. socket;
  os = os;
  keys = keys;
  idp = idp;
  claims = λ _. none;
}

abbrev pub files : Files
files = record { session = some ""; tmp = none }

abbrev pub core : Core
core = new_core config "/run/s" files

abbrev offered : Core
offered = record core { tenants = record { id = "acme"; name = "Acme" } ∷ [] }

abbrev pub looping : Core
looping = record core { stop_renew = some 0; next = 1; runs = set_at core.runs 0 true }

Reach-OneLoop_example : OneLoop (connect world core).0
Reach-OneLoop_example = Reach-OneLoop (connect-AppReach world here)

chooses : (set_tenant world offered "acme").1 ≡ ok tt
unfolding set_tenant is_offered load save
chooses = refl

set_tenant-Chosen_example :
    ((is_blank "acme" ≡ true) ⊎ ((t : Tenant) × Mem t offered.tenants × (t.id ≡ "acme")))
    × Chosen world offered (set_tenant world offered "acme").0 "acme"
set_tenant-Chosen_example = set_tenant-Chosen world offered "acme" chooses

abbrev shown : Shown
shown = record { bearer = "token"; changed = false; session = record signed_in { tenant = "acme" } }

loads : load os files ≡ ok (some signed_in)
unfolding load
loads = refl

shows : (session world config (set_tenant world offered "acme").0.files).1 ≡ ok shown
unfolding session set_tenant is_offered load save parse_private new_provider bearer_for
shows = refl

finds_up : (status world core).1.connected ≡ true
unfolding status HelperClient.available HelperClient.status HelperClient.call load validate
finds_up = refl

finds_sign_in : (status world core).1.logged_in ≡ true
unfolding status HelperClient.available HelperClient.status HelperClient.call load validate
finds_sign_in = refl

status-renewed_example :
    (i : ℕ) × ((status world core).0.runs i ≡ true) × ((status world core).0.stopped i ≡ false)
status-renewed_example =
    status-renewed world (new-OneLoop config "/run/s" files) finds_up finds_sign_in

-- A sign-in at GitHub, over a session that has a device key.
abbrev providers : Providers
providers = record {
  github = github;
  rounds = 3;
  oidc = oidc;
  events = [];
  device = record {
    now = 1000000000;
    discover = λ issuer. err (plain "offline");
    device_auth = λ ep client scopes. err (plain "offline");
    device_access_token = λ ep client da. err (plain "offline");
  };
  drawn = ok (7 ∷ []);
}

signs_in : (login world providers core).1 ≡ some (ok tt)
unfolding login attempt validate new_provider logf load save generate GitHub.login GitHub.poll
    GitHub.round GitHub.ask_device GitHub.ask_token GitHub.form
signs_in = refl

login-SignedIn_example : SignedIn world providers core (login world providers core).0
login-SignedIn_example = login-SignedIn world providers core signs_in

-- A disk that takes a save, and a codec that keeps the server of this configuration.
abbrev disk : Disk
disk = record {
  config_dir = ok tt;
  mkdir = ok tt;
  encode = λ c. ok c.server_url;
  write = ok tt;
  written = none;
  rename = ok tt;
  default_socket = "/run/s";
}

decodes :
    (s : String) → ok config.server_url ≡ ok s → ok (record config { server_url = s }) ≡ ok config
decodes s e =
    let same : config.server_url ≡ s = cc in
    subst (λ u. ok (record config { server_url = u }) ≡ ok config) same refl

abbrev no_config : ConfigFiles
no_config = record { config = none; tmp = none }

updated : (update_config disk core no_config config).2 ≡ ok tt
unfolding update_config save_config
updated = refl

held : (update_config disk core no_config config).1.config ≡ some "https://vpn.example"
unfolding update_config save_config
held = refl

load_config-update_config_example :
    load_config
      (λ s. ok (record config { server_url = s }))
      (λ name. "")
      (holds "https://vpn.example")
    ≡ ok (update_config disk core no_config config).0.cfg
load_config-update_config_example =
    load_config-update_config disk (λ s. ok (record config { server_url = s })) (λ name. "") core
      no_config config "https://vpn.example" (λ name. refl) decodes updated held
