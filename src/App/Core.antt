-- ===== src/App/Core.antt =====
-- The state of pkg/appcore/appcore.go's `Core`, its log, and the sign-in that its operations show.
--
-- Beside the source's fields the state holds the session file, and the contexts of the renewal loops:
-- which were made, which were cancelled, and which loops run.
pub mod Actions
pub mod Renewal
pub mod Steps
pub mod OneLoop
pub mod Operations
pub mod Choice
pub mod Logs
pub mod Ends
pub mod SignIn
pub mod Settings
use claimward_vpn_client.Common.{
  ℕ, zero, suc, ◌-◌, ◌==◌, ◌+++◌, String, List, [], ◌∷◌, ◌++◌, Option, none, some, Bool, true,
  false, ltb, length, is_blank, if◌then◌else◌,
}
use claimward_vpn_client.Errors.{Error, plain, Result, ok, err, ◌>>=◌, ◌>>◌, wrap}
use claimward_vpn_client.Lease.{Time}
use claimward_vpn_client.Wire.{Keys, parse_private, Tenant}
use claimward_vpn_client.HelperClient.{Socket}
use claimward_vpn_client.Store.{Stored, Files, Os, load, save}
use claimward_vpn_client.Auth.{Token, Provider, github, oidc, goauthn, new_provider}
use claimward_vpn_client.Auth.GoAuthn.{Idp, register_key}
use claimward_vpn_client.App.Config.{Config, auth_config}

pub record Claims : Type 0 where
  pub email : String
  pub username : String

-- What the outside answers while an operation runs: the clock (as an instant and as "15:04:05"), the
-- helper's socket, the session file, the keys, the go-authn provider, and the decoder of a JWT's
-- payload.
pub record World : Type 0 where
  pub now : Time
  pub clock : String
  pub hostname : String
  pub socket : String → Socket
  pub os : Os
  pub keys : Keys
  pub idp : Idp
  pub claims : String → Option Claims

pub record Core : Type 0 where
  pub cfg : Config
  pub helper_path : String
  pub connected : Bool
  pub iface : String
  pub assigned : String
  pub tenants : List Tenant
  pub tenant_required : Bool
  pub dev_uri : String
  pub dev_code : String
  pub log : List String
  pub stop_renew : Option ℕ
  pub next : ℕ
  pub stopped : ℕ → Bool
  pub runs : ℕ → Bool
  pub files : Files

-- `New`, for a config and the path that `helperclient.New` keeps; the session file is as it was.
abbrev pub new_core : Config → String → Files → Core
new_core cfg path files = record {
  cfg = cfg;
  helper_path = path;
  connected = false;
  iface = "";
  assigned = "";
  tenants = [];
  tenant_required = false;
  dev_uri = "";
  dev_code = "";
  log = [];
  stop_renew = none;
  next = 0;
  stopped = λ i. false;
  runs = λ i. false;
  files = files;
}

abbrev pub max_log : ℕ
max_log = 200

abbrev pub drop_first {ℓ} : {A : Type ℓ} → ℕ → List A → List A
drop_first zero xs = xs
drop_first (suc n) [] = []
drop_first (suc n) (x ∷ xs) = drop_first n xs

-- The last lines of the log.
abbrev pub capped : List String → List String
capped lines =
    if ltb max_log (length lines) then drop_first (length lines - max_log) lines else lines

-- `logf`, of a formatted line.
unfoldable pub logf : World → Core → String → Core
logf w c line = record c { log = capped (c.log ++ (w.clock +++ "  " +++ line) ∷ []) }

-- A bearer for the server, and the session with what it changed.
pub record Shown : Type 0 where
  pub bearer : String
  pub changed : Bool
  pub session : Stored

abbrev own_bearer : Stored → Shown
own_bearer s = record { bearer = s.bearer; changed = false; session = s }

-- The session's token, as `bearerFor` hands it to the provider.
abbrev pub token_of : Stored → Token
token_of s = record {
  value = s.bearer;
  kind = s.bearer_kind;
  expiry = s.expiry;
  refresh = s.refresh_token;
}

-- `bearerFor`; go-authn is the one provider that is a `KeyRegistrar`.
unfoldable pub bearer_for : World → Provider → Stored → Result Shown
bearer_for w (github c b scopes) s = ok (own_bearer s)
bearer_for w (oidc i c) s = ok (own_bearer s)
bearer_for w (goauthn issuer client_id) s = do
  pair ← wrap "device key invalid, sign in again" (parse_private w.keys s.wg_private_key)
  tok ← register_key w.idp issuer client_id (token_of s) (w.keys.key_text pair.public) w.hostname
  ok (record {
    bearer = tok.value;
    changed = true;
    session = record s { refresh_token = tok.refresh };
  })

abbrev pub shown : World → Config → Option Stored → Result Shown
shown w cfg none = err (plain "not signed in")
shown w cfg (some s) = if is_blank s.bearer then err (plain "not signed in") else do
  pair ← wrap "device key invalid, sign in again" (parse_private w.keys s.wg_private_key)
  p ← new_provider (auth_config cfg)
  bearer_for w p s

abbrev pub saved : Shown → Files × Result (Unit {0}) → Files × Result Shown
saved b (f, ok u) = (f, ok b)
saved b (f, err e) = (f, err e)

abbrev pub kept : World → Files → Result Shown → Files × Result Shown
kept w f (err e) = (f, err e)
kept w f (ok b) = if b.changed then saved b (save w.os f b.session) else (f, ok b)

-- `session`: the signed-in session and the bearer to show the server.
unfoldable pub session : World → Config → Files → Files × Result Shown
session w cfg f = kept w f (do o ← load w.os f; shown w cfg o)

abbrev pub set_at : (ℕ → Bool) → ℕ → Bool → ℕ → Bool
set_at m i b j = if i == j then b else m j

-- A renewal loop is started, with a context of its own.
unfoldable pub start_loop : Core → Core
start_loop c = record c {
  stop_renew = some c.next;
  next = suc c.next;
  runs = set_at c.runs c.next true;
}

abbrev stop_named : Core → Option ℕ → Core
stop_named c none = c
stop_named c (some i) = record c { stop_renew = none; stopped = set_at c.stopped i true }

-- The loop that `stopRenew` names, if any, is told to end.
unfoldable pub stop_loop : Core → Core
stop_loop c = stop_named c c.stop_renew
