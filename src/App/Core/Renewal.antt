-- ===== src/App/Core/Renewal.antt =====
-- `Status`, and the renewal loop that it and `Connect` start, of pkg/appcore/appcore.go. The loop's
-- round is in two halves, with the timer between.
use Prim.Native.Char.{Char, code}
use claimward_vpn_client.Common.{
  ◌==◌, ◌+◌, ◌+++◌, ℕ, String, List, [], ◌∷◌, Option, none, some, Bool, true, false, not, ◌&&◌,
  is_blank, pos, if◌then◌else◌,
}
use claimward_vpn_client.Errors.{Result, ok, err, error_text}
use claimward_vpn_client.Lease.{Time, Duration, hour, until, app_renew_delay}
use claimward_vpn_client.Wire.{Tenant, Response}
use claimward_vpn_client.HelperClient
use claimward_vpn_client.Store.{Stored, Files, load}
use claimward_vpn_client.App.Config.{validate}
use claimward_vpn_client.App.Core.{World, Core, Claims, Shown, logf, session, start_loop, set_at}
use claimward_vpn_client.App.Core.Actions.{helper_socket, not_connected}

-- The loop's end: one that was not stopped lets the next `Status` start another.
unfoldable pub loop_ended : Core → ℕ → Core
loop_ended c i = record c {
  stop_renew = if c.stopped i then c.stop_renew else none;
  runs = set_at c.runs i false;
}

abbrev remaining : Time → Option Time → Duration
remaining now none = pos (hour + hour)
remaining now (some t) = until t now

abbrev pub found_down : World → Core → Response → Core
found_down w c r =
    not_connected
      (if is_blank r.last_error then c else logf w c ("disconnected: " +++ r.last_error))

abbrev pub checked : World → Core → ℕ → Result Response → Core × Option Duration
checked w c i (err e) = (loop_ended (logf w c ("renewal: " +++ error_text e)) i, none)
checked w c i (ok r) =
    if r.connected
    then (c, some (app_renew_delay (remaining w.now r.lease_expires_at)))
    else (loop_ended (found_down w c r) i, none)

-- The half before the timer: how long to wait, or the loop's end.
unfoldable pub loop_checks : World → Core → ℕ → Core × Option Duration
loop_checks w c i = checked w c i (HelperClient.status c.helper_path (helper_socket w c))

-- The loop goes on, unless it was stopped.
abbrev pub goes_on : Core → ℕ → Core × Bool
goes_on c i = if c.stopped i then (loop_ended c i, false) else (c, true)

abbrev pub renewed_until : World → Core → Option Time → (Time → String) → Core
renewed_until w c none text = c
renewed_until w c (some t) text = logf w c ("lease renewed until " +++ text t)

abbrev pub renew_answered : World → Core → (Time → String) → Result Response → Core
renew_answered w c text (err e) = logf w c ("renewal FAILED: " +++ error_text e)
renew_answered w c text (ok r) = renewed_until w c r.lease_expires_at text

abbrev pub renewed : World → Core → ℕ → (Time → String) → Files × Result Shown → Core × Bool
renewed w c i text (f, err e) =
    (logf w (record c { files = f }) ("renewal: no fresh sign-in: " +++ error_text e), true)
renewed w c i text (f, ok b) =
    goes_on
      (renew_answered w (record c { files = f }) text
        (HelperClient.renew c.helper_path (helper_socket w c) b.bearer))
      i

-- The half after the timer; `text` is how a lease's end is printed.
unfoldable pub loop_renews : World → Core → ℕ → (Time → String) → Core × Bool
loop_renews w c i text = renewed w c i text (session w c.cfg c.files)

abbrev pushed : Char → List String → List String
pushed c [] = String.◌∷◌ c String.[] ∷ []
pushed c (s ∷ rest) = String.◌∷◌ c s ∷ rest

-- strings.Split(s, ".").
split_dots : String → List String
split_dots String.[] = "" ∷ []
split_dots (String.◌∷◌ c s) =
    let rest = split_dots s in if code c == b'.' then "" ∷ rest else pushed c rest

abbrev claimed_name : Option Claims → String
claimed_name none = ""
claimed_name (some k) = if is_blank k.email then k.username else k.email

abbrev payload_name : World → List String → String
payload_name w (header ∷ payload ∷ signature ∷ []) = claimed_name (w.claims payload)
payload_name w _ = ""

-- `nameFromToken`.
unfoldable pub name_from_token : World → String → String
unfolding split_dots
name_from_token w tok = payload_name w (split_dots tok)

-- `Status`.
pub record AppStatus : Type 0 where
  pub config_ok : Bool
  pub config_error : String
  pub provider : String
  pub logged_in : Bool
  pub email : String
  pub helper_installed : Bool
  pub connected : Bool
  pub interface : String
  pub assigned_ip : String
  pub server_url : String
  pub tenant : String
  pub tenants : List Tenant
  pub tenant_required : Bool
  pub device_verification_uri : String
  pub device_user_code : String
  pub log : List String

abbrev of_config : Core → Result (Unit {0}) → AppStatus
of_config c r = record {
  config_ok = elim r [ ok u ↦ true | err e ↦ false ];
  config_error = elim r [ ok u ↦ "" | err e ↦ error_text e ];
  provider = c.cfg.provider;
  logged_in = false;
  email = "";
  helper_installed = false;
  connected = false;
  interface = "";
  assigned_ip = "";
  server_url = c.cfg.server_url;
  tenant = "";
  tenants = [];
  tenant_required = false;
  device_verification_uri = "";
  device_user_code = "";
  log = [];
}

abbrev pub signed_in : World → AppStatus → Result (Option Stored) → AppStatus
signed_in w st (err e) = st
signed_in w st (ok none) = st
signed_in w st (ok (some s)) =
    if is_blank s.bearer
    then st
    else record st { logged_in = true; email = name_from_token w s.bearer; tenant = s.tenant }

abbrev of_helper : AppStatus → Result Response → AppStatus
of_helper st (err e) = st
of_helper st (ok r) = record st {
  connected = r.connected;
  interface = r.interface;
  assigned_ip = if r.connected then r.assigned_ip else "";
  tenant = if r.connected && not (is_blank r.tenant) then r.tenant else st.tenant;
}

abbrev asked_helper : World → Core → AppStatus → AppStatus
asked_helper w c st =
    if HelperClient.available (helper_socket w c)
    then of_helper (record st { helper_installed = true })
        (HelperClient.status c.helper_path (helper_socket w c))
    else st

abbrev own_fields : Core → AppStatus → AppStatus
own_fields c st = record st {
  assigned_ip = if st.connected && is_blank st.assigned_ip then c.assigned else st.assigned_ip;
  tenants = c.tenants;
  tenant_required = c.tenant_required;
  device_verification_uri = c.dev_uri;
  device_user_code = c.dev_code;
  log = c.log;
}

-- A tunnel that this core did not bring up is renewed too.
unfoldable pub adopt : Core → AppStatus → Core
adopt c st =
    if st.connected && st.logged_in
    then elim c.stop_renew [ none ↦ start_loop c | some i ↦ c ]
    else c

unfoldable pub status : World → Core → Core × AppStatus
status w c =
    let st = asked_helper w c (signed_in w (of_config c (validate c.cfg)) (load w.os c.files)) in
    (adopt c st, own_fields c st)
