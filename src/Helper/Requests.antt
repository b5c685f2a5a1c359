-- ===== src/Helper/Requests.antt =====
-- What the helper answers the app: `handle` and the actions, of pkg/helper/helper.go.
use claimward_vpn_client.Common.{
  ◌+++◌, String, List, map, Option, none, some, Bool, true, false, ℕ, str_eq, is_blank,
  if◌then◌else◌,
}
use claimward_vpn_client.Errors.{Result, ok, err, error_text}
use claimward_vpn_client.Wire.{TenantInfo, Tenant, ConnectSpec, Request, Response}
use claimward_vpn_client.Client
use claimward_vpn_client.Helper.State.{Server, Session, lists, State, live, send, stop_locked}
use claimward_vpn_client.Helper.Enroll.{
  Env, allowed, enroll, status, failure, success, give_back_call,
}
use claimward_vpn_client.Helper.Renew.{modify, renew}

abbrev pub action_connect : String
action_connect = "connect"

abbrev pub action_down : String
action_down = "down"

abbrev pub action_status : String
action_status = "status"

abbrev pub action_tenants : String
action_tenants = "tenants"

abbrev pub action_renew : String
action_renew = "renew"

abbrev pub tenant_of : TenantInfo → Tenant
tenant_of t = record { id = t.id; name = t.name }

abbrev tenants_reply : Result (List TenantInfo) → Response
tenants_reply (err e) = failure ("tenants: " +++ error_text e)
tenants_reply (ok ts) = record success { tenants = map tenant_of ts }

abbrev pub listed : Env → State → ConnectSpec → Result String → State × Response
listed env s spec (err e) = (s, failure (error_text e))
listed env s spec (ok server) =
    (send s (lists server spec.bearer), tenants_reply (Client.tenants env.web server spec.bearer))

unfoldable pub tenants : Server → Env → State → Option ConnectSpec → State × Response
tenants srv env s none = (s, failure "missing connect spec")
tenants srv env s (some spec) = listed env s spec (allowed srv (some spec))

unfoldable pub connect : Server → Env → State → Option ConnectSpec → State × Response
connect srv env s spec = enroll srv env s spec 0

-- The bearer that `renewNow` puts into the session.
abbrev pub with_bearer : String → Session → Session
with_bearer bearer sess = record sess { spec = record sess.spec { bearer = bearer } }

abbrev renewed_reply : Response → Response
renewed_reply st =
    if is_blank st.last_error then st else record st { succeeded = false; error = st.last_error }

abbrev pub with_reply : State × Bool → State × Response
with_reply (s, again) = (s, renewed_reply (status s))

abbrev pub renewed_now : Server → Env → State → String → Option ℕ → State × Response
renewed_now srv env s bearer none = (s, failure "not connected")
renewed_now srv env s bearer (some p) =
    with_reply (renew srv env true (modify s p (with_bearer bearer)) p)

unfoldable pub renew_now : Server → Env → State → Option ConnectSpec → State × Response
renew_now srv env s none = (s, failure "missing bearer")
renew_now srv env s (some spec) =
    if is_blank spec.bearer
    then (s, failure "missing bearer")
    else renewed_now srv env s spec.bearer s.sess

abbrev pub give_back_stopped : State → Option Session → State
give_back_stopped s none = s
give_back_stopped s (some old) = send s (give_back_call old)

unfoldable pub down : State → State × Response
down s = (give_back_stopped (record (stop_locked s) { last_err = "" }) (live s), success)

-- `Shutdown` gives nothing back.
unfoldable pub shutdown : State → State
shutdown s = stop_locked s

unfoldable pub dispatch : Server → Env → State → Request → State × Response
dispatch srv env s req =
    if str_eq req.action action_connect
    then connect srv env s req.connect
    else if str_eq req.action action_tenants
    then tenants srv env s req.connect
    else if str_eq req.action action_renew
    then renew_now srv env s req.connect
    else if str_eq req.action action_down
    then down s
    else if str_eq req.action action_status
    then (s, status s)
    else (s, failure ("unknown action: " +++ req.action))

-- `handle`: the request as it was decoded.
unfoldable pub handle : Server → Env → State → Result Request → State × Response
handle srv env s (err e) = (s, failure ("bad request: " +++ error_text e))
handle srv env s (ok req) = dispatch srv env s req
