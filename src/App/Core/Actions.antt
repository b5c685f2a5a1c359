-- ===== src/App/Core/Actions.antt =====
-- What the app asks of its core: `Tenants`, `SetTenant`, `Connect`, `Disconnect` and `Logout` of
-- pkg/appcore/appcore.go.
use claimward_vpn_client.Common.{
  ◌+++◌, String, List, [], ◌∷◌, Option, none, some, Bool, true, false, not, ◌&&◌, ◌||◌, str_eq,
  is_blank, contains, quote, if◌then◌else◌,
}
use claimward_vpn_client.Errors.{Error, plain, Result, ok, err, error_text}
use claimward_vpn_client.Wire.{Tenant, ConnectSpec, Response}
use claimward_vpn_client.HelperClient
use claimward_vpn_client.HelperClient.{Socket}
use claimward_vpn_client.Store.{Stored, Files, load, save, clear}
use claimward_vpn_client.App.Config.{validate}
use claimward_vpn_client.App.Core.{World, Core, Shown, logf, session, start_loop, stop_loop}

-- The helper's socket, as the core's client dials it.
abbrev pub helper_socket : World → Core → Socket
helper_socket w c = w.socket c.helper_path

abbrev pub listed : Core → Result Response → Core × Result (List Tenant)
listed c (err e) = (c, err e)
listed c (ok r) = (record c { tenants = r.tenants }, ok r.tenants)

abbrev pub tenants_asked : World → Core → Files × Result Shown → Core × Result (List Tenant)
tenants_asked w c (f, err e) = (record c { files = f }, err e)
tenants_asked w c (f, ok b) =
    listed (record c { files = f })
      (HelperClient.tenants c.helper_path (helper_socket w c) c.cfg.server_url b.bearer)

abbrev pub tenants_valid : World → Core → Result (Unit {0}) → Core × Result (List Tenant)
tenants_valid w c (err e) = (c, err e)
tenants_valid w c (ok u) = tenants_asked w c (session w c.cfg c.files)

-- `Tenants`.
unfoldable pub tenants : World → Core → Core × Result (List Tenant)
tenants w c = tenants_valid w c (validate c.cfg)

unfoldable pub is_offered : String → List Tenant → Bool
is_offered id [] = false
is_offered id (t ∷ ts) = str_eq t.id id || is_offered id ts

abbrev pub chosen_saved : Core → Files × Result (Unit {0}) → Core × Result (Unit {0})
chosen_saved c (f, err e) = (record c { files = f }, err e)
chosen_saved c (f, ok u) = (record c { files = f; tenant_required = false }, ok tt)

abbrev pub chosen : World → Core → String → Result (Option Stored) → Core × Result (Unit {0})
chosen w c id (err e) = (c, err e)
chosen w c id (ok none) = (c, err (plain "not signed in"))
chosen w c id (ok (some s)) = chosen_saved c (save w.os c.files (record s { tenant = id }))

-- `SetTenant`.
unfoldable pub set_tenant : World → Core → String → Core × Result (Unit {0})
unfolding is_offered
set_tenant w c id =
    if not (is_blank id) && not (is_offered id c.tenants)
    then (c, err (plain (quote id +++ " is not a tenant you were offered")))
    else chosen w c id (load w.os c.files)

-- `ErrTenantRequired`.
abbrev pub err_tenant_required : Error
err_tenant_required = plain "choose a tenant: you belong to several"

abbrev pub spec_of : World → Core → Shown → ConnectSpec
spec_of w c b = record {
  server_url = c.cfg.server_url;
  bearer = b.bearer;
  private_key = b.session.wg_private_key;
  device_name = w.hostname;
  tenant = b.session.tenant;
}

abbrev pub tenants_listed : World → Core × Result (List Tenant) → Core
tenants_listed w (c, ok ts) = c
tenants_listed w (c, err e) = logf w c ("listing tenants FAILED: " +++ error_text e)

-- The server wants a tenant chosen: those on offer are listed.
unfoldable pub tenant_wanted : World → Core → Core
tenant_wanted w c =
    record (tenants_listed w
      (tenants w (logf w c "connect: you belong to several tenants; choose one"))) {
        tenant_required = true;
      }

-- The critical section of a connect that succeeded.
unfoldable pub now_connected : Core → Response → Core
now_connected c r = start_loop (
    stop_loop (record c {
      connected = true;
      iface = r.interface;
      assigned = r.assigned_ip;
      tenant_required = false;
    }))

abbrev pub connect_answered : World → Core → Result Response → Core × Result (Unit {0})
connect_answered w c (err e) =
    if contains (error_text e) "tenant_required"
    then (tenant_wanted w c, err err_tenant_required)
    else (logf w c ("connect FAILED: " +++ error_text e), err e)
connect_answered w c (ok r) = (
  logf w (now_connected c r) (
      "connected: interface=" +++ r.interface +++ " ip=" +++ r.assigned_ip +++ " tenant="
      +++ r.tenant),
  ok tt,
)

abbrev pub connecting : World → Core → Shown → Core
connecting w c b = logf w c (
    "connect: enrolling at "
    +++ c.cfg.server_url
    +++ " (tenant "
    +++ quote b.session.tenant
    +++ ") and bringing up the tunnel…")

abbrev pub connect_shown : World → Core → Files × Result Shown → Core × Result (Unit {0})
connect_shown w c (f, err e) =
    (logf w (record c { files = f }) ("connect: " +++ error_text e), err e)
connect_shown w c (f, ok b) =
    connect_answered w (connecting w (record c { files = f }) b)
      (HelperClient.connect c.helper_path (helper_socket w c) (spec_of w c b))

abbrev pub connect_valid : World → Core → Result (Unit {0}) → Core × Result (Unit {0})
connect_valid w c (err e) = (c, err e)
connect_valid w c (ok u) = connect_shown w c (session w c.cfg c.files)

-- `Connect`.
unfoldable pub connect : World → Core → Core × Result (Unit {0})
connect w c = connect_valid w c (validate c.cfg)

abbrev pub not_connected : Core → Core
not_connected c = record c { connected = false; iface = ""; assigned = "" }

abbrev down_answer : Result Response → Result (Unit {0})
down_answer (ok r) = ok tt
down_answer (err e) = err e

-- `Disconnect`.
unfoldable pub disconnect : World → Core → Core × Result (Unit {0})
disconnect w c = (
  not_connected (stop_loop (logf w c "disconnecting…")),
  down_answer (HelperClient.down c.helper_path (helper_socket w c)),
)

abbrev pub cleared : Core → Files × Result (Unit {0}) → Core × Result (Unit {0})
cleared c (f, r) = (record c { files = f; tenants = []; tenant_required = false }, r)

-- `Logout`.
unfoldable pub logout : World → Core → Core × Result (Unit {0})
logout w c = let d = (disconnect w c).0 in cleared d (clear w.os d.files)
