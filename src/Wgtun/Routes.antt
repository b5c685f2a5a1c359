-- ===== src/Wgtun/Routes.antt =====
-- `UpdateRoutes` of pkg/wgtun/wgtun.go over what a platform does with one route, and the WireGuard
-- settings that it sends.
pub mod Entries
pub mod Update
pub mod Installed
pub mod Stale
use claimward_vpn_client.Common.{
  ℕ, ◌+++◌, str_eq, hex_bytes, String, List, [], ◌∷◌, Option, none, some, Bool, true, false, ◌||◌,
  if◌then◌else◌,
}
use claimward_vpn_client.Errors.{Error, wrapped}
use claimward_vpn_client.Wire.{TunnelConfig}
use claimward_vpn_client.Wgtun.Addresses.{Prefix}

-- The routes that go to the interface.
abbrev pub Table : Type 0
Table = Prefix → Bool

pub record Changed : Type 0 where
  pub table : Table
  pub error : Option Error

-- `routeAdd` and `routeDel` of one platform, for one interface.
pub record Platform : Type 0 where
  pub route_add : Table → String → Changed
  pub route_del : Table → String → Table

-- `Tunnel`, with the interface's routes and the settings that its device took, newest first.
pub record Tunnel : Type 0 where
  pub cfg : TunnelConfig
  pub table : Table
  pub settings : List String

pub record Outcome : Type 0 where
  pub tunnel : Tunnel
  pub error : Option Error

-- The loop that writes the allowed addresses.
unfoldable pub allowed_lines : List String → String
allowed_lines [] = ""
allowed_lines (a ∷ rest) = "allowed_ip=" +++ a +++ "\n" +++ allowed_lines rest

unfoldable pub update_text : TunnelConfig → List String → String
update_text cfg ips =
    "public_key="
    +++ hex_bytes cfg.server_public_key
    +++ "\n"
    +++ "replace_allowed_ips=true\n"
    +++ allowed_lines ips

-- Whether a set of entries, a map to `true` in the source, has one.
unfoldable pub has : List String → String → Bool
has [] a = false
has (s ∷ ss) a = str_eq a s || has ss a

-- The loop over the old entries.
unfoldable pub del_unwanted : Platform → List String → Table → List String → Table
unfolding has
del_unwanted pf want t [] = t
del_unwanted pf want t (a ∷ rest) =
    del_unwanted pf want (if has want a then t else pf.route_del t a) rest

-- The loop over the new entries, which ends at the first error.
unfoldable pub add_new : Platform → List String → Table → List String → Changed
unfolding has
add_new pf old t [] = record { table = t; error = none }
add_new pf old t (a ∷ rest) = elim (has old a) [
  | true ↦ add_new pf old t rest
  | false ↦ elim (pf.route_add t a).error [
    | none ↦ add_new pf old (pf.route_add t a).table rest
    | some e ↦ pf.route_add t a
  ]
]

abbrev pub set_allowed : TunnelConfig → List String → TunnelConfig
set_allowed cfg ips = record cfg { allowed_ips = ips }

-- The configuration names the new entries only where every route was added.
abbrev pub routes_added : Tunnel → List String → Changed → Outcome
routes_added t ips c = record {
  tunnel = record t {
    table = c.table;
    cfg = elim c.error [ none ↦ set_allowed t.cfg ips | some e ↦ t.cfg ];
  };
  error = c.error;
}

-- What `UpdateRoutes` uses: the device, which takes settings or refuses them, the order in which a
-- map's keys come, and the platform.
pub record Device : Type 0 where
  pub ipc_set : String → Option Error
  pub keys : List String → List String
  pub platform : Platform

abbrev pub taken : Device → Tunnel → List String → Option Error → Outcome
taken d t ips (some e) = record { tunnel = t; error = some (wrapped "update allowed ips" e) }
taken d t ips none =
    let old = t.cfg.allowed_ips in
    let cleared = del_unwanted d.platform ips t.table (d.keys old) in
    routes_added (record t { settings = update_text t.cfg ips ∷ t.settings }) ips
      (add_new d.platform old cleared ips)

-- `UpdateRoutes`.
unfoldable pub update_routes : Device → Tunnel → List String → Outcome
update_routes d t ips = taken d t ips (d.ipc_set (update_text t.cfg ips))
