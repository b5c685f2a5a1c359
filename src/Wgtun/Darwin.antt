-- ===== src/Wgtun/Darwin.antt =====
-- pkg/wgtun/wgtun_darwin.go: the interface's address and routes by `ifconfig` and `route`.
pub mod Laws
use claimward_vpn_client.Common.{◌+++◌, String, List, [], ◌∷◌, none, some, quote}
use claimward_vpn_client.Errors.{Error, Result, ok, err, wrapped}
use claimward_vpn_client.Wire.{TunnelConfig}
use claimward_vpn_client.Wgtun.Addresses.{Addr, Prefix}
use claimward_vpn_client.Wgtun.Routes.{Table, Changed, Platform}
use claimward_vpn_client.Wgtun.Commands.{
  Ran, Cidr, System, run, reported, ◌then_on◌, add_all, del_all,
}

abbrev pub route_args : System → String → String → Prefix → List String
route_args sys name verb r =
    "-q" ∷ "-n" ∷ verb ∷ "-inet" ∷ sys.net_text r ∷ "-interface" ∷ name ∷ []

abbrev add_parsed : System → String → Table → Result Cidr → Changed
add_parsed sys name t (err e) = record { table = t; error = none }
add_parsed sys name t (ok c) =
    reported ("route add " +++ sys.net_text c.net)
      (run sys t "route" (route_args sys name "add" c.net))

abbrev del_parsed : System → String → Table → Result Cidr → Table
del_parsed sys name t (err e) = t
del_parsed sys name t (ok c) = (run sys t "route" (route_args sys name "delete" c.net)).table

-- `routeAdd`, which skips what is malformed.
unfoldable pub route_add : System → String → Table → String → Changed
route_add sys name t cidr = add_parsed sys name t (sys.parse_cidr cidr)

-- `routeDel`.
unfoldable pub route_del : System → String → Table → String → Table
route_del sys name t cidr = del_parsed sys name t (sys.parse_cidr cidr)

abbrev pub platform : System → String → Platform
platform sys name = record { route_add = route_add sys name; route_del = route_del sys name }

abbrev configured : System → String → TunnelConfig → Table → Result Cidr → Changed
configured sys name cfg t (err e) = record {
  table = t;
  error = some (wrapped ("parse address " +++ quote cfg.address) e);
}
configured sys name cfg t (ok c) =
    let ip = sys.ip_text c.ip in
    reported "ifconfig"
      (run sys t "ifconfig" (name ∷ "inet" ∷ ip ∷ ip ∷ "netmask" ∷ "255.255.255.255" ∷ []))
    then_on (λ u. reported "ifconfig up" (run sys u "ifconfig" (name ∷ "up" ∷ [])))
    then_on (λ u. add_all (platform sys name) u cfg.allowed_ips)

-- `configureNetwork`.
unfoldable pub configure_network : System → String → TunnelConfig → Table → Changed
configure_network sys name cfg t = configured sys name cfg t (sys.parse_cidr cfg.address)

-- `teardownNetwork`.
unfoldable pub teardown_network : System → String → TunnelConfig → Table → Table
teardown_network sys name cfg t = del_all (platform sys name) t cfg.allowed_ips
