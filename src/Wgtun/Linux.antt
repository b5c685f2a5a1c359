-- ===== src/Wgtun/Linux.antt =====
-- pkg/wgtun/wgtun_other.go: the interface's address and routes by `ip`, on Linux only.
pub mod Laws
use claimward_vpn_client.Common.{
  ◌+++◌, str_eq, String, List, [], ◌∷◌, Option, none, some, quote, if◌then◌else◌,
}
use claimward_vpn_client.Errors.{Error, Result, ok, err, plain, wrapped}
use claimward_vpn_client.Wire.{TunnelConfig}
use claimward_vpn_client.Wgtun.Routes.{Table, Changed, Platform}
use claimward_vpn_client.Wgtun.Commands.{
  Ran, Cidr, System, run, reported, ◌then_on◌, add_all, del_all,
}

abbrev pub route_args : String → String → String → List String
route_args name verb cidr = "route" ∷ verb ∷ cidr ∷ "dev" ∷ name ∷ []

abbrev pub add_parsed : System → String → Table → String → Result Cidr → Changed
add_parsed sys name t cidr (err e) = record { table = t; error = none }
add_parsed sys name t cidr (ok c) =
    reported ("ip route add " +++ cidr) (run sys t "ip" (route_args name "add" cidr))

abbrev pub del_parsed : System → String → Table → String → Result Cidr → Table
del_parsed sys name t cidr (err e) = t
del_parsed sys name t cidr (ok c) = (run sys t "ip" (route_args name "del" cidr)).table

-- `routeAdd`, where `os` is `runtime.GOOS`.
unfoldable pub route_add : String → System → String → Table → String → Changed
route_add os sys name t cidr =
    if str_eq os "linux"
    then add_parsed sys name t cidr (sys.parse_cidr cidr)
    else record { table = t; error = none }

-- `routeDel`.
unfoldable pub route_del : String → System → String → Table → String → Table
route_del os sys name t cidr =
    if str_eq os "linux" then del_parsed sys name t cidr (sys.parse_cidr cidr) else t

abbrev pub platform : String → System → String → Platform
platform os sys name = record {
  route_add = route_add os sys name;
  route_del = route_del os sys name;
}

abbrev configured : String → System → String → TunnelConfig → Table → Result Cidr → Changed
configured os sys name cfg t (err e) = record {
  table = t;
  error = some (wrapped ("parse address " +++ quote cfg.address) e);
}
configured os sys name cfg t (ok c) =
    let address = sys.ip_text c.ip +++ "/32" in
    reported "ip address add" (run sys t "ip" ("address" ∷ "add" ∷ address ∷ "dev" ∷ name ∷ []))
    then_on (λ u.
        reported "ip link up" (run sys u "ip" ("link" ∷ "set" ∷ "up" ∷ "dev" ∷ name ∷ [])))
    then_on (λ u. add_all (platform os sys name) u cfg.allowed_ips)

-- `configureNetwork`.
unfoldable pub configure_network : String → System → String → TunnelConfig → Table → Changed
configure_network os sys name cfg t =
    if str_eq os "linux"
    then configured os sys name cfg t (sys.parse_cidr cfg.address)
    else record {
      table = t;
      error = some (plain ("wgtun: network configuration not implemented for " +++ os));
    }

-- `teardownNetwork`.
unfoldable pub teardown_network : String → System → String → TunnelConfig → Table → Table
teardown_network os sys name cfg t =
    let left = del_all (platform os sys name) t cfg.allowed_ips in
    if str_eq os "linux" then left else t
