-- ===== src/Wgtun/Windows.antt =====
-- pkg/wgtun/wgtun_windows.go: the adapter's address, routes, resolvers and MTU by `winipcfg`.
pub mod Laws
pub mod Families
use claimward_vpn_client.Common.{
  ℕ, ◌+++◌, ◌%◌, ◌^◌, ltb, is_empty, String, List, [], ◌∷◌, ◌++◌, Option, none, some, Bool, true,
  false, not, ◌&&◌, ℤ, pos_part, if◌then◌else◌,
}
use claimward_vpn_client.Errors.{Error, Result, ok, err, plain, wrapped, ◌>>=◌}
use claimward_vpn_client.Wire.{TunnelConfig}
use claimward_vpn_client.Wgtun.Addresses.{Addr, v4, v6, Prefix, Zoned, Syntax, is4}
use claimward_vpn_client.Wgtun.Plan.{NetPlan, parse_route, plan_network}
use claimward_vpn_client.Wgtun.Routes.{Table, Changed, Platform}

pub data Family : Type 0 where
  inet : Family
  inet6 : Family

-- `IPInterface`, as far as the source sets it.
pub record Interface : Type 0 where
  pub router_discovery : ℕ
  pub dad_transmits : ℕ
  pub managed_address : Bool
  pub other_stateful : Bool
  pub nl_mtu : ℕ
  pub automatic_metric : Bool
  pub metric : ℕ

-- The calls of `winipcfg` that configure the adapter.
pub data Call : Type 0 where
  set_routes : Family → List Prefix → Addr → Call
  set_addresses : Family → Prefix → Call
  read_interface : Family → Call
  set_interface : Family → Interface → Call
  set_dns : Family → List Zoned → Call

-- `AddRoute`, whose error the source compares with `ERROR_OBJECT_ALREADY_EXISTS`.
pub data Added : Type 0 where
  done : Added
  already_exists : Error → Added
  refused : Error → Added

-- The tunnel's device, a Wintun adapter or of another type, and `winipcfg`, whose answer to a call
-- may depend on the calls before.
pub record System : Type 0 where
  pub native : Option ℕ
  pub device_type : String
  pub add_route : ℕ → Table → Prefix → Addr → Table
  pub add_result : ℕ → Table → Prefix → Addr → Added
  pub delete_route : ℕ → Table → Prefix → Addr → Table
  pub answer : ℕ → List Call → Call → Option Error
  pub interface : ℕ → List Call → Family → Interface
  pub discovery_disabled : ℕ
  pub prefix_text : Prefix → String

-- `luid`.
unfoldable pub luid : System → Result ℕ
luid sys = elim sys.native [
  | none ↦ err (plain ("wgtun: " +++ sys.device_type +++ " is not a Wintun adapter"))
  | some n ↦ ok n
]

-- `unspecified`.
unfoldable pub unspecified : Prefix → Addr
unspecified r = if is4 r.addr then v4 0 else v6 0

abbrev pub add_error : System → Prefix → Added → Option Error
add_error sys r done = none
add_error sys r (already_exists e) = none
add_error sys r (refused e) = some (wrapped ("add route " +++ sys.prefix_text r) e)

abbrev pub add_parsed : System → Table → Option Prefix → Result ℕ → Changed
add_parsed sys t none n = record { table = t; error = none }
add_parsed sys t (some r) (err e) = record { table = t; error = some e }
add_parsed sys t (some r) (ok n) = record {
  table = sys.add_route n t r (unspecified r);
  error = add_error sys r (sys.add_result n t r (unspecified r));
}

-- `routeAdd`.
unfoldable pub route_add : Syntax → System → Table → String → Changed
route_add syn sys t cidr = add_parsed sys t (parse_route syn cidr) (luid sys)

abbrev pub del_parsed : System → Table → Option Prefix → Result ℕ → Table
del_parsed sys t none n = t
del_parsed sys t (some r) (err e) = t
del_parsed sys t (some r) (ok n) = sys.delete_route n t r (unspecified r)

-- `routeDel`.
unfoldable pub route_del : Syntax → System → Table → String → Table
route_del syn sys t cidr = del_parsed sys t (parse_route syn cidr) (luid sys)

abbrev pub platform : Syntax → System → Platform
platform syn sys = record { route_add = route_add syn sys; route_del = route_del syn sys }

-- What the loop of `configureNetwork` reads for one family.
pub record FamilyPlan : Type 0 where
  pub family : Family
  pub routes : List Prefix
  pub dns : List Zoned
  pub is_default : Bool
  pub has_addr : Bool
  pub next_hop : Addr

abbrev pub plan4 : NetPlan → FamilyPlan
plan4 p = record {
  family = inet;
  routes = p.routes4;
  dns = p.dns4;
  is_default = p.default4;
  has_addr = is4 p.address.addr;
  next_hop = v4 0;
}

abbrev pub plan6 : NetPlan → FamilyPlan
plan6 p = record {
  family = inet6;
  routes = p.routes6;
  dns = p.dns6;
  is_default = p.default6;
  has_addr = not (is4 p.address.addr);
  next_hop = v6 0;
}

-- The calls made so far, newest first, and the error that ended them.
pub record Calls : Type 0 where
  pub made : List Call
  pub error : Option Error

infixl 5 ◌then_on◌
unfoldable pub ◌then_on◌ : Calls → (List Call → Calls) → Calls
c then_on next = elim c.error [ none ↦ next c.made | some e ↦ c ]

abbrev pub nothing : List Call → Calls
nothing made = record { made = made; error = none }

abbrev pub call : System → ℕ → String → Call → List Call → Calls
call sys n what c made = record {
  made = c ∷ made;
  error = elim (sys.answer n made c) [ none ↦ none | some e ↦ some (wrapped what e) ];
}

-- The settings of an interface that was read: `uint32` of the MTU where there is one, and the
-- metric pinned for a default route.
abbrev pub with_mtu : ℤ → Interface → Interface
with_mtu mtu i = if ltb 0 (pos_part mtu) then record i { nl_mtu = pos_part mtu % 2 ^ 32 } else i

abbrev pub with_metric : Bool → Interface → Interface
with_metric is_default i =
    if is_default then record i { automatic_metric = false; metric = 0 } else i

abbrev pub settings : System → NetPlan → FamilyPlan → Interface → Interface
settings sys p f i = with_metric f.is_default (
    with_mtu p.mtu (record i {
      router_discovery = sys.discovery_disabled;
      dad_transmits = 0;
      managed_address = false;
      other_stateful = false;
    }))

abbrev pub routes_step : System → ℕ → FamilyPlan → List Call → Calls
routes_step sys n f made =
    if is_empty f.routes
    then nothing made
    else call sys n "set routes" (set_routes f.family f.routes f.next_hop) made

abbrev pub address_step : System → ℕ → NetPlan → FamilyPlan → List Call → Calls
address_step sys n p f made =
    if f.has_addr
    then call sys n ("set address " +++ sys.prefix_text p.address)
        (set_addresses f.family p.address) made
    else nothing made

abbrev pub interface_steps : System → ℕ → NetPlan → FamilyPlan → List Call → Calls
interface_steps sys n p f made =
    call sys n "read interface" (read_interface f.family) made
    then_on (λ m.
        call sys n "set metric and MTU"
          (set_interface f.family (settings sys p f (sys.interface n made f.family))) m)
    then_on (λ m. call sys n "set DNS" (set_dns f.family f.dns) m)

-- One round of the loop; a family that nothing goes through is left alone.
unfoldable pub configure_family : System → ℕ → NetPlan → FamilyPlan → List Call → Calls
configure_family sys n p f made =
    routes_step sys n f made then_on (λ m. address_step sys n p f m) then_on (λ m.
      if not f.has_addr && is_empty f.routes then nothing m else interface_steps sys n p f m)

abbrev pub planned : System → Result NetPlan → Result ℕ → Calls
planned sys (err e) n = record { made = []; error = some e }
planned sys (ok p) (err e) = record { made = []; error = some e }
planned sys (ok p) (ok n) =
    configure_family sys n p (plan4 p) [] then_on (λ m. configure_family sys n p (plan6 p) m)

-- `configureNetwork`, as the calls that it makes.
unfoldable pub configure_network : Syntax → System → TunnelConfig → Calls
configure_network syn sys cfg = planned sys (plan_network syn cfg) (luid sys)

-- `teardownNetwork`: what it flushes, errors ignored.
pub data Flush : Type 0 where
  flush_routes : Family → Flush
  flush_dns : Family → Flush
  flush_addresses : Family → Flush

abbrev flush_family : Family → List Flush
flush_family f = flush_routes f ∷ flush_dns f ∷ flush_addresses f ∷ []

unfoldable pub teardown_network : System → List Flush
teardown_network sys = elim (luid sys) [
  | err e ↦ []
  | ok n ↦ flush_family inet ++ flush_family inet6
]
