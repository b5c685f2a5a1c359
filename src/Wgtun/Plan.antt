-- ===== src/Wgtun/Plan.antt =====
-- `planNetwork`, `parseRoute` and `sortPrefixes` of pkg/wgtun/netplan.go.
pub mod Sorting
pub mod Routed
pub mod Resolvers
use claimward_vpn_client.Common.{
  ℕ, ◌-◌, ◌==◌, ltb, ◌+++◌, String, List, [], ◌∷◌, ◌++◌, Option, none, some, Bool, true, false,
  ◌||◌, quote, ℤ, if◌then◌else◌,
}
use claimward_vpn_client.Errors.{Error, Result, ok, err, wrap, ◌>>=◌}
use claimward_vpn_client.Wire.{TunnelConfig}
use claimward_vpn_client.Wgtun.Addresses.{
  Addr, Prefix, Zoned, Syntax, is4, is_4in6, unmap, unmap_zoned, masked, prefix_eq, prefix_lt,
}

-- `netPlan`.
pub record NetPlan : Type 0 where
  pub address : Prefix
  pub routes4 : List Prefix
  pub routes6 : List Prefix
  pub dns4 : List Zoned
  pub dns6 : List Zoned
  pub default4 : Bool
  pub default6 : Bool
  pub mtu : ℤ

-- What the loop over the routes keeps.
pub record Routing : Type 0 where
  pub seen : List Prefix
  pub four : List Prefix
  pub six : List Prefix
  pub default4 : Bool
  pub default6 : Bool

abbrev pub no_routes : Routing
no_routes = record { seen = []; four = []; six = []; default4 = false; default6 = false }

-- An IPv4-mapped prefix as the IPv4 one it maps; one that is shorter than the mapping is none.
abbrev pub unmapped : Prefix → Option Prefix
unmapped r =
    if is_4in6 r.addr
    then if ltb r.bits 96 then none else some (record { addr = unmap r.addr; bits = r.bits - 96 })
    else some r

abbrev pub then_masked : Option Prefix → Option Prefix
then_masked none = none
then_masked (some r) = some (masked r)

abbrev pub parsed_route : Result Prefix → Option Prefix
parsed_route (err e) = none
parsed_route (ok r) = then_masked (unmapped r)

-- `parseRoute`.
unfoldable pub parse_route : Syntax → String → Option Prefix
parse_route syn s = parsed_route (syn.parse_prefix s)

unfoldable pub is_seen : Prefix → List Prefix → Bool
is_seen r [] = false
is_seen r (q ∷ qs) = prefix_eq r q || is_seen r qs

abbrev pub appended : Routing → Prefix → Routing
appended q r =
    if is4 r.addr
    then record q {
      seen = r ∷ q.seen;
      four = q.four ++ r ∷ [];
      default4 = q.default4 || r.bits == 0;
    }
    else record q { seen = r ∷ q.seen; six = q.six ++ r ∷ []; default6 = q.default6 || r.bits == 0 }

abbrev pub routed : Routing → Option Prefix → Routing
unfolding is_seen
routed q none = q
routed q (some r) = if is_seen r q.seen then q else appended q r

unfoldable pub add_routes : Syntax → Routing → List String → Routing
unfolding is_seen
add_routes syn q [] = q
add_routes syn q (s ∷ ss) = add_routes syn (routed q (parse_route syn s)) ss

unfoldable pub insert : Prefix → List Prefix → List Prefix
insert r [] = r ∷ []
insert r (q ∷ qs) = if prefix_lt q r then q ∷ insert r qs else r ∷ q ∷ qs

-- `sortPrefixes`; which sort `sort.Slice` is makes no difference, since no prefix comes twice.
unfoldable pub sort_prefixes : List Prefix → List Prefix
unfolding insert
sort_prefixes [] = []
sort_prefixes (r ∷ rs) = insert r (sort_prefixes rs)

abbrev pub resolver_added : NetPlan → Zoned → NetPlan
resolver_added p a =
    if is4 a.addr
    then record p { dns4 = p.dns4 ++ a ∷ [] }
    else record p { dns6 = p.dns6 ++ a ∷ [] }

-- The resolvers, in order; the first that is malformed is an error.
unfoldable pub add_resolvers : Syntax → NetPlan → List String → Result NetPlan
add_resolvers syn p [] = ok p
add_resolvers syn p (s ∷ ss) = do
  a ← wrap ("parse DNS server " +++ quote s) (syn.parse_addr s)
  add_resolvers syn (resolver_added p (unmap_zoned a)) ss

abbrev pub routing_plan : TunnelConfig → Prefix → Routing → NetPlan
routing_plan cfg addr q = record {
  address = addr;
  routes4 = sort_prefixes q.four;
  routes6 = sort_prefixes q.six;
  dns4 = [];
  dns6 = [];
  default4 = q.default4;
  default6 = q.default6;
  mtu = cfg.mtu;
}

-- `planNetwork`.
unfoldable pub plan_network : Syntax → TunnelConfig → Result NetPlan
plan_network syn cfg = do
  addr ← wrap ("parse address " +++ quote cfg.address) (syn.parse_prefix cfg.address)
  add_resolvers syn (routing_plan cfg addr (add_routes syn no_routes cfg.allowed_ips)) cfg.dns
