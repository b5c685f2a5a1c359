-- ===== src/Wgtun/Linux/Laws.antt =====
-- What the routes of pkg/wgtun/wgtun_other.go promise, where `ip` does what its manual says.
use claimward_vpn_client.Common.{
  ◌+++◌, ◌≡◌, ◌≢◌, refl, ◌↔◌, ◌⊎◌, inl, inr, String, Option, none, some, true, if◌then◌else◌,
}
use claimward_vpn_client.Errors.{Result, ok, err}
use claimward_vpn_client.Wgtun.Addresses.{Prefix, addr_eq}
use claimward_vpn_client.Wgtun.Routes.{Table}
use claimward_vpn_client.Wgtun.Routes.Entries.{Lawful, Deleted, Others}
use claimward_vpn_client.Wgtun.Commands.{Ran, Cidr, System, run, reported-none}
use claimward_vpn_client.Wgtun.Linux.{
  route_args, add_parsed, del_parsed, route_add, route_del, platform,
}

-- The route that `ip` reads in an entry: none where bits of the address lie outside the network.
abbrev pub exact : Cidr → Option Prefix
exact c = if addr_eq c.ip c.net.addr then some c.net else none

abbrev pub parsed_dst : Result Cidr → Option Prefix
parsed_dst (err e) = none
parsed_dst (ok c) = exact c

abbrev pub dst : System → String → Option Prefix
dst sys a = parsed_dst (sys.parse_cidr a)

abbrev pub Adds : System → Table → String → Ran → Type 0
Adds sys t a c =
    (c.error ≡ none → (r : Prefix) → (c.table r ≡ true) ↔ ((dst sys a ≡ some r) ⊎ (t r ≡ true)))
    × Others (dst sys) t a c.table

-- `ip route` adds and deletes the route that it reads in an entry; where it reads none it is an
-- error that changes nothing.
pub record RouteCommand (sys : System) (name : String) : Type 0 where
  pub add : (t : Table) (a : String) → Adds sys t a (sys.exec t "ip" (route_args name "add" a))
  pub del :
      (t : Table) (a : String)
      → Deleted (dst sys) t a (sys.exec t "ip" (route_args name "del" a)).table

-- A table after an entry that reads as `p` was added.
abbrev After : Result Cidr → Table → Table → Type 0
After p t u = (r : Prefix) → (u r ≡ true) ↔ ((parsed_dst p ≡ some r) ⊎ (t r ≡ true))

module _ (sys : System) (name : String) (t : Table) (a : String) where
  abbrev added : Ran
  added = run sys t "ip" (route_args name "add" a)

  abbrev deleted : Ran
  deleted = run sys t "ip" (route_args name "del" a)

  add_parsed-After :
      (p : Result Cidr)
      → (added.error ≡ none → After p t added.table)
      → (add_parsed sys name t a p).error ≡ none
      → After p t (add_parsed sys name t a p).table
  add_parsed-After (err e) h z r = (λ h. inr h, λ h. elim h [ inl n ↦ cc | inr m ↦ m ])
  add_parsed-After (ok c) h z r = h (reported-none ("ip route add " +++ a) added z) r

  add_parsed-others :
      (p : Result Cidr)
      → ((r : Prefix) → parsed_dst p ≢ some r → added.table r ≡ t r)
      → (r : Prefix) → parsed_dst p ≢ some r
      → (add_parsed sys name t a p).table r ≡ t r
  add_parsed-others (err e) h r n = refl
  add_parsed-others (ok c) h r n = h r n

  del_parsed-Deleted :
      (p : Result Cidr)
      → ((r : Prefix) → (deleted.table r ≡ true) ↔ ((t r ≡ true) × (parsed_dst p ≢ some r)))
      → (r : Prefix)
      → (del_parsed sys name t a p r ≡ true) ↔ ((t r ≡ true) × (parsed_dst p ≢ some r))
  del_parsed-Deleted (err e) h r = (λ m. (m, λ x. cc), λ m. m.0)
  del_parsed-Deleted (ok c) h r = h r

-- With an `ip` that reads an entry as a network with no further bits, and adds and deletes that
-- route of the interface, `routeAdd` and `routeDel` of Linux are lawful for the network so read.
pub linux-Lawful :
    (sys : System) (name : String)
    → RouteCommand sys name
    → Lawful (platform "linux" sys name) (dst sys)
unfolding route_add route_del run
linux-Lawful sys name cmd = record {
  add_lem = λ t a. add_parsed-After sys name t a (sys.parse_cidr a) (cmd.add t a).0;
  add_others = λ t a. add_parsed-others sys name t a (sys.parse_cidr a) (cmd.add t a).1;
  del_lem = λ t a. del_parsed-Deleted sys name t a (sys.parse_cidr a) (cmd.del t a);
}
