-- ===== src/Wgtun/Darwin/Laws.antt =====
-- What the routes of pkg/wgtun/wgtun_darwin.go promise, where `route` does what its manual says.
use claimward_vpn_client.Common.{
  some-injective, ◌+++◌, ◌≡◌, ◌≢◌, refl, ap, ◌↔◌, ◌⊎◌, inl, inr, String, [], Option, none, some,
  true, false, if◌then◌else◌, Bool-cases,
}
use claimward_vpn_client.Errors.{Result, ok, err, Result-cases}
use claimward_vpn_client.Wire.{TunnelConfig}
use claimward_vpn_client.Wgtun.Addresses.{Prefix, is4}
use claimward_vpn_client.Wgtun.Routes.{Table}
use claimward_vpn_client.Wgtun.Routes.Entries.{Lawful, Gives, Added, Deleted, Others}
use claimward_vpn_client.Wgtun.Commands.{Ran, Cidr, System, run, del_all_lem, reported-none}
use claimward_vpn_client.Wgtun.Darwin.{route_args, route_add, route_del, platform, teardown_network}

-- The routes of a table after one more or one less.
abbrev pub With : Table → Prefix → Table → Type 0
With t r u = (s : Prefix) → (u s ≡ true) ↔ ((r ≡ s) ⊎ (t s ≡ true))

abbrev pub Without : Table → Prefix → Table → Type 0
Without t r u = (s : Prefix) → (u s ≡ true) ↔ ((t s ≡ true) × (r ≢ s))

-- An IPv4 route is added, or it is an error and the other routes are left; an IPv6 one is an error.
abbrev pub Adds : Table → Prefix → Ran → Type 0
Adds t r c =
    (c.error ≡ none → (is4 r.addr ≡ true) × With t r c.table)
    × ((s : Prefix) → (is4 r.addr ≡ true) → r ≢ s → c.table s ≡ t s)
    × (is4 r.addr ≡ false → c.table ≡ t)

abbrev pub Dels : Table → Prefix → Ran → Type 0
Dels t r c = (is4 r.addr ≡ true → Without t r c.table) × (is4 r.addr ≡ false → c.table ≡ t)

-- `route -inet` adds and deletes IPv4 routes of the interface, and takes no other.
pub record RouteCommand (sys : System) (name : String) : Type 0 where
  pub add : (t : Table) (r : Prefix) → Adds t r (sys.exec t "route" (route_args sys name "add" r))
  pub del :
      (t : Table) (r : Prefix) → Dels t r (sys.exec t "route" (route_args sys name "delete" r))

abbrev pub of_ipv4 : Prefix → Option Prefix
of_ipv4 r = if is4 r.addr then some r else none

abbrev pub parsed_dst : Result Cidr → Option Prefix
parsed_dst (err e) = none
parsed_dst (ok c) = of_ipv4 c.net

-- The route that an entry names on macOS.
abbrev pub dst : System → String → Option Prefix
dst sys a = parsed_dst (sys.parse_cidr a)

iff_some : {A B : Type 0} {r s : Prefix} → A ↔ ((r ≡ s) ⊎ B) → A ↔ ((some r ≡ some s) ⊎ B)
iff_some f = (
  λ a. elim (f.0 a) [ inl e ↦ inl (ap some e) | inr b ↦ inr b ],
  λ h. f.1 (elim h [ inl e ↦ inl (some-injective _ _ e) | inr b ↦ inr b ]),
)

added_route :
    (t : Table) (n : Prefix) (c : Ran)
    → Adds t n c
    → c.error ≡ none
    → (r : Prefix) → (c.table r ≡ true) ↔ ((of_ipv4 n ≡ some r) ⊎ (t r ≡ true))
added_route t n c adds z r = let (four, w) = adds.0 z in rw four (iff_some (w r))

other_route :
    (t : Table) (n : Prefix) (c : Ran)
    → Adds t n c
    → (r : Prefix) → of_ipv4 n ≢ some r
    → c.table r ≡ t r
other_route t n c adds r ne = elim (Bool-cases (is4 n.addr)) [
  | inl four ↦ adds.1 r four (λ e. ne (rw four (ap some e)))
  | inr six ↦ ap (λ (u : Table). u r) (adds.2 six)
]

deleted_route :
    (t : Table) (n : Prefix) (c : Ran)
    → Dels t n c
    → (r : Prefix) → (c.table r ≡ true) ↔ ((t r ≡ true) × (of_ipv4 n ≢ some r))
deleted_route t n c dels r = elim (Bool-cases (is4 n.addr)) [
  | inl four ↦
      let w = dels.0 four r in
      rw four (
        λ h. ((w.0 h).0, λ e. (w.0 h).1 (some-injective _ _ e)),
        λ h. w.1 (h.0, λ e. h.1 (ap some e)),
      )
  | inr six ↦ rw (six, dels.1 six) (λ h. (h, λ e. cc), λ h. h.0)
]

module _ (sys : System) (name : String) (cmd : RouteCommand sys name) where
  route_add-Added : (t : Table) (a : String) → Added (dst sys) t a (route_add sys name t a)
  unfolding route_add run
  route_add-Added t a = elim (Result-cases (sys.parse_cidr a)) [
    | inr (e, f) ↦ rw f (λ z r. (λ h. inr h, λ h. elim h [ inl n ↦ cc | inr m ↦ m ]))
    | inl (c, f) ↦
        let what = "route add " +++ sys.net_text c.net in
        let ran = run sys t "route" (route_args sys name "add" c.net) in
        rw f (λ z r. added_route t c.net ran (cmd.add t c.net) (reported-none what ran z) r)
  ]

  route_add-Others : (t : Table) (a : String) → Others (dst sys) t a (route_add sys name t a).table
  unfolding route_add run
  route_add-Others t a = elim (Result-cases (sys.parse_cidr a)) [
    | inr (e, f) ↦ rw f (λ r n. refl)
    | inl (c, f) ↦ rw f (λ r n.
        other_route t c.net (sys.exec t "route" (route_args sys name "add" c.net)) (cmd.add t c.net)
          r n)
  ]

  route_del-Deleted : (t : Table) (a : String) → Deleted (dst sys) t a (route_del sys name t a)
  unfolding route_del run
  route_del-Deleted t a = elim (Result-cases (sys.parse_cidr a)) [
    | inr (e, f) ↦ rw f (λ r. (λ h. (h, λ x. cc), λ h. h.0))
    | inl (c, f) ↦ rw f (λ r.
        deleted_route t c.net (sys.exec t "route" (route_args sys name "delete" c.net))
          (cmd.del t c.net) r)
  ]

  -- With a `route` command that adds and deletes the interface's IPv4 routes as its manual says, and
  -- refuses IPv6 ones, `routeAdd` and `routeDel` of macOS are lawful for the IPv4 network that an
  -- entry names: an entry that is added without an error adds its route and no other, one that is an
  -- error leaves the others, and one that is deleted deletes its route alone.
  pub darwin-Lawful : Lawful (platform sys name) (dst sys)
  darwin-Lawful = record {
    add_lem = route_add-Added;
    add_others = route_add-Others;
    del_lem = route_del-Deleted;
  }

  -- Once the network of a tunnel is taken down, no route is left that an entry of its configuration
  -- names, and every other is as it was.
  pub teardown_network_lem :
      (cfg : TunnelConfig) (t : Table) (r : Prefix)
      → (teardown_network sys name cfg t r ≡ true)
        ↔ ((t r ≡ true) × (¬ (Gives (dst sys) [] cfg.allowed_ips r)))
  unfolding teardown_network
  teardown_network_lem cfg t r =
      del_all_lem (platform sys name) (dst sys) darwin-Lawful t cfg.allowed_ips r
