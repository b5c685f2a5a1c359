-- ===== src/Examples/Network.antt =====
-- pkg/wgtun with two routes, an entry that is malformed, and an adapter that takes every call.
use claimward_vpn_client.Common.{
  some-injective, ◌≡◌, ◌≢◌, ◌↔◌, ◌⊎◌, refl, sym, ap, subst, ◌∙◌, inl, inr, String, [], ◌∷◌, none,
  some, true, false, not, ◌&&◌, ◌||◌, str_eq, pos, if◌then◌else◌, Bool-cases,
}
use claimward_vpn_client.Errors.{Result, ok, err, plain}
use claimward_vpn_client.Wire.{TunnelConfig}
use claimward_vpn_client.Wgtun.Addresses.{
  v4, v6, Prefix, Syntax, masked, prefix_eq, prefix_eq_lem, prefix_eq_self, prefix_lt,
}
use claimward_vpn_client.Wgtun.Plan.{
  NetPlan, insert, is_seen, parse_route, add_routes, sort_prefixes, add_resolvers, plan_network,
}
use claimward_vpn_client.Wgtun.Plan.Resolvers.{Planned, plan_network-Planned}
use claimward_vpn_client.Wgtun.Routes.{
  Table, Tunnel, Device, has, del_unwanted, add_new, update_routes,
}
use claimward_vpn_client.Wgtun.Routes.Entries.{Gives, Careful, Lawful-Careful}
use claimward_vpn_client.Wgtun.Routes.Installed.{
  Installed, Apart, update_routes-Installed, Installed-iff,
}
use claimward_vpn_client.Wgtun.Windows
use claimward_vpn_client.Wgtun.Windows.{Added}
use claimward_vpn_client.Wgtun.Windows.Laws.{RouteCalls, windows-Lawful}
use claimward_vpn_client.Wgtun.Windows.Families.{Routed, Resolved, configure_network_lem}
use claimward_vpn_client.Wgtun.Up
use claimward_vpn_client.Wgtun.Up.Resources.{Balanced, up-Balanced}

abbrev parse_prefix : String → Result Prefix
parse_prefix s =
    if str_eq s "10.80.0.5/32"
    then ok (record { addr = v4 173015045; bits = 32 })
    else if str_eq s "10.2.3.4/16"
    then ok (record { addr = v4 167904004; bits = 16 })
    else if str_eq s "::/0"
    then ok (record { addr = v6 0; bits = 0 })
    else err (plain "no prefix")

abbrev pub syn : Syntax
syn = record {
  parse_prefix = parse_prefix;
  parse_addr = λ s. ok (record { addr = v4 173015041; zone = "" });
}

abbrev cfg : TunnelConfig
cfg = record {
  private_key = 7 ∷ [];
  server_public_key = 8 ∷ [];
  endpoint = "vpn.example:51820";
  allowed_ips = "10.2.3.4/16" ∷ "junk" ∷ [];
  address = "10.80.0.5/32";
  dns = "10.80.0.1" ∷ [];
  mtu = pos 1280;
  keepalive = pos 25;
}

abbrev pub net16 : Prefix
net16 = record { addr = v4 167903232; bits = 16 }

abbrev pub all6 : Prefix
all6 = record { addr = v6 0; bits = 0 }

abbrev plan : NetPlan
plan = record {
  address = record { addr = v4 173015045; bits = 32 };
  routes4 = net16 ∷ [];
  routes6 = [];
  dns4 = record { addr = v4 173015041; zone = "" } ∷ [];
  dns6 = [];
  default4 = false;
  default6 = false;
  mtu = pos 1280;
}

planned : plan_network syn cfg ≡ ok plan
unfolding plan_network add_routes parse_route masked prefix_lt sort_prefixes insert add_resolvers
    is_seen
planned = refl

plan_network-Planned_example : Planned syn cfg plan
plan_network-Planned_example = plan_network-Planned syn cfg plan planned

-- An adapter that takes every call.
abbrev pub adapter : Windows.System
adapter = record {
  native = some 7;
  device_type = "*tun.NativeTun";
  add_route = λ n t r hop. λ s. prefix_eq r s || t s;
  add_result = λ n t r hop. Added.done;
  delete_route = λ n t r hop. λ s. not (prefix_eq r s) && t s;
  answer = λ n made c. none;
  interface = λ n made f. record {
    router_discovery = 1;
    dad_transmits = 1;
    managed_address = true;
    other_stateful = true;
    nl_mtu = 1500;
    automatic_metric = true;
    metric = 5;
  };
  discovery_disabled = 0;
  prefix_text = λ r. "prefix";
}

different : (r s : Prefix) → prefix_eq r s ≡ false → r ≢ s
different r s n e =
    let x : prefix_eq r s ≡ true = subst (λ q. prefix_eq r q ≡ true) e (prefix_eq_self r) in cc

adds : (t : Table) (r s : Prefix) → ((prefix_eq r s || t s) ≡ true) ↔ ((r ≡ s) ⊎ (t s ≡ true))
adds t r s = elim (Bool-cases (prefix_eq r s)) [
  | inl e ↦ rw e (λ h. inl (prefix_eq_lem r s e), λ h. refl)
  | inr n ↦ rw n (λ h. inr h, λ h. elim h [ inl e ↦ absurd (different r s n e) | inr m ↦ m ])
]

dels : (t : Table) (r s : Prefix) → ((not (prefix_eq r s) && t s) ≡ true) ↔ ((t s ≡ true) × (r ≢ s))
dels t r s = elim (Bool-cases (prefix_eq r s)) [
  | inl e ↦ rw e (λ h. cc, λ h. absurd (h.1 (prefix_eq_lem r s e)))
  | inr n ↦ rw n (λ h. (h, different r s n), λ h. h.0)
]

pub adapter-RouteCalls : RouteCalls adapter 7
adapter-RouteCalls = record { is_native = refl; add = adds; del = dels }

-- A tunnel with one route, which a push replaces by another.
abbrev pub device : Device
device = record { ipc_set = λ text. none; keys = λ ss. ss; platform = Windows.platform syn adapter }

abbrev pub tunnel : Tunnel
tunnel = record {
  cfg = record cfg { allowed_ips = "10.2.3.4/16" ∷ [] };
  table = λ r. prefix_eq net16 r;
  settings = [];
}

pub route16 : parse_route syn "10.2.3.4/16" ≡ some net16
unfolding parse_route masked
route16 = refl

pub route6 : parse_route syn "::/0" ≡ some all6
unfolding parse_route masked
route6 = refl

pub installed : Installed (Windows.platform syn adapter) (parse_route syn) tunnel
unfolding has
installed r = (
  λ h. elim h [
    | inl e ↦
        let same : net16 ≡ r = some-injective _ _ (sym route16 ∙ e.1) in
        subst (λ q. prefix_eq net16 q ≡ true) same (prefix_eq_self net16)
    | inr n ↦ absurd n
  ],
  λ h. inl (inl (refl, route16 ∙ ap some (prefix_eq_lem net16 r h))),
)

pub adapter-Careful : Careful (Windows.platform syn adapter) (parse_route syn)
adapter-Careful =
    Lawful-Careful (Windows.platform syn adapter) (parse_route syn)
      (windows-Lawful syn adapter 7 adapter-RouteCalls)

apart : Apart (parse_route syn) ("10.2.3.4/16" ∷ []) ("::/0" ∷ [])
apart a b r (inl ea) (inl eb) ra rb =
    let x = sym route16 ∙ ap (parse_route syn) (sym ea) ∙ ra in
    let y = sym route6 ∙ ap (parse_route syn) (sym eb) ∙ rb in
    let z : net16 ≡ all6 = some-injective _ _ (x ∙ sym y) in absurd (cc)
apart a b r (inl ea) (inr n) ra rb = absurd n
apart a b r (inr n) mb ra rb = absurd n

pushed : (update_routes device tunnel ("::/0" ∷ [])).error ≡ none
unfolding update_routes del_unwanted add_new has Windows.route_add Windows.route_del parse_route
    masked Windows.luid Windows.unspecified
pushed = refl

update_routes-Installed_example :
    Installed
      (Windows.platform syn adapter)
      (parse_route syn)
      (update_routes device tunnel ("::/0" ∷ [])).tunnel
    × ((update_routes device tunnel ("::/0" ∷ [])).tunnel.cfg.allowed_ips ≡ "::/0" ∷ [])
update_routes-Installed_example =
    update_routes-Installed (parse_route syn) device tunnel ("::/0" ∷ []) adapter-Careful
      (λ ss a. (λ m. m, λ m. m)) apart installed pushed

-- The adapter's deletions work, so the tunnel has the route that was pushed and no other.
pushed_only :
    (r : Prefix)
    → ((update_routes device tunnel ("::/0" ∷ [])).tunnel.table r ≡ true)
      ↔ Gives
          (parse_route syn)
          []
          (update_routes device tunnel ("::/0" ∷ [])).tunnel.cfg.allowed_ips
          r
pushed_only =
    Installed-iff (Windows.platform syn adapter) (parse_route syn)
      (update_routes device tunnel ("::/0" ∷ [])).tunnel
      (windows-Lawful syn adapter 7 adapter-RouteCalls)
      (update_routes-Installed (parse_route syn) device tunnel ("::/0" ∷ []) adapter-Careful
        (λ ss a. (λ m. m, λ m. m)) apart installed pushed).0

-- The same, on an adapter that takes no further route.
abbrev refusing : Windows.System
refusing = record adapter {
  add_route = λ n t r hop. t;
  add_result = λ n t r hop. Added.refused (plain "access denied");
}

abbrev refusing_device : Device
refusing_device = record device { platform = Windows.platform syn refusing }

configured : (Windows.configure_network syn adapter cfg).error ≡ none
unfolding plan_network add_routes parse_route masked prefix_lt sort_prefixes insert add_resolvers
    is_seen Windows.configure_network Windows.configure_family Windows.◌then_on◌ Windows.luid
configured = refl

configure_network_lem_example :
    (p : NetPlan) × (plan_network syn cfg ≡ ok p)
    × Routed p (Windows.configure_network syn adapter cfg).made
    × Resolved p (Windows.configure_network syn adapter cfg).made
configure_network_lem_example = configure_network_lem syn adapter cfg configured

-- A system on which the device will not come up.
abbrev down_system : Up.System
down_system = record {
  default_mtu = pos 1420;
  tun_name = "utun";
  create_tun = λ name mtu. ok 3;
  name_of = λ h. ok "utun3";
  ipc_set = λ h text. none;
  device_up = λ h. some (plain "no such device");
  configure_network = λ name c t. record { table = t; error = none };
  teardown_network = λ name c t. t;
}

abbrev nothing_open : Up.Open
nothing_open = record { tuns = []; devices = [] }

up-Balanced_example :
    Balanced nothing_open
      (Up.up down_system cfg nothing_open).still_open
      (Up.up down_system cfg nothing_open).result
up-Balanced_example = up-Balanced down_system cfg nothing_open
