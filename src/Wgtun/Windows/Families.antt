-- ===== src/Wgtun/Windows/Families.antt =====
-- What `configureNetwork` of pkg/wgtun/wgtun_windows.go sets for each address family.
use claimward_vpn_client.Common.{
  ℕ, ◌≡◌, refl, sym, ap, ◌∙◌, ◌↔◌, ◌⊎◌, inl, inr, is_empty, List, [], ◌∷◌, none, true, false, not,
  ◌&&◌, if◌then◌else◌, Bool-cases, Option-cases, In, arith,
}
use claimward_vpn_client.Errors.{Result, ok, err}
use claimward_vpn_client.Wire.{TunnelConfig}
use claimward_vpn_client.Wgtun.Addresses.{Addr, Prefix, Zoned, Syntax}
use claimward_vpn_client.Wgtun.Plan.{NetPlan, plan_network}
use claimward_vpn_client.Wgtun.Windows.{
  Family, Call, set_routes, set_addresses, read_interface, set_interface, set_dns, System,
  FamilyPlan, plan4, plan6, Calls, call, nothing, ◌then_on◌, settings, routes_step, address_step,
  interface_steps, configure_family, planned, configure_network, luid,
}

abbrev routes_set : FamilyPlan → List Call → List Call
routes_set f made =
    if is_empty f.routes then made else set_routes f.family f.routes f.next_hop ∷ made

abbrev address_set : NetPlan → FamilyPlan → List Call → List Call
address_set p f made = if f.has_addr then set_addresses f.family p.address ∷ made else made

abbrev interface_set : System → ℕ → NetPlan → FamilyPlan → List Call → List Call
interface_set sys n p f made =
    set_dns f.family f.dns
    ∷ set_interface f.family (settings sys p f (sys.interface n made f.family))
    ∷ read_interface f.family
    ∷ made

-- The calls for one family where none is refused.
abbrev all_set : System → ℕ → NetPlan → FamilyPlan → List Call → List Call
all_set sys n p f made =
    let m = address_set p f (routes_set f made) in
    if not f.has_addr && is_empty f.routes then m else interface_set sys n p f m

-- A step that met no error handed on to the next.
then_on_none :
    (c : Calls) (next : List Call → Calls)
    → (c then_on next).error ≡ none
    → (c.error ≡ none) × ((c then_on next) ≡ next c.made)
unfolding ◌then_on◌
then_on_none c next h = elim (Option-cases c.error) [
  | inl z ↦ (z, rw z refl)
  | inr (e, z) ↦ ground arith
]

-- Steps that met no error made all their calls.
then_on_made :
    (c : Calls) (next : List Call → Calls) (xs : List Call) (f : List Call → List Call)
    → (c.error ≡ none → c.made ≡ xs)
    → ((m : List Call) → (next m).error ≡ none → (next m).made ≡ f m)
    → (c then_on next).error ≡ none
    → (c then_on next).made ≡ f xs
then_on_made c next xs f first second h =
    let (z, e) = then_on_none c next h in
    rw e (second c.made (ap (λ (d : Calls). d.error) (sym e) ∙ h) ∙ ap f (first z))

module _ (sys : System) (n : ℕ) (p : NetPlan) (f : FamilyPlan) where
  routes_step_lem : (made : List Call) → (routes_step sys n f made).made ≡ routes_set f made
  routes_step_lem made = ground arith

  address_step_lem : (made : List Call) → (address_step sys n p f made).made ≡ address_set p f made
  address_step_lem made = ground arith

  interface_steps_lem :
      (made : List Call)
      → (interface_steps sys n p f made).error ≡ none
      → (interface_steps sys n p f made).made ≡ interface_set sys n p f made
  interface_steps_lem made =
      let i = settings sys p f (sys.interface n made f.family) in
      let read = call sys n "read interface" (read_interface f.family) made in
      let set = λ (m : List Call). call sys n "set metric and MTU" (set_interface f.family i) m in
      let dns = λ (m : List Call). call sys n "set DNS" (set_dns f.family f.dns) m in
      then_on_made (read then_on set) dns
        (set_interface f.family i ∷ read_interface f.family ∷ made)
        (λ m. set_dns f.family f.dns ∷ m)
        (then_on_made read set (read_interface f.family ∷ made) (λ m. set_interface f.family i ∷ m)
          (λ z. refl) (λ m z. refl))
        (λ m z. refl)

  last_step : List Call → Calls
  last_step m =
      if not f.has_addr && is_empty f.routes then nothing m else interface_steps sys n p f m

  abbrev last_set : List Call → List Call
  last_set m = if not f.has_addr && is_empty f.routes then m else interface_set sys n p f m

  last_step_lem : (m : List Call) → (last_step m).error ≡ none → (last_step m).made ≡ last_set m
  unfolding last_step
  last_step_lem m h = elim (Bool-cases (not f.has_addr && is_empty f.routes)) [
    | inl e ↦ rw e refl
    | inr e ↦ rw e (interface_steps_lem m (simp e at h))
  ]

  pub configure_family_lem :
      (made : List Call)
      → (configure_family sys n p f made).error ≡ none
      → (configure_family sys n p f made).made ≡ all_set sys n p f made
  unfolding configure_family last_step
  configure_family_lem made =
      let first = routes_step sys n f made in
      let second = λ (m : List Call). address_step sys n p f m in
      then_on_made (first then_on second) last_step (address_set p f (routes_set f made)) last_set
        (then_on_made first second (routes_set f made) (λ m. address_set p f m)
          (λ z. routes_step_lem made) (λ m z. address_step_lem m))
        last_step_lem

-- Something of the family goes through the tunnel.
abbrev pub Uses : FamilyPlan → Type 0
Uses f = (f.has_addr ≡ true) ⊎ (is_empty f.routes ≡ false)

abbrev pub DnsOf : FamilyPlan → Family → List Zoned → Type 0
DnsOf f g ds = Uses f × (g ≡ f.family) × (ds ≡ f.dns)

module _ (sys : System) (n : ℕ) (p : NetPlan) (f : FamilyPlan) (g : Family) where
  In-dns :
      (ds : List Zoned) (made : List Call)
      → In (set_dns g ds) (all_set sys n p f made) ↔ (DnsOf f g ds ⊎ In (set_dns g ds) made)
  In-dns ds made = elim (Bool-cases f.has_addr) [
    | inl a ↦ elim (Bool-cases (is_empty f.routes)) [
      | inl r ↦ rw (a, r) (ground arith)
      | inr r ↦ rw (a, r) (ground arith)
    ]
    | inr a ↦ elim (Bool-cases (is_empty f.routes)) [
      | inl r ↦ rw (a, r) (ground arith)
      | inr r ↦ rw (a, r) (ground arith)
    ]
  ]

  In-routes :
      (rs : List Prefix) (hop : Addr) (made : List Call)
      → In (set_routes g rs hop) (all_set sys n p f made) ↔ (
          ((is_empty f.routes ≡ false) × (g ≡ f.family) × (rs ≡ f.routes) × (hop ≡ f.next_hop))
          ⊎ In (set_routes g rs hop) made)
  In-routes rs hop made = elim (Bool-cases f.has_addr) [
    | inl a ↦ elim (Bool-cases (is_empty f.routes)) [
      | inl r ↦ rw (a, r) (ground arith)
      | inr r ↦ rw (a, r) (ground arith)
    ]
    | inr a ↦ elim (Bool-cases (is_empty f.routes)) [
      | inl r ↦ rw (a, r) (ground arith)
      | inr r ↦ rw (a, r) (ground arith)
    ]
  ]

-- Both families in turn.
both_set :
    (sys : System) (n : ℕ) (p : NetPlan)
    → (planned sys (ok p) (ok n)).error ≡ none
    → (planned sys (ok p) (ok n)).made ≡ all_set sys n p (plan6 p) (all_set sys n p (plan4 p) [])
both_set sys n p =
    then_on_made (configure_family sys n p (plan4 p) []) (λ m. configure_family sys n p (plan6 p) m)
      (all_set sys n p (plan4 p) []) (λ m. all_set sys n p (plan6 p) m)
      (configure_family_lem sys n p (plan4 p) []) (configure_family_lem sys n p (plan6 p))

abbrev pub Resolved : NetPlan → List Call → Type 0
Resolved p made =
    (g : Family) (ds : List Zoned)
    → In (set_dns g ds) made ↔ (DnsOf (plan6 p) g ds ⊎ DnsOf (plan4 p) g ds)

abbrev pub RoutesOf : FamilyPlan → Family → List Prefix → Addr → Type 0
RoutesOf f g rs hop =
    (is_empty f.routes ≡ false) × (g ≡ f.family) × (rs ≡ f.routes) × (hop ≡ f.next_hop)

abbrev pub Routed : NetPlan → List Call → Type 0
Routed p made =
    (g : Family) (rs : List Prefix) (hop : Addr)
    → In (set_routes g rs hop) made ↔ (RoutesOf (plan6 p) g rs hop ⊎ RoutesOf (plan4 p) g rs hop)

-- A configuration of the adapter that reports no error is that of the plan of `planNetwork`: the
-- routes of a family are set exactly where the plan has some, to just these and on-link, and its
-- resolvers exactly where the family has the address or a route, to just these. So the resolvers of
-- a family that has neither are never set.
pub configure_network_lem :
    (syn : Syntax) (sys : System) (cfg : TunnelConfig)
    → (configure_network syn sys cfg).error ≡ none
    → (p : NetPlan) × (plan_network syn cfg ≡ ok p)
      × Routed p (configure_network syn sys cfg).made
      × Resolved p (configure_network syn sys cfg).made
unfolding configure_network
configure_network_lem syn sys cfg = at (plan_network syn cfg) (luid sys)
  where
    at :
        (r : Result NetPlan) (n : Result ℕ)
        → (planned sys r n).error ≡ none
        → (p : NetPlan) × (r ≡ ok p)
          × Routed p (planned sys r n).made
          × Resolved p (planned sys r n).made
    at (err e) n h = cc
    at (ok p) (err e) h = cc
    at (ok p) (ok n) h =
        let e = both_set sys n p h in
        let four = all_set sys n p (plan4 p) [] in
        (
          p,
          refl,
          λ g rs hop. rw e (
              let x = In-routes sys n p (plan6 p) g rs hop four in
              let y = In-routes sys n p (plan4 p) g rs hop [] in ground (arith, x, y)),
          λ g ds. rw e (
              let x = In-dns sys n p (plan6 p) g ds four in
              let y = In-dns sys n p (plan4 p) g ds [] in ground (arith, x, y)),
        )
