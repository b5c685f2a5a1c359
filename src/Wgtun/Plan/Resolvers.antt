-- ===== src/Wgtun/Plan/Resolvers.antt =====
-- The loop over the resolvers in `planNetwork` of pkg/wgtun/netplan.go, and `planNetwork` itself.
use claimward_vpn_client.Common.{
  ◌≡◌, refl, sym, ap, ◌∙◌, ◌↔◌, ◌⊎◌, inl, inr, String, List, [], ◌∷◌, ◌++◌, Bool, true, false,
  if◌then◌else◌, All, In,
}
use claimward_vpn_client.Errors.{Result, ok, err, Result-cases}
use claimward_vpn_client.Wire.{TunnelConfig}
use claimward_vpn_client.Wgtun.Addresses.{Prefix, Zoned, Syntax, is4, unmap_zoned}
use claimward_vpn_client.Wgtun.Plan.{
  NetPlan, Routing, no_routes, add_routes, resolver_added, add_resolvers, routing_plan,
  plan_network,
}
use claimward_vpn_client.Wgtun.Plan.Sorting.{Ascending, In-sort, sort-Ascending}
use claimward_vpn_client.Wgtun.Plan.Routed.{From, Default, Default-iff, Kept, add_routes_lem}

abbrev pub Parses : {A : Type 0} → Result A → Type 0
Parses (ok a) = Unit
Parses (err e) = ⊥

abbrev of_family : Bool → Bool → Zoned → List Zoned
of_family true true a = a ∷ []
of_family true false a = []
of_family false true a = []
of_family false false a = a ∷ []

abbrev resolver : Bool → Result Zoned → List Zoned
resolver b (err e) = []
resolver b (ok a) = of_family b (is4 (unmap_zoned a).addr) (unmap_zoned a)

-- The resolvers of one family in the order of the list.
abbrev pub resolvers : Syntax → Bool → List String → List Zoned
resolvers syn b [] = []
resolvers syn b (s ∷ ss) = resolver b (syn.parse_addr s) ++ resolvers syn b ss

-- Some entry of the list gives a default route of the family.
abbrev pub DefaultFrom : Syntax → List String → Bool → Type 0
DefaultFrom syn ss b = (r : Prefix) × From syn ss r × (is4 r.addr ≡ b) × (r.bits ≡ 0)

-- What a plan owes the configuration that it is for.
pub record Planned (syn : Syntax) (cfg : TunnelConfig) (p : NetPlan) : Type 0 where
  pub address_lem : syn.parse_prefix cfg.address ≡ ok p.address
  pub mtu_lem : p.mtu ≡ cfg.mtu
  pub routes4_iff :
      (r : Prefix) → In r p.routes4 ↔ (From syn cfg.allowed_ips r × (is4 r.addr ≡ true))
  pub routes6_iff :
      (r : Prefix) → In r p.routes6 ↔ (From syn cfg.allowed_ips r × (is4 r.addr ≡ false))
  pub routes4_ascending : Ascending p.routes4
  pub routes6_ascending : Ascending p.routes6
  pub default4_iff : (p.default4 ≡ true) ↔ DefaultFrom syn cfg.allowed_ips true
  pub default6_iff : (p.default6 ≡ true) ↔ DefaultFrom syn cfg.allowed_ips false
  pub dns4_lem : p.dns4 ≡ resolvers syn true cfg.dns
  pub dns6_lem : p.dns6 ≡ resolvers syn false cfg.dns

append_nil : (xs : List Zoned) → xs ++ [] ≡ xs
append_nil [] = refl
append_nil (x ∷ xs) = ap (λ t. x ∷ t) (append_nil xs)

append_assoc : (xs ys zs : List Zoned) → (xs ++ ys) ++ zs ≡ xs ++ (ys ++ zs)
append_assoc [] ys zs = refl
append_assoc (x ∷ xs) ys zs = ap (λ t. x ∷ t) (append_assoc xs ys zs)

-- The plan with resolvers added.
abbrev more : NetPlan → List Zoned → List Zoned → NetPlan
more p four six = record p { dns4 = p.dns4 ++ four; dns6 = p.dns6 ++ six }

more_resolver :
    (p : NetPlan) (i : Bool) (a : Zoned) (four six : List Zoned)
    → more
        (if i then record p { dns4 = p.dns4 ++ a ∷ [] } else record p { dns6 = p.dns6 ++ a ∷ [] })
        four
        six
      ≡ more p (of_family true i a ++ four) (of_family false i a ++ six)
more_resolver p true a four six = simp append_assoc refl
more_resolver p false a four six = simp append_assoc refl

add_resolvers_lem :
    (syn : Syntax) (p : NetPlan) (ss : List String) (p' : NetPlan)
    → add_resolvers syn p ss ≡ ok p'
    → p' ≡ more p (resolvers syn true ss) (resolvers syn false ss)
unfolding add_resolvers
add_resolvers_lem syn p [] p' h = let e : p ≡ p' = cc in sym e ∙ simp append_nil refl
add_resolvers_lem syn p (s ∷ ss) p' h = elim (Result-cases (syn.parse_addr s)) [
  | inr (e, f) ↦ let h' = simp f at h in cc
  | inl (a, f) ↦
      let h' : add_resolvers syn (resolver_added p (unmap_zoned a)) ss ≡ ok p' = simp f at h in
      let ih = add_resolvers_lem syn (resolver_added p (unmap_zoned a)) ss p' h' in
      rw f (
        ih
        ∙ more_resolver p (is4 (unmap_zoned a).addr) (unmap_zoned a) (resolvers syn true ss)
            (resolvers syn false ss))
]

add_resolvers-Parses :
    (syn : Syntax) (p : NetPlan) (ss : List String)
    → Parses (add_resolvers syn p ss) ↔ All (λ s. Parses (syn.parse_addr s)) ss
unfolding add_resolvers
add_resolvers-Parses syn p [] = (λ h. tt, λ h. tt)
add_resolvers-Parses syn p (s ∷ ss) = elim (Result-cases (syn.parse_addr s)) [
  | inr (e, f) ↦ rw f (λ h. absurd h, λ h. h.0)
  | inl (a, f) ↦
      let ih = add_resolvers-Parses syn (resolver_added p (unmap_zoned a)) ss in
      rw f (λ h. (tt, ih.0 h), λ h. ih.1 h.1)
]

no_routes-Kept : Kept no_routes
no_routes-Kept = record {
  seen_split = λ r. (λ h. inl h, λ h. elim h [ inl m ↦ m | inr m ↦ m ]);
  four_is4 = λ r m. absurd m;
  six_is4 = λ r m. absurd m;
  four_distinct = tt;
  six_distinct = tt;
  default4_iff = (λ h. cc, λ h. absurd h);
  default6_iff = (λ h. cc, λ h. absurd h);
}

iff_trans : {A B C : Type 0} → A ↔ B → B ↔ C → A ↔ C
iff_trans f g = (λ a. g.0 (f.0 a), λ c. f.1 (g.1 c))

module _ (syn : Syntax) (cfg : TunnelConfig) where
  routing : Routing
  routing = add_routes syn no_routes cfg.allowed_ips

  routing-Kept : Kept routing
  unfolding routing
  routing-Kept = (add_routes_lem syn no_routes cfg.allowed_ips no_routes-Kept).0

  routing-From : (r : Prefix) → (In r routing.four ⊎ In r routing.six) ↔ From syn cfg.allowed_ips r
  unfolding routing
  routing-From r =
      let k = add_routes_lem syn no_routes cfg.allowed_ips no_routes-Kept in
      let s = k.0.seen_split r in
      let f = k.1 r in
      (λ h. elim (f.0 (s.1 h)) [ inl n ↦ absurd n | inr m ↦ m ], λ m. s.0 (f.1 (inr m)))

  four_iff : (r : Prefix) → In r routing.four ↔ (From syn cfg.allowed_ips r × (is4 r.addr ≡ true))
  four_iff r = (
    λ m. ((routing-From r).0 (inl m), routing-Kept.four_is4 r m),
    λ h. elim ((routing-From r).1 h.0) [
      | inl m ↦ m
      | inr m ↦ let e = routing-Kept.six_is4 r m in let i = h.1 in cc
    ],
  )

  six_iff : (r : Prefix) → In r routing.six ↔ (From syn cfg.allowed_ips r × (is4 r.addr ≡ false))
  six_iff r = (
    λ m. ((routing-From r).0 (inr m), routing-Kept.six_is4 r m),
    λ h. elim ((routing-From r).1 h.0) [
      | inr m ↦ m
      | inl m ↦ let e = routing-Kept.four_is4 r m in let i = h.1 in cc
    ],
  )

  Default-From :
      (b : Bool) (rs : List Prefix)
      → ((r : Prefix) → In r rs ↔ (From syn cfg.allowed_ips r × (is4 r.addr ≡ b)))
      → Default rs ↔ DefaultFrom syn cfg.allowed_ips b
  Default-From b rs f = (
    λ d. let (r, m, z) = (Default-iff rs).0 d in (r, ((f r).0 m).0, ((f r).0 m).1, z),
    λ d. (Default-iff rs).1 (d.0, (f d.0).1 (d.1, d.2), d.3),
  )

  Planned_lem :
      (p : NetPlan) (a : Prefix)
      → syn.parse_prefix cfg.address ≡ ok a
      → p
        ≡ more
            (routing_plan cfg a routing)
            (resolvers syn true cfg.dns)
            (resolvers syn false cfg.dns)
      → Planned syn cfg p
  Planned_lem p a f e = record {
    address_lem = f ∙ ap (λ (q : NetPlan). ok q.address) (sym e);
    mtu_lem = ap (λ (q : NetPlan). q.mtu) e;
    routes4_iff = λ r. rw e (iff_trans (In-sort r routing.four) (four_iff r));
    routes6_iff = λ r. rw e (iff_trans (In-sort r routing.six) (six_iff r));
    routes4_ascending = rw e (sort-Ascending routing.four routing-Kept.four_distinct);
    routes6_ascending = rw e (sort-Ascending routing.six routing-Kept.six_distinct);
    default4_iff =
        rw e (iff_trans routing-Kept.default4_iff (Default-From true routing.four four_iff));
    default6_iff =
        rw e (iff_trans routing-Kept.default6_iff (Default-From false routing.six six_iff));
    dns4_lem = ap (λ (q : NetPlan). q.dns4) e;
    dns6_lem = ap (λ (q : NetPlan). q.dns6) e;
  }

-- A plan that `planNetwork` makes has the parsed address and the MTU of the configuration. For each
-- family, its routes are exactly those that an entry of the allowed addresses gives once unmapped and
-- masked, in strictly ascending order, so each once; the default flag is set exactly when one of
-- these has no bits; and its resolvers are those of the family in the order of the configuration.
pub plan_network-Planned :
    (syn : Syntax) (cfg : TunnelConfig) (p : NetPlan)
    → plan_network syn cfg ≡ ok p
    → Planned syn cfg p
unfolding plan_network routing
plan_network-Planned syn cfg p h = elim (Result-cases (syn.parse_prefix cfg.address)) [
  | inr (e, f) ↦ let h' = simp f at h in cc
  | inl (a, f) ↦
      let plan = routing_plan cfg a (routing syn cfg) in
      let h' : add_resolvers syn plan cfg.dns ≡ ok p = simp f at h in
      let e = add_resolvers_lem syn plan cfg.dns p h' in Planned_lem syn cfg p a f e
]

-- `planNetwork` makes a plan exactly when the address and every resolver parse; no entry of the
-- allowed addresses can make it fail.
pub plan_network-Parses :
    (syn : Syntax) (cfg : TunnelConfig)
    → Parses (plan_network syn cfg)
      ↔ (Parses (syn.parse_prefix cfg.address) × All (λ s. Parses (syn.parse_addr s)) cfg.dns)
unfolding plan_network
plan_network-Parses syn cfg = elim (Result-cases (syn.parse_prefix cfg.address)) [
  | inr (e, f) ↦ rw f (λ h. absurd h, λ h. h.0)
  | inl (a, f) ↦
      let r =
        add_resolvers-Parses syn (routing_plan cfg a (add_routes syn no_routes cfg.allowed_ips))
          cfg.dns in
      rw f (λ h. (tt, r.0 h), λ h. r.1 h.1)
]
