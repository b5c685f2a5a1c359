-- ===== src/Wgtun/Plan/Routed.antt =====
-- The loop over the routes in `planNetwork` of pkg/wgtun/netplan.go: which routes it keeps.
use claimward_vpn_client.Common.{
  ◌≡◌, refl, sym, ap, subst, ◌∙◌, ◌↔◌, ◌⊎◌, inl, inr, String, List, [], ◌∷◌, ◌++◌, Option, none,
  some, Bool, true, false, ◌||◌, ◌==◌, Bool-cases, In, In-append, arith,
}
use claimward_vpn_client.Wgtun.Addresses.{
  Prefix, Syntax, is4, prefix_eq, prefix_eq_lem, prefix_eq_self,
}
use claimward_vpn_client.Wgtun.Plan.{Routing, parse_route, is_seen, appended, routed, add_routes}
use claimward_vpn_client.Wgtun.Plan.Sorting.{Distinct, Distinct-append}

-- A route that an entry of the list gives.
abbrev pub From : Syntax → List String → Prefix → Type 0
From syn [] r = ⊥
From syn (s ∷ ss) r = (parse_route syn s ≡ some r) ⊎ From syn ss r

-- A default route of the list.
abbrev pub Default : List Prefix → Type 0
Default [] = ⊥
Default (r ∷ rs) = (r.bits ≡ 0) ⊎ Default rs

Default-append :
    (rs : List Prefix) (r : Prefix) → Default (rs ++ r ∷ []) ↔ (Default rs ⊎ (r.bits ≡ 0))
Default-append [] r = ground arith
Default-append (q ∷ rs) r = ground (arith, Default-append rs r)

pub Default-iff : (rs : List Prefix) → Default rs ↔ ((r : Prefix) × In r rs × (r.bits ≡ 0))
Default-iff [] = (λ h. absurd h, λ h. h.1)
Default-iff (r ∷ rs) = (
  λ h. elim h [
    | inl z ↦ (r, inl refl, z)
    | inr d ↦ let (q, m, z) = (Default-iff rs).0 d in (q, inr m, z)
  ],
  λ h. elim h.1 [
    | inl e ↦ inl (sym (ap (λ (s : Prefix). s.bits) e) ∙ h.2)
    | inr m ↦ inr ((Default-iff rs).1 (h.0, m, h.2))
  ],
)

is_seen_iff : (r : Prefix) (qs : List Prefix) → (is_seen r qs ≡ true) ↔ In r qs
unfolding is_seen
is_seen_iff r [] = (λ h. cc, λ h. absurd h)
is_seen_iff r (q ∷ qs) = (
  λ h. elim (Bool-cases (prefix_eq r q)) [
    | inl e ↦ inl (prefix_eq_lem r q e)
    | inr n ↦ inr ((is_seen_iff r qs).0 (sym (rw n refl) ∙ h))
  ],
  λ h. elim h [
    | inl e ↦ let s = prefix_eq_self r in rw (sym e) (rw s refl)
    | inr m ↦ let s = (is_seen_iff r qs).1 m in rw s (ground arith)
  ],
)

-- The routes kept so far are those seen, split by family, each once.
pub record Kept (q : Routing) : Type 0 where
  pub seen_split : (r : Prefix) → In r q.seen ↔ (In r q.four ⊎ In r q.six)
  pub four_is4 : (r : Prefix) → In r q.four → is4 r.addr ≡ true
  pub six_is4 : (r : Prefix) → In r q.six → is4 r.addr ≡ false
  pub four_distinct : Distinct q.four
  pub six_distinct : Distinct q.six
  pub default4_iff : (q.default4 ≡ true) ↔ Default q.four
  pub default6_iff : (q.default6 ≡ true) ↔ Default q.six

abbrev end : List Prefix → Prefix → List Prefix
end rs r = rs ++ r ∷ []

In-end : (a : Prefix) (rs : List Prefix) (r : Prefix) → In a (end rs r) ↔ (In a rs ⊎ (a ≡ r))
In-end a rs r = (
  λ h. elim ((In-append a rs (r ∷ [])).0 h) [
    | inl m ↦ inl m
    | inr t ↦ elim t [ inl e ↦ inr e | inr n ↦ absurd n ]
  ],
  λ h. (In-append a rs (r ∷ [])).1 (elim h [ inl m ↦ inl m | inr e ↦ inr (inl e) ]),
)

end-is4 :
    (b : Bool) (rs : List Prefix) (r : Prefix)
    → ((a : Prefix) → In a rs → is4 a.addr ≡ b)
    → is4 r.addr ≡ b
    → (a : Prefix) → In a (end rs r)
    → is4 a.addr ≡ b
end-is4 b rs r old e a m = elim ((In-end a rs r).0 m) [
  | inl o ↦ old a o
  | inr s ↦ ap (λ (p : Prefix). is4 p.addr) s ∙ e
]

Default-end :
    (d : Bool) (rs : List Prefix) (r : Prefix)
    → ((d ≡ true) ↔ Default rs)
    → (((d || r.bits == 0) ≡ true) ↔ Default (end rs r))
Default-end true rs r h = (λ e. (Default-append rs r).1 (inl (h.0 refl)), λ e. refl)
Default-end false rs r h = ground (arith, Default-append rs r)

module _ (q : Routing) (r : Prefix) (k : Kept q) (new : ¬ (In r q.seen)) where
  four_appended :
      is4 r.addr ≡ true
      → Kept (record q {
        seen = r ∷ q.seen;
        four = end q.four r;
        default4 = q.default4 || r.bits == 0;
      })
  four_appended e = record {
    seen_split = λ a. ground (arith, k.seen_split a, In-end a q.four r);
    four_is4 = end-is4 true q.four r k.four_is4 e;
    six_is4 = k.six_is4;
    four_distinct =
        Distinct-append q.four r k.four_distinct (λ m. new ((k.seen_split r).1 (inl m)));
    six_distinct = k.six_distinct;
    default4_iff = Default-end q.default4 q.four r k.default4_iff;
    default6_iff = k.default6_iff;
  }

  six_appended :
      is4 r.addr ≡ false
      → Kept
          (record q { seen = r ∷ q.seen; six = end q.six r; default6 = q.default6 || r.bits == 0 })
  six_appended e = record {
    seen_split = λ a. ground (arith, k.seen_split a, In-end a q.six r);
    four_is4 = k.four_is4;
    six_is4 = end-is4 false q.six r k.six_is4 e;
    four_distinct = k.four_distinct;
    six_distinct = Distinct-append q.six r k.six_distinct (λ m. new ((k.seen_split r).1 (inr m)));
    default4_iff = k.default4_iff;
    default6_iff = Default-end q.default6 q.six r k.default6_iff;
  }

  appended-Kept : Kept (appended q r)
  appended-Kept = elim (Bool-cases (is4 r.addr)) [
    | inl e ↦ rw e (four_appended e)
    | inr e ↦ rw e (six_appended e)
  ]

appended-seen : (q : Routing) (r a : Prefix) → In a (appended q r).seen ↔ ((a ≡ r) ⊎ In a q.seen)
appended-seen q r a = elim (Bool-cases (is4 r.addr)) [
  | inl e ↦ rw e (λ h. h, λ h. h)
  | inr e ↦ rw e (λ h. h, λ h. h)
]

-- What one entry of the list does.
routed_lem :
    (q : Routing) (o : Option Prefix)
    → Kept q
    → Kept (routed q o) × ((a : Prefix) → In a (routed q o).seen ↔ (In a q.seen ⊎ (o ≡ some a)))
unfolding routed
routed_lem q none k = (k, λ a. (λ h. inl h, λ h. elim h [ inl m ↦ m | inr e ↦ cc ]))
routed_lem q (some r) k = elim (Bool-cases (is_seen r q.seen)) [
  | inl s ↦ rw s (
    k,
    λ a. (
      λ h. inl h,
      λ h. elim h [
        | inl m ↦ m
        | inr e ↦
            let m = (is_seen_iff r q.seen).0 s in
            let t : r ≡ a = cc in subst (λ (b : Prefix). In b q.seen) t m
      ],
    ),
  )
  | inr n ↦
      let new : ¬ (In r q.seen) = λ m. let s = (is_seen_iff r q.seen).1 m in cc in
      rw n (
        appended-Kept q r k new,
        λ a. (
          λ h. elim ((appended-seen q r a).0 h) [ inl e ↦ inr (rw e refl) | inr m ↦ inl m ],
          λ h. (appended-seen q r a).1 (elim h [ inl m ↦ inr m | inr e ↦ inl (cc) ]),
        ),
      )
]

pub add_routes_lem :
    (syn : Syntax) (q : Routing) (ss : List String)
    → Kept q
    → Kept (add_routes syn q ss)
      × ((a : Prefix) → In a (add_routes syn q ss).seen ↔ (In a q.seen ⊎ From syn ss a))
unfolding add_routes
add_routes_lem syn q [] k = (k, λ a. (λ h. inl h, λ h. elim h [ inl m ↦ m | inr n ↦ absurd n ]))
add_routes_lem syn q (s ∷ ss) k =
    let step = routed_lem q (parse_route syn s) k in
    let rest = add_routes_lem syn (routed q (parse_route syn s)) ss step.0 in
    (rest.0, λ a. ground (arith, step.1 a, rest.1 a))
