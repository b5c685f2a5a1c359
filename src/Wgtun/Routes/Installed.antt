-- ===== src/Wgtun/Routes/Installed.antt =====
-- The routes of the interface against the configuration's entries, for `UpdateRoutes` of
-- pkg/wgtun/wgtun.go, whose deletions may fail: it discards their errors.
use claimward_vpn_client.Common.{
  ◌≡◌, sym, ◌∙◌, ◌⊎◌, inl, inr, String, List, [], ◌∷◌, Option, none, some, true, false, Bool-cases,
  ◌↔◌, In, subst, refl, Option-cases,
}
use claimward_vpn_client.Wgtun.Addresses.{Prefix}
use claimward_vpn_client.Wgtun.Routes.{
  Table, Changed, Platform, Tunnel, Device, has, del_unwanted, add_new, update_text, update_routes,
  routes_added,
}
use claimward_vpn_client.Wgtun.Routes.Entries.{has_iff, Gives, Gives-iff, Careful, Lawful, Sticks}
use claimward_vpn_client.Wgtun.Routes.Update.{Keys, Gives-keys, add_new_lem}

-- The interface has each route of the configuration's entries, and any other only where some deletion
-- of it fails.
abbrev pub Installed : Platform → (String → Option Prefix) → Tunnel → Type 0
Installed pf dst t =
    (r : Prefix)
    → (Gives dst [] t.cfg.allowed_ips r → t.table r ≡ true)
      × (t.table r ≡ true → Gives dst [] t.cfg.allowed_ips r ⊎ Sticks pf dst r)

-- Where the deletions work, it has exactly the routes of the configuration's entries.
pub Installed-iff :
    (pf : Platform) (dst : String → Option Prefix) (t : Tunnel)
    → Lawful pf dst
    → Installed pf dst t
    → (r : Prefix) → (t.table r ≡ true) ↔ Gives dst [] t.cfg.allowed_ips r
Installed-iff pf dst t law i r = (
  λ h. elim ((i r).1 h) [
    | inl g ↦ g
    | inr s ↦ let (a, u, e, k) = s in absurd (((law.del_lem u a r).0 k).1 e)
  ],
  (i r).0,
)

-- No entry of one list gives the route of another entry of the second.
abbrev pub Apart : (String → Option Prefix) → List String → List String → Type 0
Apart dst old ips =
    (a b : String) (r : Prefix) → In a old → In b ips → dst a ≡ some r → dst b ≡ some r → a ≡ b

-- What the loop over the old entries leaves.
module _ (pf : Platform) (dst : String → Option Prefix) (law : Careful pf dst) (want : List String)
    (r : Prefix) where
  cleared_within : (t : Table) (ss : List String) → del_unwanted pf want t ss r ≡ true → t r ≡ true
  unfolding del_unwanted
  cleared_within t [] h = h
  cleared_within t (a ∷ rest) h = elim (Bool-cases (has want a)) [
    | inl w ↦ let h' = rw w at h in cleared_within t rest h'
    | inr n ↦ let h' = rw n at h in law.del_within t a r (cleared_within (pf.route_del t a) rest h')
  ]

  cleared_kept :
      (t : Table) (ss : List String)
      → t r ≡ true
      → ¬ (Gives dst want ss r)
      → del_unwanted pf want t ss r ≡ true
  unfolding del_unwanted
  cleared_kept t [] h n = h
  cleared_kept t (a ∷ rest) h n = elim (Bool-cases (has want a)) [
    | inl w ↦ rw w (cleared_kept t rest h (λ g. n (inr g)))
    | inr o ↦
        let same = law.del_others t a r (λ e. n (inl (o, e))) in
        rw o (cleared_kept (pf.route_del t a) rest (same ∙ h) (λ g. n (inr g)))
  ]

  cleared-Sticks :
      (t : Table) (ss : List String)
      → del_unwanted pf want t ss r ≡ true
      → Gives dst want ss r
      → Sticks pf dst r
  unfolding del_unwanted
  cleared-Sticks t [] h g = absurd g
  cleared-Sticks t (a ∷ rest) h g = elim (Bool-cases (has want a)) [
    | inl w ↦ elim g [
      | inl e ↦ let clash : true ≡ false = sym w ∙ e.0 in absurd (cc)
      | inr k ↦ let h' = rw w at h in cleared-Sticks t rest h' k
    ]
    | inr o ↦
        let h' = rw o at h in
        elim g [
          | inl e ↦ (a, t, e.1, cleared_within (pf.route_del t a) rest h')
          | inr k ↦ cleared-Sticks (pf.route_del t a) rest h' k
        ]
  ]

module _ (dst : String → Option Prefix) (old ips : List String) (r : Prefix) where
  not_skipped : (a : String) → has [] a ≡ false
  unfolding has
  not_skipped a = refl

  -- A route of an old entry is one of a new entry, or of a dropped one.
  old_split : Gives dst [] old r → Gives dst [] ips r ⊎ Gives dst ips old r
  old_split g =
      let (a, m, n, e) = (Gives-iff dst [] old r).0 g in
      elim (Bool-cases (has ips a)) [
        | inl i ↦ inl ((Gives-iff dst [] ips r).1 (a, (has_iff ips a).0 i, n, e))
        | inr o ↦ inr ((Gives-iff dst ips old r).1 (a, m, o, e))
      ]

  wanted_new : Gives dst old ips r → Gives dst [] ips r
  wanted_new g =
      let (a, m, n, e) = (Gives-iff dst old ips r).0 g in
      (Gives-iff dst [] ips r).1 (a, m, not_skipped a, e)

  wanted_split :
      Apart dst old ips
      → Gives dst [] ips r
      → Gives dst old ips r ⊎ (Gives dst [] old r × (¬ (Gives dst ips old r)))
  wanted_split apart g =
      let (a, m, n, e) = (Gives-iff dst [] ips r).0 g in
      elim (Bool-cases (has old a)) [
        | inr o ↦ inl ((Gives-iff dst old ips r).1 (a, m, o, e))
        | inl o ↦ inr (
          (Gives-iff dst [] old r).1 (a, (has_iff old a).0 o, n, e),
          λ h.
              let (b, mb, nb, eb) = (Gives-iff dst ips old r).0 h in
              let same = apart b a r mb m eb e in
              let i = (has_iff ips b).1 (subst (λ c. In c ips) (sym same) m) in
              let clash : true ≡ false = sym i ∙ nb in cc,
        )
      ]

module _ (dst : String → Option Prefix) (d : Device) (t : Tunnel) (ips : List String)
    (law : Careful d.platform dst) (keys : Keys d) (apart : Apart dst t.cfg.allowed_ips ips)
    (i : Installed d.platform dst t) where
  cleared : Table
  cleared = del_unwanted d.platform ips t.table (d.keys t.cfg.allowed_ips)

  added : Changed
  unfolding cleared
  added = add_new d.platform t.cfg.allowed_ips cleared ips

  added-route :
      added.error ≡ none
      → (r : Prefix)
      → (Gives dst [] ips r → added.table r ≡ true)
        × (added.table r ≡ true → Gives dst [] ips r ⊎ Sticks d.platform dst r)
  unfolding cleared added
  added-route e r =
      let old = t.cfg.allowed_ips in
      let f = add_new_lem d.platform dst law.adds_lem old cleared ips e r in
      let k = Gives-keys dst d keys ips old r in
      (
        λ g. f.1 (elim (wanted_split dst old ips r apart g) [
          | inl n ↦ inl n
          | inr o ↦ inr (
              cleared_kept d.platform dst law ips r t.table (d.keys old) ((i r).0 o.0)
                (λ h. o.1 (k.0 h)))
        ]),
        λ h. elim (f.0 h) [
          | inl n ↦ inl (wanted_new dst old ips r n)
          | inr c ↦
              elim ((i r).1 (cleared_within d.platform dst law ips r t.table (d.keys old) c)) [
                | inr s ↦ inr s
                | inl o ↦ elim (old_split dst old ips r o) [
                  | inl w ↦ inl w
                  | inr lost ↦
                      inr
                        (cleared-Sticks d.platform dst law ips r t.table (d.keys old) c (k.1 lost))
                ]
              ]
        ],
      )

  routes_added-Installed :
      (ss : List String) (c : Changed)
      → c.error ≡ none
      → ((r : Prefix)
          → (Gives dst [] ips r → c.table r ≡ true)
            × (c.table r ≡ true → Gives dst [] ips r ⊎ Sticks d.platform dst r))
      → let u = (routes_added (record t { settings = ss }) ips c).tunnel in
        Installed d.platform dst u × (u.cfg.allowed_ips ≡ ips)
  routes_added-Installed ss c e f = rw e (f, refl)

  -- On a platform that adds routes as it owes and whose deletions add none and leave those that
  -- their entries do not name, where no two different entries of the old and the new list give one
  -- route: if the interface has each route of the old entries, and any other only where some
  -- deletion of it fails, then an update that reports no error leaves it with each route of the new
  -- entries, and any other only where some deletion of it fails; and the new entries are then the
  -- configuration's.
  pub update_routes-Installed :
      (update_routes d t ips).error ≡ none
      → Installed d.platform dst (update_routes d t ips).tunnel
        × ((update_routes d t ips).tunnel.cfg.allowed_ips ≡ ips)
  unfolding update_routes cleared added
  update_routes-Installed h = elim (Option-cases (d.ipc_set (update_text t.cfg ips))) [
    | inr (e, f) ↦ let h' = simp f at h in cc
    | inl f ↦
        let e : added.error ≡ none = simp f at h in
        rw f (routes_added-Installed (update_text t.cfg ips ∷ t.settings) added e (added-route e))
  ]
