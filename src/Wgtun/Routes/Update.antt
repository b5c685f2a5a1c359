-- ===== src/Wgtun/Routes/Update.antt =====
-- What the two loops of `UpdateRoutes` of pkg/wgtun/wgtun.go leave: the one that deletes the routes of the
-- dropped entries, where its deletions work, and the one that adds those of the new ones.
use claimward_vpn_client.Common.{
  ◌≡◌, sym, ap, ◌∙◌, ◌↔◌, ◌⊎◌, inl, inr, String, List, [], ◌∷◌, Option, none, some, true,
  Bool-cases, Option-cases, In, arith,
}
use claimward_vpn_client.Wgtun.Addresses.{Prefix}
use claimward_vpn_client.Wgtun.Routes.{Table, Changed, Platform, Device, has, del_unwanted, add_new}
use claimward_vpn_client.Wgtun.Routes.Entries.{
  Gives, Gives-iff, Added, Lawful, add_new-old, add_new-new, add_new-failed,
}

module _ (pf : Platform) (dst : String → Option Prefix) (law : Lawful pf dst) where
  pub del_unwanted_lem :
      (want : List String) (t : Table) (ss : List String) (r : Prefix)
      → (del_unwanted pf want t ss r ≡ true) ↔ ((t r ≡ true) × (¬ (Gives dst want ss r)))
  unfolding del_unwanted
  del_unwanted_lem want t [] r = (λ h. (h, λ g. g), λ h. h.0)
  del_unwanted_lem want t (a ∷ rest) r = elim (Bool-cases (has want a)) [
    | inl w ↦ let ih = del_unwanted_lem want t rest r in rw w (ground (arith, ih))
    | inr n ↦
        let ih = del_unwanted_lem want (pf.route_del t a) rest r in
        let d = law.del_lem t a r in rw n (ground (arith, ih, d))
  ]

module _ (pf : Platform) (dst : String → Option Prefix)
    (adds : (t : Table) (a : String) → Added dst t a (pf.route_add t a)) where
  pub add_new_lem :
      (old : List String) (t : Table) (ss : List String)
      → (add_new pf old t ss).error ≡ none
      → (r : Prefix) → ((add_new pf old t ss).table r ≡ true) ↔ (Gives dst old ss r ⊎ (t r ≡ true))
  add_new_lem old t [] e r =
      unfold add_new in (λ h. inr h, λ h. elim h [ inl n ↦ absurd n | inr m ↦ m ])
  add_new_lem old t (a ∷ rest) e r = elim (Bool-cases (has old a)) [
    | inl o ↦
        let s = add_new-old pf old t a rest o in
        let ih = add_new_lem old t rest (ap (λ (c : Changed). c.error) (sym s) ∙ e) r in
        rw s (ground (arith, o, ih))
    | inr n ↦ elim (Option-cases (pf.route_add t a).error) [
      | inl z ↦
          let s = add_new-new pf old t a rest n z in
          let u = (pf.route_add t a).table in
          let ih = add_new_lem old u rest (ap (λ (c : Changed). c.error) (sym s) ∙ e) r in
          rw s (ground (arith, n, ih, adds t a z r))
      | inr (x, z) ↦
          let f = ap (λ (c : Changed). c.error) (sym (add_new-failed pf old t a rest x n z)) ∙ e in
          let g : some x ≡ none = sym z ∙ f in cc
    ]
  ]

-- The order of a map's keys: each key is there.
abbrev pub Keys : Device → Type 0
Keys d = (ss : List String) (a : String) → In a (d.keys ss) ↔ In a ss

module _ (dst : String → Option Prefix) (d : Device) (keys : Keys d) where
  pub Gives-keys :
      (skipped ss : List String) (r : Prefix)
      → Gives dst skipped (d.keys ss) r ↔ Gives dst skipped ss r
  Gives-keys skipped ss r = (
    λ g.
        let (a, m, n, e) = (Gives-iff dst skipped (d.keys ss) r).0 g in
        (Gives-iff dst skipped ss r).1 (a, (keys ss a).0 m, n, e),
    λ g.
        let (a, m, n, e) = (Gives-iff dst skipped ss r).0 g in
        (Gives-iff dst skipped (d.keys ss) r).1 (a, (keys ss a).1 m, n, e),
  )
