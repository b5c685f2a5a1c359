-- ===== src/Wgtun/Plan/Sorting.antt =====
-- The routes of pkg/wgtun/netplan.go in order, each once.
use claimward_vpn_client.Common.{
  ◌≡◌, sym, ◌↔◌, ◌⊎◌, inl, inr, List, [], ◌∷◌, ◌++◌, true, Bool-cases, All, In, In-append, arith,
}
use claimward_vpn_client.Wgtun.Addresses.{Prefix, prefix_lt, prefix_lt_total, prefix_lt_trans}
use claimward_vpn_client.Wgtun.Plan.{insert, sort_prefixes}

abbrev pub Ascending : List Prefix → Type 0
Ascending [] = Unit {0}
Ascending (r ∷ rs) = All (λ s. prefix_lt r s ≡ true) rs × Ascending rs

abbrev pub Distinct : List Prefix → Type 0
Distinct [] = Unit {0}
Distinct (r ∷ rs) = (¬ (In r rs)) × Distinct rs

pub In-insert : (a r : Prefix) (qs : List Prefix) → In a (insert r qs) ↔ ((a ≡ r) ⊎ In a qs)
unfolding insert
In-insert a r [] = (λ h. h, λ h. h)
In-insert a r (q ∷ qs) = ground (arith, In-insert a r qs)

pub In-sort : (a : Prefix) (rs : List Prefix) → In a (sort_prefixes rs) ↔ In a rs
unfolding sort_prefixes
In-sort a [] = (λ h. h, λ h. h)
In-sort a (r ∷ rs) = ground (arith, In-insert a r (sort_prefixes rs), In-sort a rs)

All-insert :
    (p r : Prefix) (qs : List Prefix)
    → prefix_lt p r ≡ true
    → All (λ s. prefix_lt p s ≡ true) qs
    → All (λ s. prefix_lt p s ≡ true) (insert r qs)
unfolding insert
All-insert p r [] h k = (h, tt)
All-insert p r (q ∷ qs) h k = ground (arith, All-insert p r qs h k.1)

All-trans :
    (p r : Prefix) (qs : List Prefix)
    → prefix_lt p r ≡ true
    → All (λ s. prefix_lt r s ≡ true) qs
    → All (λ s. prefix_lt p s ≡ true) qs
All-trans p r [] h k = tt
All-trans p r (q ∷ qs) h k = (prefix_lt_trans p r q h k.0, All-trans p r qs h k.1)

insert-Ascending :
    (r : Prefix) (qs : List Prefix) → ¬ (In r qs) → Ascending qs → Ascending (insert r qs)
unfolding insert
insert-Ascending r [] ne a = (tt, tt)
insert-Ascending r (q ∷ qs) ne a = elim (Bool-cases (prefix_lt q r)) [
  | inl l ↦ rw l (All-insert q r qs l a.0, insert-Ascending r qs (λ m. ne (inr m)) a.1)
  | inr g ↦ elim (prefix_lt_total r q g) [
    | inl e ↦ absurd (ne (inl e))
    | inr l ↦ rw g ((l, All-trans r q qs l a.0), a)
  ]
]

pub sort-Ascending : (rs : List Prefix) → Distinct rs → Ascending (sort_prefixes rs)
unfolding sort_prefixes
sort-Ascending [] d = tt
sort-Ascending (r ∷ rs) d =
    insert-Ascending r (sort_prefixes rs) (λ m. d.0 ((In-sort r rs).0 m)) (sort-Ascending rs d.1)

pub Distinct-append :
    (rs : List Prefix) (r : Prefix) → Distinct rs → ¬ (In r rs) → Distinct (rs ++ r ∷ [])
Distinct-append [] r d ne = (λ m. m, tt)
Distinct-append (q ∷ rs) r d ne = (
  λ m. elim ((In-append q rs (r ∷ [])).0 m) [
    | inl old ↦ d.0 old
    | inr (inl e) ↦ ne (inl (sym e))
    | inr (inr n) ↦ n
  ],
  Distinct-append rs r d.1 (λ m. ne (inr m)),
)
