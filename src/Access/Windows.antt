-- ===== src/Access/Windows.antt =====
-- What `checkACL` of pkg/helper/acl.go accepts, bit by bit.
use claimward_vpn_client.Common.{
  ◌≡◌, refl, sym, ◌∙◌, ◌↔◌, ◌⊎◌, ◌==◌, String, List, [], ◌∷◌, Bool, true, false, Bool-cases, inl,
  inr, All, arith, bit_and, Disjoint, is_zero_iff, not, ◌||◌,
}
use claimward_vpn_client.Errors.{ok}
use claimward_vpn_client.Access.{
  Ace, denies, trusted, is_skipped, is_writer, writers, verdict, check_acl, write_rights,
  ace_inherit_only,
}

-- An entry that lets nobody but SYSTEM and the administrators write the object itself.
abbrev pub IsHarmless : Ace → Type 0
IsHarmless a =
    (denies a.kind ≡ true)
    ⊎ (¬ (Disjoint a.flags ace_inherit_only))
    ⊎ (trusted a.sid ≡ true)
    ⊎ Disjoint a.mask write_rights

-- The two tests of the loop, as one.
IsHarmless-iff : (a : Ace) → ((is_skipped a || not (is_writer a)) ≡ true) ↔ IsHarmless a
IsHarmless-iff a =
    let inherit = is_zero_iff a.flags ace_inherit_only in
    let writes = is_zero_iff a.mask write_rights in
    (
      λ h. elim (Bool-cases (denies a.kind)) [
        | inl d ↦ inl d
        | inr nd ↦ elim (Bool-cases (bit_and a.flags ace_inherit_only == 0)) [
          | inr i ↦ inr (inl (λ d. ground (arith, inherit.1 d)))
          | inl applies ↦ elim (Bool-cases (trusted a.sid)) [
            | inl t ↦ inr (inr (inl t))
            | inr nt ↦ elim (Bool-cases (bit_and a.mask write_rights == 0)) [
              | inl w ↦ inr (inr (inr (writes.0 w)))
              | inr nw ↦ absurd (ground arith)
            ]
          ]
        ]
      ],
      elim [
        | inl d ↦ ground arith
        | inr (inl i) ↦ elim (Bool-cases (bit_and a.flags ace_inherit_only == 0)) [
          | inl applies ↦ absurd (i (inherit.0 applies))
          | inr only ↦ ground arith
        ]
        | inr (inr (inl t)) ↦ ground arith
        | inr (inr (inr w)) ↦ ground (arith, writes.1 w)
      ],
    )

writers_iff : (dacl : List Ace) → (writers dacl ≡ []) ↔ All IsHarmless dacl
unfolding writers
writers_iff [] = (λ e. tt, λ h. refl)
writers_iff (a ∷ dacl) = elim (Bool-cases (is_skipped a || not (is_writer a))) [
  | inl passed ↦
      let same : writers (a ∷ dacl) ≡ writers dacl = ground arith in
      (
        λ e. ((IsHarmless-iff a).0 passed, (writers_iff dacl).0 (sym same ∙ e)),
        λ h. same ∙ (writers_iff dacl).1 h.1,
      )
  | inr writes ↦
      (λ e. absurd (ground arith), λ h. absurd (cc (sym ((IsHarmless-iff a).1 h.0) ∙ writes)))
]

verdict_iff : (ws : List String) → (verdict ws ≡ ok tt) ↔ (ws ≡ [])
verdict_iff [] = (λ e. refl, λ e. refl)
verdict_iff (w ∷ ws) = (λ e. absurd (cc), λ e. absurd (cc))

-- A file or a directory is accepted exactly when SYSTEM or the administrators own it, it has a DACL,
-- and each entry denies, or does not apply to the object itself, or is for one of these two, or
-- shares no bit with the rights to write.
pub check_acl_iff :
    (owner : String) (dacl : List Ace) (nil_dacl : Bool)
    → (check_acl owner dacl nil_dacl ≡ ok tt)
      ↔ ((trusted owner ≡ true) × (nil_dacl ≡ false) × All IsHarmless dacl)
unfolding check_acl
check_acl_iff owner dacl nil_dacl = elim (Bool-cases (trusted owner)) [
  | inr stranger ↦ rw stranger (λ e. absurd (cc), λ h. absurd (cc (h.0)))
  | inl t ↦ elim (Bool-cases nil_dacl) [
    | inl nil ↦ rw (t, nil) (λ e. absurd (cc), λ h. absurd (cc (h.1)))
    | inr given ↦
        rw (t, given)
          (
            λ e. (refl, refl, (writers_iff dacl).0 ((verdict_iff (writers dacl)).0 e)),
            λ h. (verdict_iff (writers dacl)).1 ((writers_iff dacl).1 h.2),
          )
  ]
]
