-- ===== src/Socket/Windows/Owners.antt =====
-- Which files and directories `checkPath` and `checkOwner` of pkg/helper/listen_windows.go accept.
use claimward_vpn_client.Common.{
  ◌≡◌, refl, sym, subst, ◌↔◌, ◌⊎◌, inl, inr, String, List, [], ◌∷◌, Option, none, some, true, false,
  ◌==◌, All, Disjoint, Bool-cases, arith,
}
use claimward_vpn_client.Errors.{Error, Result, ok, err, ◌>>=◌, ◌>>◌, Result-cases}
use claimward_vpn_client.Access.{Ace, denies, trusted, check_acl, write_rights, ace_inherit_only}
use claimward_vpn_client.Access.Windows.{IsHarmless, check_acl_iff}
use claimward_vpn_client.Socket.Windows.{
  Call, RawAce, Descriptor, Win32, ace_of, aces_of, acl_checked, owned, refuse_reparse_point,
  check_path, check_owner,
}

-- An entry as it lies in memory that lets nobody but SYSTEM and the administrators write: it denies,
-- or only speaks of what is created in a directory, or gives no right to write, or is a plain allow
-- for one of the two.
abbrev pub IsSafe : Result RawAce → Type 0
IsSafe (err e) = ⊥
IsSafe (ok a) =
    (denies a.kind ≡ true)
    ⊎ (¬ (Disjoint a.flags ace_inherit_only))
    ⊎ ((a.kind ≡ 0) × (trusted a.sid_at_start ≡ true))
    ⊎ Disjoint a.mask write_rights

-- The SID of an entry counts only where the layout is the plain one.
trusted_iff :
    (a : RawAce)
    → ((denies a.kind ≡ true) ⊎ (trusted (ace_of a).sid ≡ true))
      ↔ ((denies a.kind ≡ true) ⊎ ((a.kind ≡ 0) × (trusted a.sid_at_start ≡ true)))
unfolding denies trusted
trusted_iff a = elim (Bool-cases (a.kind == 0x0)) [
  | inl allow ↦ rw allow (
    λ h. elim h [ inl d ↦ inl d | inr t ↦ inr (ground arith, t) ],
    λ h. elim h [ inl d ↦ inl d | inr t ↦ inr t.1 ],
  )
  | inr other ↦ elim (Bool-cases (a.kind == 0x1)) [
    | inl deny ↦ (λ h. inl (ground arith), λ h. inl (ground arith))
    | inr odd ↦
        rw (other, odd)
          (
            λ h. elim h [ inl d ↦ inl d | inr t ↦ cc ],
            λ h. elim h [ inl d ↦ inl d | inr t ↦ absurd (ground arith) ],
          )
  ]
]

IsSafe-iff : (a : RawAce) → IsHarmless (ace_of a) ↔ IsSafe (ok a)
IsSafe-iff a = (
  elim [
    | inl d ↦ inl d
    | inr (inl i) ↦ inr (inl i)
    | inr (inr (inl t)) ↦ elim ((trusted_iff a).0 (inr t)) [
      | inl d ↦ inl d
      | inr s ↦ inr (inr (inl s))
    ]
    | inr (inr (inr w)) ↦ inr (inr (inr w))
  ],
  elim [
    | inl d ↦ inl d
    | inr (inl i) ↦ inr (inl i)
    | inr (inr (inl s)) ↦ elim ((trusted_iff a).1 (inr s)) [
      | inl d ↦ inl d
      | inr t ↦ inr (inr (inl t))
    ]
    | inr (inr (inr w)) ↦ inr (inr (inr w))
  ],
)

-- A DACL that is read is harmless exactly when each of its entries is safe.
aces_ok :
    (raw : List (Result RawAce)) (aces : List Ace)
    → aces_of raw ≡ ok aces
    → All IsHarmless aces ↔ All IsSafe raw
unfolding aces_of
aces_ok [] aces h = let e : [] ≡ aces = cc in rw (sym e) (λ k. tt, λ k. tt)
aces_ok (err e ∷ raw) aces h = absurd (cc)
aces_ok (ok a ∷ raw) aces h = elim (Result-cases (aces_of raw)) [
  | inr (e, f) ↦ let h' = simp f at h in absurd (cc)
  | inl (rest, f) ↦
      let h' : ok (ace_of a ∷ rest) ≡ ok aces = simp f at h in
      let e : ace_of a ∷ rest ≡ aces = cc in
      let ih = aces_ok raw rest f in
      rw (sym e) (λ k. ((IsSafe-iff a).0 k.0, ih.0 k.1), λ k. ((IsSafe-iff a).1 k.0, ih.1 k.1))
]

-- One that is not read has an entry that is not safe.
aces_err : (raw : List (Result RawAce)) (e : Error) → aces_of raw ≡ err e → ¬ (All IsSafe raw)
unfolding aces_of
aces_err [] e h k = cc
aces_err (err x ∷ raw) e h k = k.0
aces_err (ok a ∷ raw) e h k = elim (Result-cases (aces_of raw)) [
  | inr (x, f) ↦ aces_err raw x f k.1
  | inl (rest, f) ↦ let h' = simp f at h in absurd (cc)
]

-- What a descriptor must hold.
abbrev pub IsOwn : Descriptor → Type 0
IsOwn d =
    (owner : String) × (raw : List (Result RawAce)) × (d.owner ≡ ok (some owner))
    × (d.dacl ≡ ok (some raw))
    × (trusted owner ≡ true)
    × All IsSafe raw

acl_checked_iff :
    (owner : String) (raw : List (Result RawAce))
    → (acl_checked owner (some raw) ≡ ok tt) ↔ ((trusted owner ≡ true) × All IsSafe raw)
acl_checked_iff owner raw = elim (Result-cases (aces_of raw)) [
  | inr (e, f) ↦ rw f (λ h. absurd (cc), λ h. absurd (aces_err raw e f h.1))
  | inl (aces, f) ↦
      let c = check_acl_iff owner aces false in
      let a = aces_ok raw aces f in
      rw f (λ h. ((c.0 h).0, a.0 (c.0 h).2), λ h. c.1 (h.0, refl, a.1 h.1))
]

descriptor_parts :
    (o : Result (Option String)) (l : Result (Option (List (Result RawAce))))
    → ((do owner ← o; dacl ← l; owned owner dacl) ≡ ok tt) ↔ (
        (owner : String) × (raw : List (Result RawAce)) × (o ≡ ok (some owner))
        × (l ≡ ok (some raw))
        × (trusted owner ≡ true)
        × All IsSafe raw)
unfolding check_acl
descriptor_parts (err e) l = (λ h. cc, λ h. let x = h.2 in cc)
descriptor_parts (ok o) (err e) = (λ h. cc, λ h. let x = h.3 in cc)
descriptor_parts (ok none) (ok l) = (λ h. cc, λ h. let x = h.2 in cc)
descriptor_parts (ok (some owner)) (ok none) = (
  λ h. elim (Bool-cases (trusted owner)) [
    | inl t ↦ let h' = simp t at h in absurd (cc)
    | inr n ↦ let h' = simp n at h in absurd (cc)
  ],
  λ h. let x = h.3 in cc,
)
descriptor_parts (ok (some owner)) (ok (some raw)) =
    let c = acl_checked_iff owner raw in
    (
      λ h. (owner, raw, refl, refl, (c.0 h).0, (c.0 h).1),
      λ h.
          let (o, l, eo, el, t, s) = h in
          let same : owner ≡ o = cc in
          let whole : raw ≡ l = cc in
          c.1 (subst (λ x. trusted x ≡ true) (sym same) t, subst (λ x. All IsSafe x) (sym whole) s),
    )

-- `checkPath` accepts a path exactly when its descriptor can be read, SYSTEM or the administrators own
-- it, it has a DACL, and every entry of that can be read and lets nobody else write: it denies, or
-- does not apply to the object itself, or shares no bit with the rights to write, or is a plain allow
-- for one of the two. An object or callback entry that allows a right to write is never accepted,
-- whatever lies where a plain entry has its SID.
pub check_path_iff :
    (w : Win32) (made : List Call) (path : String)
    → (check_path w made path ≡ ok tt)
      ↔ ((d : Descriptor) × (w.security_of made path ≡ ok d) × IsOwn d)
unfolding check_path
check_path_iff w made path = elim (Result-cases (w.security_of made path)) [
  | inr (e, f) ↦ rw f (λ h. absurd (cc), λ h. let x = h.1 in absurd (cc))
  | inl (d, f) ↦
      let c = descriptor_parts d.owner d.dacl in
      rw f (
        λ h. (d, refl, c.0 h),
        λ h.
            let (x, e, own) = h in
            let same : d ≡ x = cc in c.1 (subst (λ y. IsOwn y) (sym same) own),
      )
]

-- `checkOwner` accepts a configuration file exactly when it is there, is no reparse point, and
-- `checkPath` accepts it.
pub check_owner-check_path :
    (w : Win32) (made : List Call) (path : String)
    → (check_owner w made path ≡ ok tt) ↔ (
        (w.stat made path ≡ ok tt)
        × (refuse_reparse_point w made path ≡ ok tt)
        × (check_path w made path ≡ ok tt))
unfolding check_owner
check_owner-check_path w made path =
    three (w.stat made path) (refuse_reparse_point w made path) (check_path w made path)
  where
    three :
        (a b c : Result (Unit {0}))
        → ((do a; b; c) ≡ ok tt) ↔ ((a ≡ ok tt) × (b ≡ ok tt) × (c ≡ ok tt))
    three (err e) b c = (λ h. cc, λ h. let x = h.0 in cc)
    three (ok u) (err e) c = (λ h. cc, λ h. let x = h.1 in cc)
    three (ok u) (ok v) c = (λ h. (refl, refl, h), λ h. h.2)
