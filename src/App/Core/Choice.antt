-- ===== src/App/Core/Choice.antt =====
-- The tenant that a person chooses (`SetTenant` of pkg/appcore/appcore.go), from the choice to the
-- session that the next connect shows.
use mathlib.Core.List.{Mem, mem-cons_self, mem-cons_of_mem}
use claimward_vpn_client.Common.{
  ◌≡◌, refl, sym, ◌∙◌, ap, String, List, [], ◌∷◌, Option, none, some, true, false, Bool-cases, ◌⊎◌,
  inl, inr, str_eq, eq_iff, is_blank, arith,
}
use claimward_vpn_client.Errors.{Result, ok, err, Result-cases, ◌>>=◌}
use claimward_vpn_client.Wire.{Tenant, parse_private}
use claimward_vpn_client.Store.{Stored, Files, load, save}
use claimward_vpn_client.Store.Atomic.{load-save, save_written}
use claimward_vpn_client.Auth.{Provider, github, oidc, goauthn, new_provider}
use claimward_vpn_client.Auth.GoAuthn.{register_key}
use claimward_vpn_client.App.Config.{Config, auth_config}
use claimward_vpn_client.App.Core.{
  World, Core, Shown, token_of, bearer_for, shown, saved, kept, session,
}
use claimward_vpn_client.App.Core.Actions.{set_tenant, chosen, chosen_saved, is_offered}

is_offered_sound :
    (id : String) (ts : List Tenant)
    → is_offered id ts ≡ true
    → (t : Tenant) × Mem t ts × (t.id ≡ id)
unfolding is_offered
is_offered_sound id [] h = absurd (cc)
is_offered_sound id (t ∷ ts) h = elim (Bool-cases (str_eq t.id id)) [
  | inl hit ↦ (t, mem-cons_self, (eq_iff t.id id).0 hit)
  | inr miss ↦ let (u, m, e) = is_offered_sound id ts (ground arith) in (u, mem-cons_of_mem t m, e)
]

-- What a choice that was made leaves: the session on disk, with the tenant in it.
pub record Chosen (w : World) (c d : Core) (id : String) : Type 0 where
  pub stored : Stored
  pub loaded : load w.os c.files ≡ ok (some stored)
  pub written : (save w.os c.files (record stored { tenant = id })).1 ≡ ok tt
  pub files_lem : d.files ≡ (save w.os c.files (record stored { tenant = id })).0
  pub on_disk : d.files.session ≡ some (w.os.encode (record stored { tenant = id }))
  pub settled : d.tenant_required ≡ false

chosen_saved_lem :
    (c : Core) (x : Files × Result (Unit {0}))
    → (chosen_saved c x).1 ≡ ok tt
    → (x.1 ≡ ok tt)
      × ((chosen_saved c x).0.files ≡ x.0)
      × ((chosen_saved c x).0.tenant_required ≡ false)
chosen_saved_lem c (f, err e) h = absurd (cc)
chosen_saved_lem c (f, ok u) h = (refl, refl, refl)

chosen-Chosen :
    (w : World) (c : Core) (id : String) (r : Result (Option Stored))
    → load w.os c.files ≡ r
    → (chosen w c id r).1 ≡ ok tt
    → Chosen w c (chosen w c id r).0 id
chosen-Chosen w c id (err e) l h = absurd (cc)
chosen-Chosen w c id (ok none) l h = absurd (cc)
chosen-Chosen w c id (ok (some s)) l h =
    let (a, b, d) = chosen_saved_lem c (save w.os c.files (record s { tenant = id })) h in
    let new = record s { tenant = id } in
    record {
      stored = s;
      loaded = l;
      written = a;
      files_lem = b;
      on_disk = ap (λ (f : Files). f.session) b ∙ save_written w.os c.files new a;
      settled = d;
    }

-- A tenant that is set is one that the server offered, or none; the signed-in session is on disk with
-- it, otherwise as it was, and no choice is required any more.
pub set_tenant-Chosen :
    (w : World) (c : Core) (id : String)
    → (set_tenant w c id).1 ≡ ok tt
    → ((is_blank id ≡ true) ⊎ ((t : Tenant) × Mem t c.tenants × (t.id ≡ id)))
      × Chosen w c (set_tenant w c id).0 id
unfolding set_tenant
set_tenant-Chosen w c id h = elim (Bool-cases (is_blank id)) [
  | inl blank ↦ rw blank (inl refl, chosen-Chosen w c id (load w.os c.files) refl (ground arith))
  | inr given ↦ elim (Bool-cases (is_offered id c.tenants)) [
    | inl offered ↦
        rw (given, offered)
          (
            inr (is_offered_sound id c.tenants offered),
            chosen-Chosen w c id (load w.os c.files) refl (ground arith),
          )
    | inr stranger ↦ absurd (ground arith)
  ]
]

bearer_for_tenant :
    (w : World) (p : Provider) (s : Stored) (b : Shown)
    → bearer_for w p s ≡ ok b
    → b.session.tenant ≡ s.tenant
unfolding bearer_for
bearer_for_tenant w (github i u scopes) s b h = ground arith
bearer_for_tenant w (oidc i k) s b h = ground arith
bearer_for_tenant w (goauthn i k) s b h =
    elim (Result-cases (parse_private w.keys s.wg_private_key)) [
      | inr (e, bad) ↦ absurd (ground arith)
      | inl (pair, good) ↦
          let registers =
            register_key w.idp i k (token_of s) (w.keys.key_text pair.public) w.hostname in
          elim (Result-cases registers) [
            | inr (e, refused) ↦ absurd (ground arith)
            | inl (tok, fresh) ↦ ground arith
          ]
    ]

shown_tenant :
    (w : World) (cfg : Config) (s : Stored) (b : Shown)
    → shown w cfg (some s) ≡ ok b
    → b.session.tenant ≡ s.tenant
shown_tenant w cfg s b h = elim (Bool-cases (is_blank s.bearer)) [
  | inl blank ↦ absurd (ground arith)
  | inr given ↦ elim (Result-cases (parse_private w.keys s.wg_private_key)) [
    | inr (e, bad) ↦ absurd (ground arith)
    | inl (pair, good) ↦ elim (Result-cases (new_provider (auth_config cfg))) [
      | inr (e, bad) ↦ absurd (ground arith)
      | inl (p, made) ↦ bearer_for_tenant w p s b (ground arith)
    ]
  ]
]

saved_shown : (b d : Shown) (x : Files × Result (Unit {0})) → (saved b x).1 ≡ ok d → b ≡ d
saved_shown b d (f, ok u) h = ground arith
saved_shown b d (f, err e) h = absurd (cc)

kept_shown :
    (w : World) (f : Files) (r : Result Shown) (b : Shown) → (kept w f r).1 ≡ ok b → r ≡ ok b
kept_shown w f (err e) b h = absurd (cc)
kept_shown w f (ok d) b h = elim (Bool-cases d.changed) [
  | inl new ↦ ap ok (saved_shown d b (save w.os f d.session) (ground arith))
  | inr same ↦ ground arith
]

session_tenant :
    (w : World) (cfg : Config) (f : Files) (s : Stored) (b : Shown)
    → load w.os f ≡ ok (some s)
    → (session w cfg f).1 ≡ ok b
    → b.session.tenant ≡ s.tenant
unfolding session
session_tenant w cfg f s b l h =
    let r = kept_shown w f (do o ← load w.os f; shown w cfg o) b h in
    shown_tenant w cfg s b (ground (arith, r, l))

-- The session that is shown next, after a choice that was made, carries the chosen tenant: the one
-- that a connect puts into its request. The file can be read, and the codec reads what was written.
pub set_tenant-session :
    (w : World) (c : Core) (cfg : Config) (id : String) (s : Stored) (b : Shown)
    → load w.os c.files ≡ ok (some s)
    → w.os.decode (w.os.encode (record s { tenant = id })) ≡ ok (record s { tenant = id })
    → w.os.read ≡ ok tt
    → (set_tenant w c id).1 ≡ ok tt
    → (session w cfg (set_tenant w c id).0.files).1 ≡ ok b
    → b.session.tenant ≡ id
set_tenant-session w c cfg id s b loaded codec readable h k =
    let (_, made) = set_tenant-Chosen w c id h in
    let same : s ≡ made.stored = ground (arith, sym loaded ∙ made.loaded) in
    let new = record s { tenant = id } in
    let written : (save w.os c.files new).1 ≡ ok tt = rw same made.written in
    let l = load-save w.os c.files new codec readable written in
    session_tenant w cfg (set_tenant w c id).0.files new b
      (ap (load w.os)
          (made.files_lem ∙ ap (λ x. (save w.os c.files (record x { tenant = id })).0) (sym same))
        ∙ l)
      k
