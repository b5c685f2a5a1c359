-- ===== src/App/Core/Operations.antt =====
-- The operations of pkg/appcore/appcore.go, and the two halves of its renewal loop's round, as
-- sequences of the steps of `AppStep`.
use claimward_vpn_client.Common.{
  ℕ, ◌≡◌, refl, sym, ◌∙◌, String, List, Option, none, some, true, Bool-cases, inl, inr, is_blank,
  not, ◌&&◌, contains,
}
use claimward_vpn_client.Errors.{Result, ok, err, error_text}
use claimward_vpn_client.Lease.{Time}
use claimward_vpn_client.Wire.{Tenant, Response}
use claimward_vpn_client.Store.{Stored, Files, load, save}
use claimward_vpn_client.App.Config.{validate}
use claimward_vpn_client.App.Core.{World, Core, Shown, logf, session}
use claimward_vpn_client.App.Core.Actions.{
  tenants, tenants_asked, tenants_valid, listed, set_tenant, chosen, chosen_saved, is_offered,
  connect, connect_valid, connect_shown, connect_answered, tenant_wanted, tenants_listed,
  disconnect, logout,
}
use claimward_vpn_client.App.Core.Renewal.{
  loop_ended, loop_checks, checked, found_down, loop_renews, renewed, renew_answered, renewed_until,
  goes_on, status,
}
use claimward_vpn_client.App.Core.Steps.{
  SameLoops, connects, stops, adopts, ends, writes, AppReach, next,
}

pub logf-SameLoops : (w : World) (c : Core) (line : String) → SameLoops c (logf w c line)
unfolding logf
logf-SameLoops w c line = (refl, refl, refl, refl)

SameLoops-trans : (c d e : Core) → SameLoops c d → SameLoops d e → SameLoops c e
SameLoops-trans c d e a b = (a.0 ∙ b.0, a.1 ∙ b.1, a.2 ∙ b.2, a.3 ∙ b.3)

listed-SameLoops : (c : Core) (r : Result Response) → SameLoops c (listed c r).0
listed-SameLoops c (err e) = (refl, refl, refl, refl)
listed-SameLoops c (ok r) = (refl, refl, refl, refl)

tenants_asked-SameLoops :
    (w : World) (c : Core) (x : Files × Result Shown) → SameLoops c (tenants_asked w c x).0
tenants_asked-SameLoops w c (f, err e) = (refl, refl, refl, refl)
tenants_asked-SameLoops w c (f, ok b) = listed-SameLoops (record c { files = f }) _

tenants_valid-SameLoops :
    (w : World) (c : Core) (r : Result (Unit {0})) → SameLoops c (tenants_valid w c r).0
tenants_valid-SameLoops w c (err e) = (refl, refl, refl, refl)
tenants_valid-SameLoops w c (ok u) = tenants_asked-SameLoops w c (session w c.cfg c.files)

pub tenants-SameLoops : (w : World) (c : Core) → SameLoops c (tenants w c).0
unfolding tenants
tenants-SameLoops w c = tenants_valid-SameLoops w c (validate c.cfg)

saved-SameLoops : (c : Core) (x : Files × Result (Unit {0})) → SameLoops c (chosen_saved c x).0
saved-SameLoops c (f, err e) = (refl, refl, refl, refl)
saved-SameLoops c (f, ok u) = (refl, refl, refl, refl)

chosen-SameLoops :
    (w : World) (c : Core) (id : String) (r : Result (Option Stored))
    → SameLoops c (chosen w c id r).0
chosen-SameLoops w c id (err e) = (refl, refl, refl, refl)
chosen-SameLoops w c id (ok none) = (refl, refl, refl, refl)
chosen-SameLoops w c id (ok (some s)) =
    saved-SameLoops c (save w.os c.files (record s { tenant = id }))

pub set_tenant-SameLoops : (w : World) (c : Core) (id : String) → SameLoops c (set_tenant w c id).0
unfolding set_tenant
set_tenant-SameLoops w c id =
    elim (Bool-cases (not (is_blank id) && not (is_offered id c.tenants))) [
      | inl stranger ↦ rw stranger (refl, refl, refl, refl)
      | inr offered ↦ rw offered (chosen-SameLoops w c id (load w.os c.files))
    ]

tenants_listed-SameLoops :
    (w : World) (x : Core × Result (List Tenant)) → SameLoops x.0 (tenants_listed w x)
tenants_listed-SameLoops w (c, ok ts) = (refl, refl, refl, refl)
tenants_listed-SameLoops w (c, err e) = logf-SameLoops w c _

tenant_wanted-SameLoops : (w : World) (c : Core) → SameLoops c (tenant_wanted w c)
unfolding tenant_wanted
tenant_wanted-SameLoops w c =
    let d = logf w c "connect: you belong to several tenants; choose one" in
    SameLoops-trans c d (tenants_listed w (tenants w d)) (logf-SameLoops w c _) (
      SameLoops-trans d (tenants w d).0 (tenants_listed w (tenants w d)) (tenants-SameLoops w d)
        (tenants_listed-SameLoops w (tenants w d)))

found_down-SameLoops : (w : World) (c : Core) (r : Response) → SameLoops c (found_down w c r)
found_down-SameLoops w c r = elim (Bool-cases (is_blank r.last_error)) [
  | inl quiet ↦ rw quiet (refl, refl, refl, refl)
  | inr said ↦ rw said (logf-SameLoops w c _)
]

until-SameLoops :
    (w : World) (c : Core) (text : Time → String) (o : Option Time)
    → SameLoops c (renewed_until w c o text)
until-SameLoops w c text none = (refl, refl, refl, refl)
until-SameLoops w c text (some t) = logf-SameLoops w c _

answered-SameLoops :
    (w : World) (c : Core) (text : Time → String) (r : Result Response)
    → SameLoops c (renew_answered w c text r)
answered-SameLoops w c text (err e) = logf-SameLoops w c _
answered-SameLoops w c text (ok r) = until-SameLoops w c text r.lease_expires_at

module _ {b : Core} (w : World) where
  logged : {c : Core} (line : String) → AppReach b c → AppReach b (logf w c line)
  logged {c} line r = next r (writes (logf-SameLoops w c line))

  connect_answered-AppReach :
      {c : Core} (r : Result Response) → AppReach b c → AppReach b (connect_answered w c r).0
  connect_answered-AppReach {c} (ok r) past = logged _ (next past (connects c r))
  connect_answered-AppReach {c} (err e) past =
      elim (Bool-cases (contains (error_text e) "tenant_required")) [
        | inl wanted ↦ rw wanted (next past (writes (tenant_wanted-SameLoops w c)))
        | inr other ↦ rw other (logged _ past)
      ]

  connect_shown-AppReach :
      {c : Core} (x : Files × Result Shown) → AppReach b c → AppReach b (connect_shown w c x).0
  connect_shown-AppReach {c} (f, err e) past =
      logged _ (next past (writes {d = record c { files = f }} (refl, refl, refl, refl)))
  connect_shown-AppReach {c} (f, ok s) past =
      connect_answered-AppReach _
        (logged _ (next past (writes {d = record c { files = f }} (refl, refl, refl, refl))))

  connect_valid-AppReach :
      {c : Core} (r : Result (Unit {0})) → AppReach b c → AppReach b (connect_valid w c r).0
  connect_valid-AppReach {c} (err e) past = past
  connect_valid-AppReach {c} (ok u) past = connect_shown-AppReach (session w c.cfg c.files) past

  -- A connect of the app, however it ends, moves the core by a sequence of steps.
  pub connect-AppReach : {c : Core} → AppReach b c → AppReach b (connect w c).0
  unfolding connect
  connect-AppReach {c} past = connect_valid-AppReach (validate c.cfg) past

  -- A disconnect is a sequence of steps.
  pub disconnect-AppReach : {c : Core} → AppReach b c → AppReach b (disconnect w c).0
  unfolding disconnect
  disconnect-AppReach {c} past =
      next (next (logged _ past) (stops _)) (writes (refl, refl, refl, refl))

  -- A status is a sequence of steps.
  pub status-AppReach : {c : Core} → AppReach b c → AppReach b (status w c).0
  unfolding status
  status-AppReach {c} past = next past (adopts c _)

  -- A logout is a sequence of steps.
  pub logout-AppReach : {c : Core} → AppReach b c → AppReach b (logout w c).0
  unfolding logout
  logout-AppReach {c} past = next (disconnect-AppReach past) (writes (refl, refl, refl, refl))

  ended-AppReach :
      {c : Core} (d : Core) (i : ℕ)
      → c.runs i ≡ true
      → SameLoops c d
      → AppReach b c
      → AppReach b (loop_ended d i)
  ended-AppReach {c} d i runs same past =
      next (next past (writes same)) (ends d i ((λ k. sym same.3 k i) ∙ runs))

  checked-AppReach :
      {c : Core} (i : ℕ) (r : Result Response)
      → c.runs i ≡ true
      → AppReach b c
      → AppReach b (checked w c i r).0
  checked-AppReach {c} i (err e) runs past =
      ended-AppReach (logf w c _) i runs (logf-SameLoops w c _) past
  checked-AppReach {c} i (ok r) runs past = elim (Bool-cases r.connected) [
    | inl up ↦ rw up past
    | inr gone ↦
        rw gone (ended-AppReach (found_down w c r) i runs (found_down-SameLoops w c r) past)
  ]

  -- The half of a running loop's round before its timer is a sequence of steps.
  pub loop_checks-AppReach :
      {c : Core} (i : ℕ) → c.runs i ≡ true → AppReach b c → AppReach b (loop_checks w c i).0
  unfolding loop_checks
  loop_checks-AppReach {c} i runs past = checked-AppReach i _ runs past

  goes_on-AppReach :
      {c : Core} (d : Core) (i : ℕ)
      → c.runs i ≡ true
      → SameLoops c d
      → AppReach b c
      → AppReach b (goes_on d i).0
  goes_on-AppReach {c} d i runs same past = elim (Bool-cases (d.stopped i)) [
    | inl told ↦ rw told (ended-AppReach d i runs same past)
    | inr free ↦ rw free (next past (writes same))
  ]

  renewed-AppReach :
      {c : Core} (i : ℕ) (text : Time → String) (x : Files × Result Shown)
      → c.runs i ≡ true
      → AppReach b c
      → AppReach b (renewed w c i text x).0
  renewed-AppReach {c} i text (f, err e) runs past =
      logged _ (next past (writes {d = record c { files = f }} (refl, refl, refl, refl)))
  renewed-AppReach {c} i text (f, ok s) runs past =
      goes_on-AppReach _ i runs (answered-SameLoops w (record c { files = f }) text _) past

  -- The half of a running loop's round after its timer moves the core by a sequence of steps.
  pub loop_renews-AppReach :
      {c : Core} (i : ℕ) (text : Time → String)
      → c.runs i ≡ true
      → AppReach b c
      → AppReach b (loop_renews w c i text).0
  unfolding loop_renews
  loop_renews-AppReach {c} i text runs past =
      renewed-AppReach i text (session w c.cfg c.files) runs past
