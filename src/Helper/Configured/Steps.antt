-- ===== src/Helper/Configured/Steps.antt =====
-- Each critical section of pkg/helper/helper.go keeps to the configured servers.
use claimward_vpn_client.Common.{
  ℕ, ◌≡◌, refl, subst, String, Option, none, some, Bool-cases, inl, inr, ◌==◌, arith,
}
use claimward_vpn_client.Errors.{Result, ok, err}
use claimward_vpn_client.Lease.{Time}
use claimward_vpn_client.Wire.{ConnectSpec}
use claimward_vpn_client.Helper.State.{
  Server, Session, State, Tunnel, live, is_live, stop_locked, set_lease,
}
use claimward_vpn_client.Helper.Enroll.{
  Env, Prepared, Target, target, ask, asked, allowed, prepare, enroll_locked, install,
  give_back_old, give_back_new, is_stale, is_enrollment, enroll_call,
}
use claimward_vpn_client.Helper.Renew.{lease_renewed, renewal_failed, drop_session}
use claimward_vpn_client.Helper.Requests.{
  tenants, listed, give_back_stopped, with_bearer, down, shutdown,
}
use claimward_vpn_client.Helper.Writes.{
  set_lease-IsInner, with_bearer-IsInner, retried, retried-IsInner,
}
use claimward_vpn_client.Helper.Allowed.{allowed_sound, target_allowed}
use claimward_vpn_client.Helper.Steps.{
  Step, prepares, commits, heartbeats, renews, fails, drops, takes_bearer, lists, starts_watch,
  downs, shuts, next,
}
use claimward_vpn_client.Helper.Configured.{
  IsServer, Configured, stop-Configured, modify-Configured, send-Configured,
}

asked-Configured :
    {srv : Server} (env : Env) {s : State} (r : Result Target)
    → ((t : Target) → r ≡ ok t → IsServer srv t.server)
    → Configured srv s
    → Configured srv (asked srv env s r).0
asked-Configured env (err e) m v = v
asked-Configured env (ok t) m v = send-Configured (enroll_call t) (m t refl) v

prepare-Configured :
    {srv : Server} (env : Env) {s : State} (spec : Option ConnectSpec)
    → Configured srv s
    → Configured srv (prepare srv env s spec).0
unfolding prepare
prepare-Configured {srv} env spec v =
    asked-Configured env (target srv env spec) (λ t e. target_allowed srv env spec t e) v

-- What an answered enrollment is about is what was let through.
pub asked_target :
    (srv : Server) (env : Env) (s : State) (r : Result Target) (p : Prepared)
    → (asked srv env s r).1 ≡ ok p
    → r ≡ ok p.target
unfolding ask
asked_target srv env s (err e) p h = cc
asked_target srv env s (ok t) p h = ground arith

pub prepared_server :
    (srv : Server) (env : Env) (s : State) (spec : Option ConnectSpec) (p : Prepared)
    → (prepare srv env s spec).1 ≡ ok p
    → IsServer srv p.target.server
unfolding prepare
prepared_server srv env s spec p h =
    target_allowed srv env spec p.target (asked_target srv env s (target srv env spec) p h)

give_back_new-Configured :
    {srv : Server} {s : State} (t : Target) (o : Option Session)
    → IsServer srv t.server
    → Configured srv s
    → Configured srv (give_back_new s t o)
give_back_new-Configured t none m v = send-Configured _ m v
give_back_new-Configured t (some cur) m v =
    elim (Bool-cases (is_enrollment cur t.server t.pair.public)) [
      | inl same ↦ rw same v
      | inr other ↦ rw other (send-Configured _ m v)
    ]

give_back_old-Configured :
    {srv : Server} {s : State} (t : Target) (o : Option Session)
    → ((old : Session) → o ≡ some old → IsServer srv old.server)
    → Configured srv s
    → Configured srv (give_back_old s t o)
give_back_old-Configured t none m v = v
give_back_old-Configured t (some old) m v =
    elim (Bool-cases (is_enrollment old t.server t.pair.public)) [
      | inl same ↦ rw same v
      | inr other ↦ rw other (send-Configured _ (m old refl) v)
    ]

live-IsServer :
    {srv : Server} {s : State} (o : Option ℕ) (old : Session)
    → s.sess ≡ o
    → live s ≡ some old
    → Configured srv s
    → IsServer srv old.server
live-IsServer none old e h v = absurd (ground arith)
live-IsServer (some p) old e h v = v.sessions p old (ground arith)

install-Configured :
    {srv : Server} (now : Time) {s : State} (p : Prepared) (r : Result Tunnel)
    → IsServer srv p.target.server
    → Configured srv s
    → Configured srv (install srv now s p r).0
unfolding set_lease
install-Configured now p (err e) m v = record { sessions = v.sessions; requests = v.requests }
install-Configured {srv} now {s} p (ok tun) m v = record {
  sessions = λ q sess h. elim (Bool-cases (s.next == q)) [
    | inl fresh ↦ subst (IsServer srv) (ground arith) m
    | inr old ↦ v.sessions q sess (ground arith)
  ];
  requests = v.requests;
}

enroll_locked-Configured :
    {srv : Server} (env : Env) {s : State} (gen : ℕ) (p : Prepared)
    → IsServer srv p.target.server
    → Configured srv s
    → Configured srv (enroll_locked srv env s gen p).0
unfolding enroll_locked
enroll_locked-Configured env {s} gen p m v = elim (Bool-cases (is_stale s gen)) [
  | inl stale ↦ rw stale (give_back_new-Configured p.target (live s) m v)
  | inr current ↦ rw current (
      install-Configured env.now {s = give_back_old (stop_locked s) p.target (live s)} p
        (env.bring_up p.config) m
        (give_back_old-Configured p.target (live s) (λ old e. live-IsServer s.sess old refl e v)
          (stop-Configured v)))
]

listed-Configured :
    {srv : Server} (env : Env) {s : State} (spec : ConnectSpec) (r : Result String)
    → ((u : String) → r ≡ ok u → IsServer srv u)
    → Configured srv s
    → Configured srv (listed env s spec r).0
listed-Configured env spec (err e) m v = v
listed-Configured env spec (ok u) m v = send-Configured _ (m u refl) v

tenants-Configured :
    {srv : Server} (env : Env) {s : State} (spec : Option ConnectSpec)
    → Configured srv s
    → Configured srv (tenants srv env s spec).0
unfolding tenants
tenants-Configured env none v = v
tenants-Configured {srv} env (some spec) v =
    listed-Configured env spec (allowed srv (some spec)) (λ u e. (allowed_sound srv spec u e).0) v

given_back-Configured :
    {srv : Server} {s : State} (o : Option Session)
    → ((old : Session) → o ≡ some old → IsServer srv old.server)
    → Configured srv s
    → Configured srv (give_back_stopped s o)
given_back-Configured none m v = v
given_back-Configured (some old) m v = send-Configured _ (m old refl) v

relabelled :
    {srv : Server} {s : State} (e : String)
    → Configured srv s
    → Configured srv (record s { last_err = e })
relabelled e v = record { sessions = v.sessions; requests = v.requests }

drop-Configured :
    {srv : Server} {s : State} (p : ℕ) (why : String)
    → Configured srv s
    → Configured srv (drop_session s p why)
unfolding drop_session
drop-Configured {s = s} p why v = elim (Bool-cases (is_live s p)) [
  | inl at ↦ rw at (relabelled why (stop-Configured v))
  | inr past ↦ rw past v
]

-- Every step of every goroutine keeps to the configured servers.
pub Step-Configured :
    {srv : Server} {s t : State} → Step srv s t → Configured srv s → Configured srv t
unfolding lease_renewed renewal_failed shutdown down
Step-Configured (prepares env s spec) v = prepare-Configured env spec v
Step-Configured {srv} (commits before env s₀ s spec gen p e) v =
    enroll_locked-Configured env gen p (prepared_server srv before s₀ spec p e) v
Step-Configured (heartbeats s p sess e) v = send-Configured _ (v.sessions p sess e) v
Step-Configured {srv} (renews now s p lease) v =
    relabelled _
      (modify-Configured p (λ x. set_lease srv now x lease) (set_lease-IsInner srv now lease) v)
Step-Configured {srv} (fails now s p e) v =
    relabelled _ (modify-Configured p (retried srv now) (retried-IsInner srv now) v)
Step-Configured (drops s p why) v = drop-Configured p why v
Step-Configured (takes_bearer s p bearer) v =
    modify-Configured p (with_bearer bearer) (with_bearer-IsInner bearer) v
Step-Configured (lists env s spec) v = tenants-Configured env spec v
Step-Configured {srv} (starts_watch before s₀ s spec q p sess e b h g) v =
    send-Configured _ (before, s₀, spec, q, e, prepared_server srv before s₀ spec q e, refl) v
Step-Configured (downs s) v =
    given_back-Configured (live s) (λ old e. live-IsServer s.sess old refl e v)
      (relabelled "" (stop-Configured v))
Step-Configured (shuts s) v = stop-Configured v
