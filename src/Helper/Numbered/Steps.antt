-- ===== src/Helper/Numbered/Steps.antt =====
-- Each critical section of pkg/helper/helper.go keeps the generations apart, and what the guard of
-- `enroll` against a session that is over is worth.
use claimward_vpn_client.Common.{
  ℕ, ◌+◌, ◌≤◌, ◌↔◌, false, ◌≡◌, refl, sym, ◌∙◌, String, Option, none, some, Bool-cases, inl, inr,
  ◌==◌, arith,
}
use claimward_vpn_client.Errors.{Result, ok, err}
use claimward_vpn_client.Lease.{Time}
use claimward_vpn_client.Helper.State.{
  next_gen, Server, Session, State, Tunnel, init, live, is_live, stop_locked, set_lease,
}
use claimward_vpn_client.Helper.Enroll.{
  Env, Prepared, enroll_locked, install, give_back_old, is_stale,
}
use claimward_vpn_client.Helper.Renew.{modify, changed, lease_renewed, renewal_failed, drop_session}
use claimward_vpn_client.Helper.Requests.{with_bearer, shutdown}
use claimward_vpn_client.Helper.Writes.{
  IsInner, set_lease-IsInner, with_bearer-IsInner, retried, retried-IsInner,
}
use claimward_vpn_client.Helper.Steps.{
  Step, prepares, commits, heartbeats, renews, fails, drops, takes_bearer, lists, starts_watch,
  downs, shuts, Reach, here, next,
}
use claimward_vpn_client.Helper.OneTunnel.{
  OneTunnel, restate as OneTunnel_restate, stop-IsIdle, stop-OneTunnel, AgreesOn,
}
use claimward_vpn_client.Helper.OneTunnel.Steps.{
  give_back_old-AgreesOn, give_back_new-AgreesOn, prepare-AgreesOn, tenants-AgreesOn, down-AgreesOn,
  Reach-OneTunnel,
}
use claimward_vpn_client.Helper.Stops.{stop_next}
use claimward_vpn_client.Helper.Numbered.{Fits, Numbered, init-Numbered, stop-Numbered}

restate : {s t : State} → AgreesOn s t → Numbered s → Numbered t
restate e n = record {
  idle_bound = λ h. omega (arith, e, n.idle_bound (e.2 ∙ h));
  live_bound = λ p h. omega (arith, e, n.live_bound p (e.2 ∙ h));
  older = λ p x h. omega (arith, e, n.older p x ((λ i. e.0 i p) ∙ h));
  ended = λ p x i h. omega (arith, e, n.ended p x (e.2 ∙ i) ((λ i. e.0 i p) ∙ h));
  distinct = λ p q x y hx hy. n.distinct p q x y ((λ i. e.0 i p) ∙ hx) ((λ i. e.0 i q) ∙ hy);
}

changed_heap :
    (s : State) (q : ℕ) (f : Session → Session) (o : Option Session)
    → s.heap q ≡ o
    → IsInner f
    → (p : ℕ) (x : Session) → (changed s q f o).heap p ≡ some x
    → (y : Session) × (s.heap p ≡ some y) × (y.gen ≡ x.gen)
changed_heap s q f none e i p x h = (x, h, refl)
changed_heap s q f (some z) e i p x h = elim (Bool-cases (q == p)) [
  | inl same ↦ (z, ground arith, ground (arith, i.gen_kept z))
  | inr other ↦ (x, ground arith, refl)
]

changed_rest :
    (s : State) (q : ℕ) (f : Session → Session) (o : Option Session)
    → ((changed s q f o).sess ≡ s.sess)
      × ((changed s q f o).gen ≡ s.gen)
      × ((changed s q f o).next ≡ s.next)
changed_rest s q f none = (refl, refl, refl)
changed_rest s q f (some x) = (refl, refl, refl)

modify-Numbered :
    {s : State} (q : ℕ) (f : Session → Session) → IsInner f → Numbered s → Numbered (modify s q f)
modify-Numbered {s} q f i n =
    let same = changed_rest s q f (s.heap q) in
    let was = changed_heap s q f (s.heap q) refl i in
    record {
      idle_bound = λ h. omega (arith, same, n.idle_bound (sym same.0 ∙ h));
      live_bound = λ p h. omega (arith, same, n.live_bound p (sym same.0 ∙ h));
      older = λ p x h. let (y, e, g) = was p x h in omega (arith, same, n.older p y e);
      ended = λ p x l h.
          let (y, e, g) = was p x h in omega (arith, same, n.ended p y (sym same.0 ∙ l) e);
      distinct = λ p r x y hx hy e.
          let (x', ox, gx) = was p x hx in
          let (y', oy, gy) = was r y hy in n.distinct p r x' y' ox oy (omega arith);
    }

install-Numbered :
    (srv : Server) (now : Time) {s : State} (p : Prepared) (r : Result Tunnel)
    → s.sess ≡ none
    → OneTunnel s
    → Fits (install srv now s p r).0
    → Numbered s
    → Numbered (install srv now s p r).0
unfolding set_lease
install-Numbered srv now p (err e) idle v f n = restate (refl, refl, refl, refl, refl) n
install-Numbered srv now {s} p (ok tun) idle v f n =
    let step : next_gen s.gen ≡ s.gen + 1 = omega (arith, n.idle_bound idle) in
    record {
      idle_bound = λ h. absurd (cc);
      live_bound = λ q h. omega (arith, step, n.idle_bound idle);
      older = λ q x h. elim (Bool-cases (s.next == q)) [
        | inl fresh ↦ let e : next_gen s.gen ≡ x.gen = ground arith in omega (arith, step, e)
        | inr old ↦ let e : s.heap q ≡ some x = ground arith in omega (arith, step, n.older q x e)
      ];
      ended = λ q x e h. absurd (cc);
      distinct = λ q r x y hx hy e.
          ground (arith, step, n.distinct q r x y, n.ended q x idle, n.ended r y idle);
    }

-- No step frees a session.
install_next :
    (srv : Server) (now : Time) (s : State) (p : Prepared) (r : Result Tunnel)
    → s.next ≤ (install srv now s p r).0.next
install_next srv now s p (err e) = omega arith
install_next srv now s p (ok tun) = omega arith

enroll_locked_next :
    (srv : Server) (env : Env) (s : State) (gen : ℕ) (p : Prepared)
    → s.next ≤ (enroll_locked srv env s gen p).0.next
unfolding enroll_locked
enroll_locked_next srv env s gen p =
    let kept = give_back_old-AgreesOn (stop_locked s) p.target (live s) in
    let new = give_back_new-AgreesOn s p.target (live s) in
    elim (Bool-cases (is_stale s gen)) [
      | inl stale ↦ rw stale (omega (arith, new.1))
      | inr current ↦ rw current (
          omega (
            arith,
            kept.1,
            stop_next s,
            install_next srv env.now (give_back_old (stop_locked s) p.target (live s)) p
                (env.bring_up p.config),
          ))
    ]

drop_next : (s : State) (p : ℕ) (why : String) → (drop_session s p why).next ≡ s.next
unfolding drop_session
drop_next s p why = ground (arith, stop_next s)

Step-next : {srv : Server} {s t : State} → Step srv s t → s.next ≤ t.next
unfolding lease_renewed renewal_failed shutdown
Step-next {srv} (prepares env s spec) = omega (arith, (prepare-AgreesOn srv env s spec).1)
Step-next {srv} (commits before env s₀ s spec gen p e) = enroll_locked_next srv env s gen p
Step-next (heartbeats s p sess e) = omega arith
Step-next {srv} (renews now s p lease) =
    omega (arith, (changed_rest s p (λ x. set_lease srv now x lease) (s.heap p)).2)
Step-next {srv} (fails now s p e) = omega (arith, (changed_rest s p (retried srv now) (s.heap p)).2)
Step-next (drops s p why) = omega (arith, drop_next s p why)
Step-next (takes_bearer s p bearer) =
    omega (arith, (changed_rest s p (with_bearer bearer) (s.heap p)).2)
Step-next {srv} (lists env s spec) = omega (arith, (tenants-AgreesOn srv env s spec).1)
Step-next (starts_watch before s₀ s spec q p sess e b h k) = omega arith
Step-next (downs s) = omega (arith, stop_next s, (down-AgreesOn s).1)
Step-next (shuts s) = omega (arith, stop_next s)

enroll_locked-Numbered :
    (srv : Server) (env : Env) {s : State} (gen : ℕ) (p : Prepared)
    → OneTunnel s
    → Fits s
    → Fits (enroll_locked srv env s gen p).0
    → Numbered s
    → Numbered (enroll_locked srv env s gen p).0
unfolding enroll_locked
enroll_locked-Numbered srv env {s} gen p v f g n = elim (Bool-cases (is_stale s gen)) [
  | inl stale ↦ rw stale (restate (give_back_new-AgreesOn s p.target (live s)) n)
  | inr current ↦
      let agree = give_back_old-AgreesOn (stop_locked s) p.target (live s) in
      rw current (
        install-Numbered srv env.now {s = give_back_old (stop_locked s) p.target (live s)} p
          (env.bring_up p.config) (sym agree.2 ∙ (stop-IsIdle v).0)
          (OneTunnel_restate agree (stop-OneTunnel v)) (rw current at g)
          (restate agree (stop-Numbered v f n)))
]

drop-Numbered :
    {s : State} (p : ℕ) (why : String)
    → OneTunnel s
    → Fits s
    → Numbered s
    → Numbered (drop_session s p why)
unfolding drop_session
drop-Numbered {s} p why v f n = elim (Bool-cases (is_live s p)) [
  | inl at ↦ rw at (restate (refl, refl, refl, refl, refl) (stop-Numbered v f n))
  | inr past ↦ rw past n
]

Step-Numbered :
    {srv : Server} {s t : State}
    → Step srv s t
    → OneTunnel s
    → Fits s
    → Fits t
    → Numbered s
    → Numbered t
unfolding lease_renewed renewal_failed shutdown
Step-Numbered {srv} (prepares env s spec) v f g n = restate (prepare-AgreesOn srv env s spec) n
Step-Numbered {srv} (commits before env s₀ s spec gen p e) v f g n =
    enroll_locked-Numbered srv env gen p v f g n
Step-Numbered (heartbeats s p sess e) v f g n = restate (refl, refl, refl, refl, refl) n
Step-Numbered {srv} (renews now s p lease) v f g n =
    restate (refl, refl, refl, refl, refl)
      (modify-Numbered p (λ x. set_lease srv now x lease) (set_lease-IsInner srv now lease) n)
Step-Numbered {srv} (fails now s p e) v f g n =
    restate (refl, refl, refl, refl, refl)
      (modify-Numbered p (retried srv now) (retried-IsInner srv now) n)
Step-Numbered (drops s p why) v f g n = drop-Numbered p why v f n
Step-Numbered (takes_bearer s p bearer) v f g n =
    modify-Numbered p (with_bearer bearer) (with_bearer-IsInner bearer) n
Step-Numbered {srv} (lists env s spec) v f g n = restate (tenants-AgreesOn srv env s spec) n
Step-Numbered (starts_watch before s₀ s spec q p sess e b h k) v f g n =
    restate (refl, refl, refl, refl, refl) n
Step-Numbered (downs s) v f g n = restate (down-AgreesOn s) (stop-Numbered v f n)
Step-Numbered (shuts s) v f g n = stop-Numbered v f n

-- From a helper that has just started, and as long as the counter has not wrapped, no two sessions
-- ever made have the same generation, and none is ahead of the counter.
pub Reach-Numbered : {srv : Server} {s : State} → Reach srv init s → Fits s → Numbered s
Reach-Numbered here f = init-Numbered
Reach-Numbered (next {t = t} r st) f =
    let before : Fits t = omega (arith, Step-next st) in
    Step-Numbered st (Reach-OneTunnel r) before f (Reach-Numbered r before)

-- A re-enrollment by the renewal loop of the session at `p` gets past the guard exactly when that
-- session is the live one, as long as the counter of generations has not wrapped.
pub is_stale_iff :
    {srv : Server} {s : State} (p : ℕ) (x : Session)
    → Reach srv init s
    → Fits s
    → s.heap p ≡ some x
    → (is_stale s x.gen ≡ false) ↔ (s.sess ≡ some p)
is_stale_iff {s = s} p x r f h =
    let n = Reach-Numbered r f in
    let old = n.older p x h in
    elim (Reach-OneTunnel r).stage [
      | inl idle ↦ (λ g. absurd (ground (arith, n.ended p x idle.0 h)), λ e. absurd (ground arith))
      | inr held ↦ (λ g. ground (arith, n.distinct p held.0 x held.1 h), λ e. ground (arith, held))
    ]
