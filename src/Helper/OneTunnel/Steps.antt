-- ===== src/Helper/OneTunnel/Steps.antt =====
-- Each critical section of pkg/helper/helper.go keeps the one tunnel, and so does each interleaving.
use mathlib.Core.Logic.{inl, inr}
use claimward_vpn_client.Common.{ℕ, refl, sym, ◌∙◌, String, Option, none, some, Bool-cases, arith}
use claimward_vpn_client.Wire.{ConnectSpec}
use claimward_vpn_client.Helper.State.{
  Server, Session, State, init, live, is_live, stop_locked, set_lease,
}
use claimward_vpn_client.Helper.Enroll.{
  Env, Prepared, Target, prepare, enroll_locked, give_back_old, give_back_new, is_stale,
}
use claimward_vpn_client.Helper.Renew.{lease_renewed, renewal_failed, drop_session}
use claimward_vpn_client.Helper.Requests.{tenants, with_bearer, down, shutdown}
use claimward_vpn_client.Helper.Steps.{
  Step, prepares, commits, heartbeats, renews, fails, drops, takes_bearer, lists, starts_watch,
  downs, shuts, Reach, here, next,
}
use claimward_vpn_client.Helper.OneTunnel.{
  OneTunnel, init-OneTunnel, stop-IsIdle, stop-OneTunnel, AgreesOn, restate,
}
use claimward_vpn_client.Helper.Writes.{
  set_lease-IsInner, with_bearer-IsInner, retried, retried-IsInner,
}
use claimward_vpn_client.Helper.OneTunnel.Installs.{modify-OneTunnel, install-OneTunnel}

pub give_back_old-AgreesOn :
    (s : State) (t : Target) (o : Option Session) → AgreesOn s (give_back_old s t o)
give_back_old-AgreesOn s t none = ground arith
give_back_old-AgreesOn s t (some old) = ground arith

pub give_back_new-AgreesOn :
    (s : State) (t : Target) (o : Option Session) → AgreesOn s (give_back_new s t o)
give_back_new-AgreesOn s t none = ground arith
give_back_new-AgreesOn s t (some old) = ground arith

pub enroll_locked-OneTunnel :
    (srv : Server) (env : Env) {s : State} (gen : ℕ) (p : Prepared)
    → OneTunnel s
    → OneTunnel (enroll_locked srv env s gen p).0
unfolding enroll_locked
enroll_locked-OneTunnel srv env {s} gen p v = elim (Bool-cases (is_stale s gen)) [
  | inl stale ↦ rw stale (restate (give_back_new-AgreesOn s p.target (live s)) v)
  | inr current ↦
      let agree = give_back_old-AgreesOn (stop_locked s) p.target (live s) in
      rw current (
        install-OneTunnel srv env.now {s = give_back_old (stop_locked s) p.target (live s)} p
          (env.bring_up p.config) (sym agree.2 ∙ (stop-IsIdle v).0)
          (restate agree (stop-OneTunnel v)))
]

pub drop-OneTunnel :
    {s : State} (p : ℕ) (why : String) → OneTunnel s → OneTunnel (drop_session s p why)
unfolding drop_session
drop-OneTunnel {s} p why v = elim (Bool-cases (is_live s p)) [
  | inl at ↦ rw at (restate (refl, refl, refl, refl, refl) (stop-OneTunnel v))
  | inr past ↦ rw past v
]

pub prepare-AgreesOn :
    (srv : Server) (env : Env) (s : State) (spec : Option ConnectSpec)
    → AgreesOn s (prepare srv env s spec).0
unfolding prepare
prepare-AgreesOn srv env s spec = ground arith

pub tenants-AgreesOn :
    (srv : Server) (env : Env) (s : State) (spec : Option ConnectSpec)
    → AgreesOn s (tenants srv env s spec).0
unfolding tenants
tenants-AgreesOn srv env s none = ground arith
tenants-AgreesOn srv env s (some spec) = ground arith

pub down-AgreesOn : (s : State) → AgreesOn (stop_locked s) (down s).0
unfolding down
down-AgreesOn s = ground arith

-- Every step of every goroutine keeps the three together.
pub Step-OneTunnel : {srv : Server} {s t : State} → Step srv s t → OneTunnel s → OneTunnel t
unfolding lease_renewed renewal_failed shutdown
Step-OneTunnel {srv} (prepares env s spec) v = restate (prepare-AgreesOn srv env s spec) v
Step-OneTunnel {srv} (commits before env s₀ s spec gen p e) v =
    enroll_locked-OneTunnel srv env gen p v
Step-OneTunnel (heartbeats s p sess e) v = restate (refl, refl, refl, refl, refl) v
Step-OneTunnel {srv} (renews now s p lease) v =
    restate (refl, refl, refl, refl, refl)
      (modify-OneTunnel p (λ x. set_lease srv now x lease) (set_lease-IsInner srv now lease) v)
Step-OneTunnel {srv} (fails now s p e) v =
    restate (refl, refl, refl, refl, refl)
      (modify-OneTunnel p (retried srv now) (retried-IsInner srv now) v)
Step-OneTunnel (drops s p why) v = drop-OneTunnel p why v
Step-OneTunnel (takes_bearer s p bearer) v =
    modify-OneTunnel p (with_bearer bearer) (with_bearer-IsInner bearer) v
Step-OneTunnel {srv} (lists env s spec) v = restate (tenants-AgreesOn srv env s spec) v
Step-OneTunnel (starts_watch before s₀ s spec q p sess e b h g) v =
    restate (refl, refl, refl, refl, refl) v
Step-OneTunnel (downs s) v = restate (down-AgreesOn s) (stop-OneTunnel v)
Step-OneTunnel (shuts s) v = stop-OneTunnel v

-- From a helper that has just started, whatever its goroutines and its servers do, either no session
-- is live and no tunnel is up, or the one tunnel up is the live session's, which has the current
-- generation; and every other session has been cancelled.
pub Reach-OneTunnel : {srv : Server} {s : State} → Reach srv init s → OneTunnel s
Reach-OneTunnel here = init-OneTunnel
Reach-OneTunnel (next r st) = Step-OneTunnel st (Reach-OneTunnel r)
