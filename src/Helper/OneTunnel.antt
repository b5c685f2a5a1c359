-- ===== src/Helper/OneTunnel.antt =====
-- The tunnels that are up, the live session and the sessions whose loops go on, in the states of
-- pkg/helper/helper.go.
pub mod Installs
pub mod Steps
use mathlib.Core.Logic.{◌⊎◌, inl, inr}
use claimward_vpn_client.Common.{
  ℕ, suc, ◌<◌, ◌==◌, ◌≡◌, refl, sym, ◌∙◌, subst, String, List, [], ◌∷◌, Option, none, some, Bool,
  true, false, Bool-cases, arith, Option-cases,
}
use claimward_vpn_client.Errors.{Result, ok, err}
use claimward_vpn_client.Lease.{Time, add_time}
use claimward_vpn_client.Wire.{ConnectSpec}
use claimward_vpn_client.Helper.State.{
  Server, Session, State, Tunnel, init, next_gen, live, is_live, stop_locked, set_lease, put,
}
use claimward_vpn_client.Helper.Enroll.{
  Env, Prepared, Target, prepare, enroll_locked, install, give_back_old, give_back_new, new_session,
  is_stale,
}
use claimward_vpn_client.Helper.Renew.{
  modify, heartbeat_call, lease_renewed, renewal_failed, drop_session, retry_delay,
}
use claimward_vpn_client.Helper.Requests.{tenants, with_bearer, down, shutdown}
use claimward_vpn_client.Helper.Steps.{
  Step, prepares, commits, heartbeats, renews, fails, drops, takes_bearer, lists, downs, shuts,
  Reach, here, next,
}

abbrev pub IsIdle : State → Type 0
IsIdle s = (s.sess ≡ none) × (s.up ≡ [])

abbrev pub IsHeld : State → Type 0
IsHeld s =
    (p : ℕ) × (sess : Session) × (s.sess ≡ some p)
    × (s.heap p ≡ some sess)
    × (sess.gen ≡ s.gen)
    × (sess.cancelled ≡ false)
    × (s.up ≡ sess.tun ∷ [])

pub record OneTunnel (s : State) : Type 0 where
  pub stage : IsIdle s ⊎ IsHeld s
  pub only_live :
      (p : ℕ) (sess : Session) → s.heap p ≡ some sess → sess.cancelled ≡ false → s.sess ≡ some p
  pub allocated : (p : ℕ) (sess : Session) → s.heap p ≡ some sess → p < s.next

pub init-OneTunnel : OneTunnel init
init-OneTunnel = record {
  stage = inl (refl, refl);
  only_live = λ p sess h. cc;
  allocated = λ p sess h. cc;
}

-- After `stopLocked` nothing is up and every loop is told to end.
pub stop-IsIdle : {s : State} → OneTunnel s → IsIdle (stop_locked s)
unfolding stop_locked
stop-IsIdle v = elim v.stage [ inl idle ↦ ground arith | inr held ↦ ground arith ]

stop-only_live :
    {s : State}
    → OneTunnel s
    → (p : ℕ) (sess : Session) → (stop_locked s).heap p ≡ some sess
    → sess.cancelled ≡ true
unfolding stop_locked
stop-only_live v p sess e = elim v.stage [
  | inl idle ↦ ground (arith, v.only_live p sess)
  | inr held ↦ ground (arith, v.only_live p sess)
]

stop-allocated :
    {s : State}
    → OneTunnel s
    → (p : ℕ) (sess : Session) → (stop_locked s).heap p ≡ some sess
    → p < (stop_locked s).next
unfolding stop_locked
stop-allocated v p sess e = elim v.stage [
  | inl idle ↦ ground (arith, v.allocated p sess)
  | inr held ↦ ground (arith, v.allocated p sess, v.allocated p held.1)
]

pub stop-OneTunnel : {s : State} → OneTunnel s → OneTunnel (stop_locked s)
stop-OneTunnel v = record {
  stage = inl (stop-IsIdle v);
  only_live = λ p sess h c. ground (arith, stop-only_live v p sess h);
  allocated = stop-allocated v;
}

-- The invariant reads neither the last error nor the requests sent.
abbrev pub AgreesOn : State → State → Type 0
AgreesOn s t =
    (s.heap ≡ t.heap) × (s.next ≡ t.next) × (s.sess ≡ t.sess) × (s.gen ≡ t.gen) × (s.up ≡ t.up)

pub restate : {s t : State} → AgreesOn s t → OneTunnel s → OneTunnel t
restate {s} {t} e v = record {
  stage = ground (arith, v.stage);
  only_live = λ p sess h c. sym e.2 ∙ v.only_live p sess ((λ i. e.0 i p) ∙ h) c;
  allocated = λ p sess h. subst (λ n. p < n) e.1 (v.allocated p sess ((λ i. e.0 i p) ∙ h));
}
