-- ===== src/Helper/Numbered.antt =====
-- The generations that `gen` of pkg/helper/helper.go hands to the sessions. They tell the sessions
-- apart as long as the 64-bit counter has not wrapped, which takes two steps for each session.
pub mod Steps
use claimward_vpn_client.Common.{
  ℕ, suc, zero, ◌+◌, ◌*◌, ◌≤◌, ◌<◌, int64_mod, ◌↔◌, ◌⊎◌, false, true, not, ◌&&◌, ◌≡◌, refl, sym,
  ◌∙◌, subst, String, List, [], ◌∷◌, Option, none, some, Bool, Bool-cases, inl, inr, All, ◌==◌,
  arith, ap,
}
use claimward_vpn_client.Errors.{Result, ok, err}
use claimward_vpn_client.Lease.{Time}
use claimward_vpn_client.Wire.{ConnectSpec}
use claimward_vpn_client.Helper.State.{
  next_gen, put, Server, Session, State, Tunnel, init, live, is_live, stop_locked, set_lease, send,
  Call,
}
use claimward_vpn_client.Helper.Enroll.{
  Env, Prepared, Target, target, ask, asked, allowed, prepare, enroll_locked, install,
  give_back_old, give_back_new, is_stale, is_enrollment, enroll_call,
}
use claimward_vpn_client.Helper.Renew.{
  modify, changed, lease_renewed, renewal_failed, drop_session, heartbeat_call,
}
use claimward_vpn_client.Helper.Requests.{
  tenants, listed, give_back_stopped, with_bearer, down, shutdown,
}
use claimward_vpn_client.Helper.Writes.{
  IsInner, set_lease-IsInner, with_bearer-IsInner, retried, retried-IsInner,
}
use claimward_vpn_client.Helper.Allowed.{allowed_sound, target_allowed}
use claimward_vpn_client.Helper.Steps.{
  Step, prepares, commits, heartbeats, renews, fails, drops, takes_bearer, lists, downs, shuts,
  Reach, here, next,
}
use claimward_vpn_client.Helper.OneTunnel.{
  IsIdle, IsHeld, OneTunnel, init-OneTunnel, stop-IsIdle, stop-OneTunnel, AgreesOn,
}

-- Room for the sessions made so far.
abbrev pub Fits : State → Type 0
Fits s = 2 * s.next < int64_mod

pub record Numbered (s : State) : Type 0 where
  pub idle_bound : s.sess ≡ none → s.gen ≤ 2 * s.next
  pub live_bound : (p : ℕ) → s.sess ≡ some p → s.gen < 2 * s.next
  pub older : (p : ℕ) (x : Session) → s.heap p ≡ some x → (0 < x.gen) × (x.gen ≤ s.gen)
  pub ended : (p : ℕ) (x : Session) → s.sess ≡ none → s.heap p ≡ some x → x.gen < s.gen
  pub distinct :
      (p q : ℕ) (x y : Session) → s.heap p ≡ some x → s.heap q ≡ some y → x.gen ≡ y.gen → p ≡ q

pub init-Numbered : Numbered init
init-Numbered = record {
  idle_bound = λ h. omega arith;
  live_bound = λ p h. cc;
  older = λ p x h. absurd (cc);
  ended = λ p x e h. absurd (cc);
  distinct = λ p q x y h. absurd (cc);
}

-- Every session of the stopped helper was one of the running helper's, under its number.
stop_heap :
    (s : State)
    → OneTunnel s
    → (p : ℕ) (x : Session) → (stop_locked s).heap p ≡ some x
    → (y : Session) × (s.heap p ≡ some y) × (y.gen ≡ x.gen)
unfolding stop_locked
stop_heap s v p x h = elim v.stage [
  | inl idle ↦ (x, ground arith, refl)
  | inr held ↦ elim (Bool-cases (held.0 == p)) [
    | inl same ↦ (held.1, ground arith, ground arith)
    | inr other ↦ (x, ground arith, refl)
  ]
]

-- The counter moves on past all of them.
stop_gen :
    (s : State)
    → OneTunnel s
    → Fits s
    → Numbered s
    → ((stop_locked s).next ≡ s.next)
      × ((stop_locked s).gen ≤ 2 * s.next)
      × (s.gen ≤ (stop_locked s).gen)
unfolding stop_locked
stop_gen s v f n = elim v.stage [
  | inl idle ↦ ground (arith, n.idle_bound idle.0)
  | inr held ↦ ground (arith, n.live_bound held.0 held.2)
]

stop_ended :
    (s : State)
    → OneTunnel s
    → Fits s
    → Numbered s
    → (p : ℕ) (y : Session) → s.heap p ≡ some y
    → y.gen < (stop_locked s).gen
unfolding stop_locked
stop_ended s v f n p y h = elim v.stage [
  | inl idle ↦ ground (arith, n.ended p y idle.0 h)
  | inr held ↦ ground (arith, n.live_bound held.0 held.2, n.older p y h)
]

pub stop-Numbered : {s : State} → OneTunnel s → Fits s → Numbered s → Numbered (stop_locked s)
stop-Numbered {s} v f n =
    let g = stop_gen s v f n in
    record {
      idle_bound = λ h. omega (arith, g);
      live_bound = λ p h. absurd (ground (arith, (stop-IsIdle v).0));
      older = λ p x h. let (y, e, same) = stop_heap s v p x h in omega (arith, n.older p y e, g);
      ended = λ p x e h.
          let (y, old, same) = stop_heap s v p x h in omega (arith, stop_ended s v f n p y old);
      distinct = λ p q x y hx hy e.
          let (x', ox, sx) = stop_heap s v p x hx in
          let (y', oy, sy) = stop_heap s v q y hy in n.distinct p q x' y' ox oy (omega arith);
    }
