-- ===== src/Helper/Handlers.antt =====
-- The whole handlers of pkg/helper/helper.go as sequences of the critical sections' steps.
use claimward_vpn_client.Common.{
  ℕ, ◌≡◌, refl, ap, subst, String, Option, none, some, Bool, true, Bool-cases, inl, inr, not, ◌&&◌,
  str_eq, is_blank, ◌+++◌,
}
use claimward_vpn_client.Errors.{Result, ok, err, error_text}
use claimward_vpn_client.Wire.{ConnectSpec, HeartbeatResponse, Request, Response}
use claimward_vpn_client.Helper.State.{Server, Session, State, send}
use claimward_vpn_client.Helper.Enroll.{
  Env, Prepared, Outcome, prepare, enroll_locked, enroll, committed, replied, superseded, connected,
  refused,
}
use claimward_vpn_client.Helper.Renew.{
  modify, heartbeat_call, settled, enroll_again, has_status, renewal_answered, renew_session, renew,
}
use claimward_vpn_client.Helper.Requests.{
  connect, with_bearer, with_reply, renewed_now, renew_now, dispatch, handle, action_connect,
  action_tenants, action_renew, action_down, action_status,
}
use claimward_vpn_client.Helper.Steps.{
  Step, prepares, commits, heartbeats, renews, fails, drops, takes_bearer, lists, downs, Reach,
  here, next,
}

pub Reach-trans : {srv : Server} {s t u : State} → Reach srv s t → Reach srv t u → Reach srv s u
Reach-trans r here = r
Reach-trans r (next q st) = next (Reach-trans r q) st

replied_state : (x : State × Outcome) → (replied x).0 ≡ x.0
replied_state (s, connected) = refl
replied_state (s, refused why) = refl

module _ (srv : Server) (env : Env) where
  committed-Reach :
      (s : State) (spec : Option ConnectSpec) (gen : ℕ) (x : State × Result Prepared)
      → prepare srv env s spec ≡ x
      → Reach srv s (committed srv env gen x).0
  committed-Reach s spec gen (t, err e) eq =
      next here (subst (λ y. Step srv s y.0) eq (prepares env s spec))
  committed-Reach s spec gen (t, ok p) eq = rw (replied_state (enroll_locked srv env t gen p)) (
      next (next here (subst (λ y. Step srv s y.0) eq (prepares env s spec)))
        (commits env env s t spec gen p (ap (λ y. y.1) eq)))

  pub enroll-Reach :
      (s : State) (spec : Option ConnectSpec) (gen : ℕ) → Reach srv s (enroll srv env s spec gen).0
  unfolding enroll
  enroll-Reach s spec gen = committed-Reach s spec gen (prepare srv env s spec) refl

  settled-Reach :
      (s : State) (p : ℕ) (x : State × Response) → Reach srv s x.0 → Reach srv s (settled p x)
  settled-Reach s p (t, r) h =
      elim (Bool-cases (not r.succeeded && not (str_eq r.error superseded))) [
        | inl failed ↦ rw failed (next h (drops t p ("re-enrollment failed: " +++ r.error)))
        | inr fine ↦ rw fine h
      ]

  answered-Reach :
      (s : State) (p : ℕ) (sess : Session) (r : Result HeartbeatResponse)
      → Reach srv s (renewal_answered srv env s p sess r).0
  unfolding renewal_answered enroll_again
  answered-Reach s p sess (ok resp) = next here (renews env.now s p resp.lease_expires_at)
  answered-Reach s p sess (err e) = elim (Bool-cases (has_status e 404)) [
    | inl forgotten ↦ rw forgotten (
        settled-Reach s p (enroll srv env s (some sess.spec) sess.gen)
          (enroll-Reach s (some sess.spec) sess.gen))
    | inr known ↦ elim (Bool-cases (has_status e 403)) [
      | inl forbidden ↦
          rw (known, forbidden)
            (next here (drops s p ("the server refused to renew: " +++ error_text e)))
      | inr other ↦ rw (known, other) (next here (fails env.now s p e))
    ]
  ]

  renew_session-Reach :
      (background : Bool) (s : State) (p : ℕ) (o : Option Session)
      → s.heap p ≡ o
      → Reach srv s (renew_session srv env background s p o).0
  renew_session-Reach background s p none eq = here
  renew_session-Reach background s p (some sess) eq =
      let sent : Reach srv s (send s (heartbeat_call sess)) = next here (heartbeats s p sess eq) in
      elim (Bool-cases (not background && sess.cancelled)) [
        | inl ended ↦ rw ended sent
        | inr running ↦
            rw running (Reach-trans sent (answered-Reach (send s (heartbeat_call sess)) p sess _))
      ]

  -- A round of a renewal loop, under either context, moves the helper by a sequence of steps.
  pub renew-Reach :
      (background : Bool) (s : State) (p : ℕ) → Reach srv s (renew srv env background s p).0
  unfolding renew
  renew-Reach background s p = renew_session-Reach background s p (s.heap p) refl

  with_reply_state : (x : State × Bool) → (with_reply x).0 ≡ x.0
  with_reply_state (s, again) = refl

  renewed_now-Reach :
      (s : State) (bearer : String) (o : Option ℕ) → Reach srv s (renewed_now srv env s bearer o).0
  renewed_now-Reach s bearer none = here
  renewed_now-Reach s bearer (some p) =
      rw (with_reply_state (renew srv env true (modify s p (with_bearer bearer)) p)) (
        Reach-trans (next here (takes_bearer s p bearer))
          (renew-Reach true (modify s p (with_bearer bearer)) p))

  renew_now-Reach :
      (s : State) (spec : Option ConnectSpec) → Reach srv s (renew_now srv env s spec).0
  unfolding renew_now
  renew_now-Reach s none = here
  renew_now-Reach s (some spec) = elim (Bool-cases (is_blank spec.bearer)) [
    | inl blank ↦ rw blank here
    | inr given ↦ rw given (renewed_now-Reach s spec.bearer s.sess)
  ]

  -- The answer to any request, well formed or not, moves the helper by a sequence of steps.
  pub handle-Reach : (s : State) (req : Result Request) → Reach srv s (handle srv env s req).0
  unfolding handle dispatch connect
  handle-Reach s (err e) = here
  handle-Reach s (ok req) = elim (Bool-cases (str_eq req.action action_connect)) [
    | inl c ↦ rw c (enroll-Reach s req.connect 0)
    | inr nc ↦ elim (Bool-cases (str_eq req.action action_tenants)) [
      | inl t ↦ rw (nc, t) (next here (lists env s req.connect))
      | inr nt ↦ elim (Bool-cases (str_eq req.action action_renew)) [
        | inl r ↦ rw (nc, nt, r) (renew_now-Reach s req.connect)
        | inr nr ↦ elim (Bool-cases (str_eq req.action action_down)) [
          | inl d ↦ rw (nc, nt, nr, d) (next here (downs s))
          | inr nd ↦ elim (Bool-cases (str_eq req.action action_status)) [
            | inl st ↦ rw (nc, nt, nr, nd, st) here
            | inr ns ↦ rw (nc, nt, nr, nd, ns) here
          ]
        ]
      ]
    ]
  ]
