-- ===== src/Helper/Loop.antt =====
-- What a round of the renewal loop of pkg/helper/helper.go leaves, against whether the loop goes on.
pub mod Errors
use claimward_vpn_client.Common.{
  ℕ, ◌<◌, ◌≡◌, refl, sym, ◌∙◌, ap, String, Option, none, some, Bool, true, false, arith, ◌+++◌, ◌≢◌,
  ◌⊎◌, str_eq, Bool-cases, inl, inr, not, ◌&&◌,
}
use claimward_vpn_client.Errors.{Error, Result, ok, err, error_text}
use claimward_vpn_client.Wire.{ConnectSpec, HeartbeatResponse, Response}
use claimward_vpn_client.Helper.State.{
  Server, Session, State, is_live, stop_locked, set_lease, live, Tunnel,
}
use claimward_vpn_client.Helper.Enroll.{
  Env, Prepared, Outcome, prepare, enroll_locked, enroll, committed, replied, superseded, is_stale,
  install, give_back_old, failure, status, connected, refused,
}
use claimward_vpn_client.Lease.{Time}
use claimward_vpn_client.Helper.Renew.{
  modify, changed, lease_renewed, renewal_failed, drop_session, settled, enroll_again, has_status,
  renewal_answered,
}
use claimward_vpn_client.Helper.OneTunnel.{
  IsIdle, OneTunnel, stop-IsIdle, stop-OneTunnel, AgreesOn, restate,
}
use claimward_vpn_client.Helper.OneTunnel.Steps.{prepare-AgreesOn, give_back_old-AgreesOn}
use claimward_vpn_client.Helper.Stops.{drop_session-past, stop_next}
use claimward_vpn_client.Helper.Writes.{retried}
use Errors.{Clean, superseded-Apart, prepare-Clean}

changed_kept :
    (s : State) (q : ℕ) (f : Session → Session) (o : Option Session)
    → ((changed s q f o).sess ≡ s.sess) × ((changed s q f o).up ≡ s.up)
changed_kept s q f none = (refl, refl)
changed_kept s q f (some x) = (refl, refl)

drop_past : (s : State) (p : ℕ) (why : String) → s.sess ≢ some p → drop_session s p why ≡ s
unfolding drop_session
drop_past s p why ne = elim (Bool-cases (is_live s p)) [
  | inl at ↦ absurd (ne (ground arith))
  | inr past ↦ rw past refl
]

settled_past : (p : ℕ) (x : State × Response) → x.0.sess ≢ some p → (settled p x).sess ≢ some p
settled_past p (t, r) ne = elim (Bool-cases (not r.succeeded && not (str_eq r.error superseded))) [
  | inl failed ↦ rw (failed, drop_past t p ("re-enrollment failed: " +++ r.error) ne) ne
  | inr fine ↦ rw fine ne
]

install_moves :
    (srv : Server) (now : Time) (s : State) (q : Prepared) (r : Result Tunnel) (p : ℕ)
    → s.sess ≡ none
    → p ≢ s.next
    → (install srv now s q r).0.sess ≢ some p
install_moves srv now s q (err e) p h ne l = ground arith
install_moves srv now s q (ok tun) p h ne l = ground arith

replied_sess : (x : State × Outcome) → (replied x).0.sess ≡ x.0.sess
replied_sess (s, connected) = refl
replied_sess (s, refused why) = refl

enroll_locked_moves :
    (srv : Server) (env : Env) (s : State) (gen : ℕ) (q : Prepared) (p : ℕ)
    → OneTunnel s
    → is_stale s gen ≡ false
    → p ≢ (give_back_old (stop_locked s) q.target (live s)).next
    → (enroll_locked srv env s gen q).0.sess ≢ some p
unfolding enroll_locked
enroll_locked_moves srv env s gen q p v current ne =
    let agree = give_back_old-AgreesOn (stop_locked s) q.target (live s) in
    rw current (
      install_moves srv env.now (give_back_old (stop_locked s) q.target (live s)) q
        (env.bring_up q.config) p (sym agree.2 ∙ (stop-IsIdle v).0) ne)

module _ (srv : Server) (env : Env) {s : State} (p : ℕ) (sess : Session) (v : OneTunnel s) where
  -- The live session's own generation is the current one.
  current :
      (u : State)
      → s.gen ≡ u.gen
      → s.sess ≡ some p
      → s.heap p ≡ some sess
      → is_stale u sess.gen ≡ false
  current u g l h = elim v.stage [ inl idle ↦ absurd (ground arith) | inr held ↦ ground arith ]

  committed_past :
      (x : State × Result Prepared)
      → AgreesOn s x.0
      → Clean superseded x.1
      → s.sess ≡ some p
      → s.heap p ≡ some sess
      → (settled p (committed srv env sess.gen x)).sess ≢ some p
  committed_past (u, err e) agree clean l h =
      let w : OneTunnel u = restate {t = u} agree v in
      rw clean (drop_session-past p ("re-enrollment failed: " +++ error_text e) w)
  committed_past (u, ok q) agree clean l h =
      let w : OneTunnel u = restate {t = u} agree v in
      let gone = give_back_old-AgreesOn (stop_locked u) q.target (live u) in
      let here : p < s.next = v.allocated p sess h in
      settled_past p (committed srv env sess.gen (u, ok q)) λ e.
        enroll_locked_moves srv env u sess.gen q p w (current u agree.3 l h)
          (omega (arith, here, agree.1, stop_next u, gone.1))
          (sym (replied_sess (enroll_locked srv env u sess.gen q)) ∙ e)

  -- Enrolling again replaces the session, or ends it.
  enroll_again_past :
      s.sess ≡ some p → s.heap p ≡ some sess → (enroll_again srv env s p sess).sess ≢ some p
  unfolding enroll_again enroll
  enroll_again_past l h =
      committed_past (prepare srv env s (some sess.spec))
        (prepare-AgreesOn srv env s (some sess.spec))
        (prepare-Clean superseded superseded-Apart srv env s (some sess.spec)) l h

  -- In a helper with at most one tunnel, when the renewal loop of the live session goes on, that
  -- session is live still and the tunnels up are the same; when the loop ends, the session is live
  -- no more.
  pub renewal_answered_lem :
      (r : Result HeartbeatResponse)
      → s.sess ≡ some p
      → s.heap p ≡ some sess
      → let (t, again) = renewal_answered srv env s p sess r in
        ((again ≡ true) × (t.sess ≡ some p) × (t.up ≡ s.up)) ⊎ ((again ≡ false) × (t.sess ≢ some p))
  unfolding renewal_answered lease_renewed renewal_failed
  renewal_answered_lem (ok resp) l h =
      let kept = changed_kept s p (λ x. set_lease srv env.now x resp.lease_expires_at) (s.heap p) in
      inl (refl, kept.0 ∙ l, kept.1)
  renewal_answered_lem (err e) l h = elim (Bool-cases (has_status e 404)) [
    | inl forgotten ↦ rw forgotten (inr (refl, enroll_again_past l h))
    | inr known ↦ elim (Bool-cases (has_status e 403)) [
      | inl forbidden ↦
          rw (known, forbidden)
            (inr (refl, drop_session-past p ("the server refused to renew: " +++ error_text e) v))
      | inr other ↦
          let kept = changed_kept s p (retried srv env.now) (s.heap p) in
          rw (known, other) (inl (refl, kept.0 ∙ l, kept.1))
    ]
  ]
