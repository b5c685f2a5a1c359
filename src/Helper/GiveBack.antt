-- ===== src/Helper/GiveBack.antt =====
-- Which enrollments `enroll` of pkg/helper/helper.go gives back to the server.
use claimward_vpn_client.Common.{
  ℕ, ◌≡◌, refl, sym, ◌∙◌, subst, String, List, ◌∷◌, Option, none, some, true, false, Bool-cases,
  inl, inr, ◌⊎◌, arith, eq_iff, bytes_eq_iff,
}
use claimward_vpn_client.Errors.{Result, ok, err}
use claimward_vpn_client.Lease.{Time}
use claimward_vpn_client.Wire.{Key}
use claimward_vpn_client.Helper.State.{
  Server, Session, State, Tunnel, Call, gives_back, live, stop_locked, set_lease, send,
}
use claimward_vpn_client.Helper.Enroll.{
  Env, Target, Prepared, enroll_locked, install, give_back_old, give_back_new, is_stale,
  is_enrollment, give_back_call,
}
use claimward_vpn_client.Helper.OneTunnel.{OneTunnel, stop-IsIdle}
use claimward_vpn_client.Helper.Configured.{stop_sent}

is_enrollment_iff :
    (sess : Session) (server : String) (key : Key)
    → is_enrollment sess server key ≡ true
    → (sess.server ≡ server) × (sess.pub_key ≡ key)
is_enrollment_iff sess server key h =
    ground (arith, eq_iff sess.server server, bytes_eq_iff sess.pub_key key)

is_enrollment-true :
    (sess : Session) (server : String) (key : Key)
    → sess.server ≡ server
    → sess.pub_key ≡ key
    → is_enrollment sess server key ≡ true
is_enrollment-true sess server key e k =
    ground (arith, eq_iff sess.server server, bytes_eq_iff sess.pub_key key)

-- A state in which nothing was given back since `calls`, or one enrollment that no session live now
-- is.
abbrev pub Spares : State → List Call → Type 0
Spares t calls =
    (t.sent ≡ calls)
    ⊎ ((server bearer : String) × (key : Key) × (t.sent ≡ gives_back server bearer key ∷ calls)
        × ((cur : Session) → live t ≡ some cur → is_enrollment cur server key ≡ false))

give_back_new-Spares :
    (s : State) (t : Target) (o : Option Session) → live s ≡ o → Spares (give_back_new s t o) s.sent
give_back_new-Spares s t none e =
    inr (t.server, t.spec.bearer, t.pair.public, refl, λ cur h. absurd (cc))
give_back_new-Spares s t (some cur) e =
    elim (Bool-cases (is_enrollment cur t.server t.pair.public)) [
      | inl same ↦ rw same (inl refl)
      | inr other ↦
          rw other
            (inr (t.server, t.spec.bearer, t.pair.public, refl, λ c h. ground (arith, e, other)))
    ]

install_sent :
    (srv : Server) (now : Time) (s : State) (p : Prepared) (r : Result Tunnel)
    → (install srv now s p r).0.sent ≡ s.sent
install_sent srv now s p (err e) = refl
install_sent srv now s p (ok tun) = refl

-- The session that is live after an enrollment is that enrollment.
install-live :
    (srv : Server) (now : Time) (s : State) (p : Prepared) (r : Result Tunnel) (cur : Session)
    → s.sess ≡ none
    → live (install srv now s p r).0 ≡ some cur
    → (cur.server ≡ p.target.server) × (cur.pub_key ≡ p.target.pair.public)
unfolding set_lease
install-live srv now s p (err e) cur h l = absurd (ground arith)
install-live srv now s p (ok tun) cur h l = ground arith

not_enrollment :
    (cur old : Session) (server : String) (key : Key)
    → cur.server ≡ server
    → cur.pub_key ≡ key
    → is_enrollment old server key ≡ false
    → is_enrollment cur old.server old.pub_key ≡ false
not_enrollment cur old server key e k h =
    elim (Bool-cases (is_enrollment cur old.server old.pub_key)) [
      | inl same ↦
          let (es, ek) = is_enrollment_iff cur old.server old.pub_key same in
          let again = is_enrollment-true old server key (sym es ∙ e) (sym ek ∙ k) in
          absurd (cc (sym again ∙ h))
      | inr other ↦ other
    ]

install-Spares :
    (srv : Server) (now : Time) (s : State) (p : Prepared) (o : Option Session) (r : Result Tunnel)
    → s.sess ≡ none
    → Spares (install srv now (give_back_old s p.target o) p r).0 s.sent
install-Spares srv now s p none r h = inl (install_sent srv now s p r)
install-Spares srv now s p (some old) r h =
    elim (Bool-cases (is_enrollment old p.target.server p.target.pair.public)) [
      | inl same ↦ rw same (inl (install_sent srv now s p r))
      | inr other ↦
          let u = send s (give_back_call old) in
          rw other (
            inr (
              old.server,
              old.spec.bearer,
              old.pub_key,
              install_sent srv now u p r,
              λ cur l.
                  let (e, k) = install-live srv now u p r cur h l in
                  not_enrollment cur old p.target.server p.target.pair.public e k other,
            ))
    ]

-- In a helper with at most one tunnel, an enrollment under the lock gives back nothing, or one
-- enrollment that is not that of the session live when it is done.
pub enroll_locked-Spares :
    (srv : Server) (env : Env) (s : State) (gen : ℕ) (p : Prepared)
    → OneTunnel s
    → Spares (enroll_locked srv env s gen p).0 s.sent
unfolding enroll_locked
enroll_locked-Spares srv env s gen p v = elim (Bool-cases (is_stale s gen)) [
  | inl stale ↦ rw stale (give_back_new-Spares s p.target (live s) refl)
  | inr current ↦ rw current (
      subst
        (λ calls.
          Spares
            (install srv env.now (give_back_old (stop_locked s) p.target (live s)) p
              (env.bring_up p.config)).0
            calls)
        (stop_sent s)
        (install-Spares srv env.now (stop_locked s) p (live s) (env.bring_up p.config)
          (stop-IsIdle v).0))
]
