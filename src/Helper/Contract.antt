-- ===== src/Helper/Contract.antt =====
-- What the helper of pkg/helper/helper.go promises of its tunnel, and that its critical sections keep it.
use claimward_vpn_client.Common.{
  ℕ, ◌==◌, ==_iff, ◌≡◌, ◌≢◌, refl, sym, ◌∙◌, ap, subst, String, List, [], ◌∷◌, Option, none, some,
  Bool-cases, inl, inr, arith,
}
use claimward_vpn_client.Errors.{Error, Result, ok, err}
use claimward_vpn_client.Lease.{Time}
use claimward_vpn_client.Helper.State.{
  Server, Session, State, Tunnel, live, deref, next_gen, is_live, stop_locked, set_lease, put,
}
use claimward_vpn_client.Helper.Enroll.{
  Env, Prepared, new_session, prepare, enroll_locked, install, give_back_old, give_back_new,
  is_stale,
}
use claimward_vpn_client.Helper.Renew.{modify, changed, lease_renewed, renewal_failed, drop_session}
use claimward_vpn_client.Helper.Requests.{with_bearer, tenants, down, shutdown}
use claimward_vpn_client.Helper.Steps.{
  Step, prepares, commits, heartbeats, renews, fails, drops, takes_bearer, lists, starts_watch,
  downs, shuts,
}
use claimward_vpn_client.Helper.OneTunnel.{OneTunnel, AgreesOn, stop-IsIdle}
use claimward_vpn_client.Helper.OneTunnel.Steps.{
  prepare-AgreesOn, tenants-AgreesOn, down-AgreesOn, give_back_old-AgreesOn, give_back_new-AgreesOn,
  Step-OneTunnel,
}
use claimward_vpn_client.Helper.Writes.{
  IsInner, set_lease-IsInner, with_bearer-IsInner, retried, retried-IsInner,
}

-- The helper as its users see it: without a tunnel, or with one to a server.
pub data View : Type 0 where
  off : View
  on : (tun : Tunnel) (server : String) → View

abbrev view_of : Option Session → View
view_of none = off
view_of (some x) = on x.tun x.server

abbrev pub view : State → View
view s = view_of (live s)

abbrev pub tunnels : View → List Tunnel
tunnels off = []
tunnels (on tun server) = tun ∷ []

-- What a critical section may do to the view: an enrollment of a generation at a server, with what came
-- of its tunnel; the end of one session; a disconnect or a shutdown; anything else.
pub data Cause : Type 0 where
  enrolling : (gen : ℕ) (server : String) (brought : Result Tunnel) → Cause
  dropping : Cause
  stopping : Cause
  minding : Cause

pub data Moves : Cause → View → View → Type 0 where
  late :
      (gen : ℕ) (server : String) (r : Result Tunnel) (v : View)
      → gen ≢ 0
      → Moves (enrolling gen server r) v v
  rose :
      (gen : ℕ) (server : String) (tun : Tunnel) (v : View)
      → Moves (enrolling gen server (ok tun)) v (on tun server)
  fell :
      (gen : ℕ) (server : String) (e : Error) (v : View)
      → Moves (enrolling gen server (err e)) v off
  spared : (v : View) → Moves dropping v v
  dropped : (v : View) → Moves dropping v off
  stopped : (v : View) → Moves stopping v off
  minded : (v : View) → Moves minding v v

abbrev pub cause : {srv : Server} {s t : State} → Step srv s t → Cause
cause (prepares env s spec) = minding
cause (commits before env s₀ s spec gen q e) = enrolling gen q.target.server (env.bring_up q.config)
cause (heartbeats s p sess e) = minding
cause (renews now s p lease) = minding
cause (fails now s p e) = minding
cause (drops s p why) = dropping
cause (takes_bearer s p bearer) = minding
cause (lists env s spec) = minding
cause (starts_watch before s₀ s spec q p sess e b h g) = minding
cause (downs s) = stopping
cause (shuts s) = stopping

-- The view reads only the heap and the live session's place on it.
agreed : (s t : State) → AgreesOn s t → view s ≡ view t
agreed s t e = ground (arith, e.0, e.2)

idle_view : (s : State) → s.sess ≡ none → view s ≡ off
idle_view s e = rw e refl

-- A write that leaves a session's tunnel and server alone.
view-put :
    (heap : ℕ → Option Session) (q : ℕ) (x y : Session) (o : Option ℕ)
    → heap q ≡ some x
    → view_of (some y) ≡ view_of (some x)
    → view_of (deref (put heap q y) o) ≡ view_of (deref heap o)
view-put heap q x y none e k = refl
view-put heap q x y (some p) e k = elim (Bool-cases (q == p)) [
  | inl at ↦ let same : q ≡ p = (==_iff q p).0 at in rw at (k ∙ ap view_of (sym e ∙ ap heap same))
  | inr away ↦ rw away refl
]

view-changed :
    (s : State) (q : ℕ) (f : Session → Session) (o : Option Session)
    → IsInner f
    → s.heap q ≡ o
    → view (changed s q f o) ≡ view s
view-changed s q f none i e = refl
view-changed s q f (some x) i e =
    view-put s.heap q x (f x) s.sess e
      (ap (λ u. on u (f x).server) (i.tun_kept x) ∙ ap (λ v. on x.tun v) (i.server_kept x))

view-modify : (s : State) (q : ℕ) (f : Session → Session) → IsInner f → view (modify s q f) ≡ view s
view-modify s q f i = view-changed s q f (s.heap q) i refl

stopped_view : {s : State} → OneTunnel s → view (stop_locked s) ≡ off
stopped_view {s} v = idle_view (stop_locked s) (stop-IsIdle v).0

install-Moves :
    (srv : Server) (now : Time) (s : State) (q : Prepared) (gen : ℕ) (v : View) (r : Result Tunnel)
    → view s ≡ off
    → Moves (enrolling gen q.target.server r) v (view (install srv now s q r).0)
unfolding set_lease
install-Moves srv now s q gen v (err e) f =
    subst (Moves (enrolling gen q.target.server (err e)) v) (sym f) (fell gen q.target.server e v)
install-Moves srv now s q gen v (ok tun) f =
    let new = new_session srv now (next_gen s.gen) q tun in
    let here : put s.heap s.next new s.next ≡ some new = ground arith in
    subst (λ o. Moves (enrolling gen q.target.server (ok tun)) v (view_of o)) (sym here)
      (rose gen q.target.server tun v)

enroll-Moves :
    (srv : Server) (env : Env) (s : State) (gen : ℕ) (q : Prepared)
    → OneTunnel s
    → Moves
        (enrolling gen q.target.server (env.bring_up q.config))
        (view s)
        (view (enroll_locked srv env s gen q).0)
unfolding enroll_locked
enroll-Moves srv env s gen q v = elim (Bool-cases (is_stale s gen)) [
  | inl stale ↦
      let same =
        agreed s (give_back_new s q.target (live s)) (give_back_new-AgreesOn s q.target (live s)) in
      let again : gen ≢ 0 = λ z. ground arith in
      rw stale (
        subst (Moves (enrolling gen q.target.server (env.bring_up q.config)) (view s)) same
          (late gen q.target.server (env.bring_up q.config) (view s) again))
  | inr current ↦
      let given = give_back_old (stop_locked s) q.target (live s) in
      let agree = give_back_old-AgreesOn (stop_locked s) q.target (live s) in
      let empty = sym (agreed (stop_locked s) given agree) ∙ stopped_view v in
      rw current (install-Moves srv env.now given q gen (view s) (env.bring_up q.config) empty)
]

drop-Moves :
    (s : State) (p : ℕ) (why : String)
    → OneTunnel s
    → Moves dropping (view s) (view (drop_session s p why))
unfolding drop_session
drop-Moves s p why v = elim (Bool-cases (is_live s p)) [
  | inl at ↦ rw at (subst (Moves dropping (view s)) (sym (stopped_view v)) (dropped (view s)))
  | inr past ↦ rw past (spared (view s))
]

minds : (s t : State) → view t ≡ view s → Moves minding (view s) (view t)
minds s t e = subst (Moves minding (view s)) (sym e) (minded (view s))

stops : (s t : State) → view t ≡ off → Moves stopping (view s) (view t)
stops s t e = subst (Moves stopping (view s)) (sym e) (stopped (view s))

moves :
    {srv : Server} {s t : State} (st : Step srv s t)
    → OneTunnel s
    → Moves (cause st) (view s) (view t)
unfolding lease_renewed renewal_failed shutdown
moves {srv} (prepares env s spec) v =
    minds s (prepare srv env s spec).0
      (sym (agreed s (prepare srv env s spec).0 (prepare-AgreesOn srv env s spec)))
moves {srv} (commits before env s₀ s spec gen q e) v = enroll-Moves srv env s gen q v
moves (heartbeats s p sess e) v = minded (view s)
moves {srv} (renews now s p lease) v =
    minds s (lease_renewed srv now s p lease)
      (view-modify s p (λ x. set_lease srv now x lease) (set_lease-IsInner srv now lease))
moves {srv} (fails now s p e) v =
    minds s (renewal_failed srv now s p e)
      (view-modify s p (retried srv now) (retried-IsInner srv now))
moves (drops s p why) v = drop-Moves s p why v
moves (takes_bearer s p bearer) v =
    minds s (modify s p (with_bearer bearer))
      (view-modify s p (with_bearer bearer) (with_bearer-IsInner bearer))
moves {srv} (lists env s spec) v =
    minds s (tenants srv env s spec).0
      (sym (agreed s (tenants srv env s spec).0 (tenants-AgreesOn srv env s spec)))
moves (starts_watch before s₀ s spec q p sess e b h g) v = minded (view s)
moves (downs s) v =
    stops s (down s).0 (sym (agreed (stop_locked s) (down s).0 (down-AgreesOn s)) ∙ stopped_view v)
moves (shuts s) v = stops s (shutdown s) (stopped_view v)

-- In a helper with at most one tunnel the tunnels that are up are the view's.
tunnels_up : {s : State} → OneTunnel s → s.up ≡ tunnels (view s)
tunnels_up {s} v = elim v.stage [
  | inl idle ↦ ground (arith, idle.0, idle.1)
  | inr held ↦ ground (arith, held.2, held.3, held.6)
]

-- Each step of a helper with at most one tunnel does to what its users see what its cause allows, and
-- nothing else: only an enrollment brings a tunnel up, the one that its environment made and to the
-- server that it asked; only an enrollment whose tunnel failed, the end of a session, a disconnect or a
-- shutdown leaves none; only a re-enrollment may come too late; a renewal, its failure, a fresh bearer
-- and a list of tenants change nothing. And the tunnels that are up are then those seen.
pub Step-Moves :
    {srv : Server} {s t : State} (st : Step srv s t)
    → OneTunnel s
    → Moves (cause st) (view s) (view t) × (t.up ≡ tunnels (view t))
Step-Moves st v = (moves st v, tunnels_up (Step-OneTunnel st v))
