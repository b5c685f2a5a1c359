-- ===== src/Helper/RenewLoop/Kept.antt =====
-- What the other goroutines of pkg/helper/helper.go leave of a session that a renewal loop sleeps on.
use mathlib.Core.Logic.{inl, inr}
use claimward_vpn_client.Common.{
  ℕ, ◌<◌, ◌==◌, ◌≡◌, refl, sym, ◌∙◌, ◌⊎◌, subst, String, Option, none, some, true, Bool-cases,
  arith, if◌then◌else◌,
}
use claimward_vpn_client.Errors.{Result, ok, err}
use claimward_vpn_client.Lease.{Time}
use claimward_vpn_client.Helper.State.{
  Server, Session, State, Tunnel, live, is_live, stop_locked, stop_at, stop_session, set_lease, put,
}
use claimward_vpn_client.Helper.Enroll.{
  Env, Prepared, prepare, give_back_new, enroll_locked, install, give_back_old, is_stale,
}
use claimward_vpn_client.Helper.Renew.{modify, changed, lease_renewed, renewal_failed, drop_session}
use claimward_vpn_client.Helper.Requests.{with_bearer, shutdown, tenants, down}
use claimward_vpn_client.Helper.Steps.{
  Step, prepares, commits, heartbeats, renews, fails, drops, takes_bearer, lists, starts_watch,
  downs, shuts,
}
use claimward_vpn_client.Helper.Stops.{stop_next}
use claimward_vpn_client.Helper.OneTunnel.Steps.{
  prepare-AgreesOn, tenants-AgreesOn, down-AgreesOn, give_back_old-AgreesOn, give_back_new-AgreesOn,
}
use claimward_vpn_client.Helper.Writes.{retried}

abbrev Heap : Type 0
Heap = ℕ → Option Session

-- A value waits in `wake`, or the lease is the same and no value has been taken.
abbrev pub Kept : Session → Session → Type 0
Kept x y = (y.wake ≡ true) ⊎ ((y.lease ≡ x.lease) × (y.wake ≡ x.wake))

abbrev pub Keeps : ℕ → Heap → Heap → Type 0
Keeps p h k = (x : Session) → h p ≡ some x → (y : Session) × (k p ≡ some y) × Kept x y

module _ (p : ℕ) where
  same_heap : (h k : Heap) → h ≡ k → Keeps p h k
  same_heap h k e x f = (x, (λ i. (sym e) i p) ∙ f, inr (refl, refl))

  Keeps-trans : (h k l : Heap) → Keeps p h k → Keeps p k l → Keeps p h l
  Keeps-trans h k l f g x e =
      let (y, ey, ky) = f x e in let (z, ez, kz) = g y ey in (z, ez, ground arith)

  -- One session is written.
  put-Keeps : (h : Heap) (q : ℕ) (z w : Session) → h q ≡ some z → Kept z w → Keeps p h (put h q w)
  put-Keeps h q z w e k x f = elim (Bool-cases (p == q)) [
    | inl at ↦
        let same : z ≡ x = ground (arith, at) in
        (w, ground (arith, at), subst (λ y. Kept y w) same k)
    | inr away ↦ (x, ground (arith, away), inr (refl, refl))
  ]

  stop_session-Keeps :
      (s : State) (q : ℕ) (o : Option Session)
      → s.heap q ≡ o
      → Keeps p s.heap (stop_session s q o).heap
  stop_session-Keeps s q none e = same_heap s.heap s.heap refl
  stop_session-Keeps s q (some old) e =
      put-Keeps s.heap q old (record old { cancelled = true }) e (inr (refl, refl))

  stop_at-Keeps : (s : State) (o : Option ℕ) → Keeps p s.heap (stop_at s o).heap
  stop_at-Keeps s none = same_heap s.heap s.heap refl
  stop_at-Keeps s (some q) = stop_session-Keeps s q (s.heap q) refl

  stop-Keeps : (s : State) → Keeps p s.heap (stop_locked s).heap
  unfolding stop_locked
  stop-Keeps s = stop_at-Keeps s s.sess

  changed-Keeps :
      (s : State) (q : ℕ) (f : Session → Session) (o : Option Session)
      → ((x : Session) → Kept x (f x))
      → s.heap q ≡ o
      → Keeps p s.heap (changed s q f o).heap
  changed-Keeps s q f none k e = same_heap s.heap s.heap refl
  changed-Keeps s q f (some z) k e = put-Keeps s.heap q z (f z) e (k z)

  modify-Keeps :
      (s : State) (q : ℕ) (f : Session → Session)
      → ((x : Session) → Kept x (f x))
      → Keeps p s.heap (modify s q f).heap
  modify-Keeps s q f k = changed-Keeps s q f (s.heap q) k refl

  install-Keeps :
      (srv : Server) (now : Time) (s : State) (q : Prepared) (r : Result Tunnel)
      → p < s.next
      → Keeps p s.heap (install srv now s q r).0.heap
  install-Keeps srv now s q (err e) lt = same_heap s.heap s.heap refl
  install-Keeps srv now s q (ok tun) lt = λ x h. (x, ground (arith, h, lt), inr (refl, refl))

  drop-Keeps : (s : State) (q : ℕ) (why : String) → Keeps p s.heap (drop_session s q why).heap
  unfolding drop_session
  drop-Keeps s q why = elim (Bool-cases (is_live s q)) [
    | inl at ↦
        subst
          (λ b. Keeps p s.heap (if b then record (stop_locked s) { last_err = why } else s).heap)
          (sym at) (stop-Keeps s)
    | inr past ↦ rw past (same_heap s.heap s.heap refl)
  ]

  enroll_locked-Keeps :
      (srv : Server) (env : Env) (s : State) (gen : ℕ) (q : Prepared)
      → p < s.next
      → Keeps p s.heap (enroll_locked srv env s gen q).0.heap
  unfolding enroll_locked
  enroll_locked-Keeps srv env s gen q lt = elim (Bool-cases (is_stale s gen)) [
    | inl stale ↦ rw stale (
        same_heap s.heap (give_back_new s q.target (live s)).heap
          (give_back_new-AgreesOn s q.target (live s)).0)
    | inr current ↦
        let agree = give_back_old-AgreesOn (stop_locked s) q.target (live s) in
        let given = give_back_old (stop_locked s) q.target (live s) in
        let end = (install srv env.now given q (env.bring_up q.config)).0.heap in
        rw current (
          Keeps-trans s.heap given.heap end
            (Keeps-trans s.heap (stop_locked s).heap given.heap (stop-Keeps s)
              (same_heap (stop_locked s).heap given.heap agree.0))
            (install-Keeps srv env.now given q (env.bring_up q.config)
              (subst (λ n. p < n) (sym (stop_next s) ∙ agree.1) lt)))
  ]

  -- Every step of every goroutine leaves an allocated session such.
  pub Step-Keeps : {srv : Server} {s t : State} → Step srv s t → p < s.next → Keeps p s.heap t.heap
  unfolding lease_renewed renewal_failed shutdown set_lease
  Step-Keeps {srv} (prepares env s spec) lt =
      same_heap s.heap (prepare srv env s spec).0.heap (prepare-AgreesOn srv env s spec).0
  Step-Keeps {srv} (commits before env s₀ s spec gen q e) lt =
      enroll_locked-Keeps srv env s gen q lt
  Step-Keeps (heartbeats s q sess e) lt = same_heap s.heap s.heap refl
  Step-Keeps {srv} (renews now s q lease) lt =
      modify-Keeps s q (λ x. set_lease srv now x lease) (λ x. inl refl)
  Step-Keeps {srv} (fails now s q e) lt = modify-Keeps s q (retried srv now) (λ x. inr (refl, refl))
  Step-Keeps (drops s q why) lt = drop-Keeps s q why
  Step-Keeps (takes_bearer s q bearer) lt =
      modify-Keeps s q (with_bearer bearer) (λ x. inr (refl, refl))
  Step-Keeps {srv} (lists env s spec) lt =
      same_heap s.heap (tenants srv env s spec).0.heap (tenants-AgreesOn srv env s spec).0
  Step-Keeps (starts_watch before s₀ s spec q r sess e b h g) lt = same_heap s.heap s.heap refl
  Step-Keeps (downs s) lt =
      Keeps-trans s.heap (stop_locked s).heap (down s).0.heap (stop-Keeps s)
        (same_heap (stop_locked s).heap (down s).0.heap (down-AgreesOn s).0)
  Step-Keeps (shuts s) lt = stop-Keeps s
