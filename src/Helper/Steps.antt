-- ===== src/Helper/Steps.antt =====
-- The helper's goroutines interleaved, at the grain of pkg/helper/helper.go's critical sections.
--
-- A request's handler, a renewal loop or a re-enrollment runs as a sequence of these steps, with the
-- steps of the others between. What a goroutine read before, and what the outside answered, are
-- arguments, so that the relation has every interleaving of the program (and more: a step may come
-- with arguments that no goroutine holds).
use claimward_vpn_client.Common.{ℕ, ◌≡◌, String, Option, some, false, is_blank}
use claimward_vpn_client.Errors.{Error, ok}
use claimward_vpn_client.Lease.{Time}
use claimward_vpn_client.Wire.{ConnectSpec}
use claimward_vpn_client.Helper.State.{Server, Session, State, send}
use claimward_vpn_client.Helper.Enroll.{Env, Prepared, prepare, enroll_locked, watch_call}
use claimward_vpn_client.Helper.Renew.{
  modify, heartbeat_call, lease_renewed, renewal_failed, drop_session,
}
use claimward_vpn_client.Helper.Requests.{tenants, with_bearer, down, shutdown}

pub data Step (srv : Server) : State → State → Type 0 where
  prepares :
      (env : Env) (s : State) (spec : Option ConnectSpec) → Step srv s (prepare srv env s spec).0
  commits :
      (before env : Env) (s₀ s : State) (spec : Option ConnectSpec) (gen : ℕ) (p : Prepared)
      → (prepare srv before s₀ spec).1 ≡ ok p
      → Step srv s (enroll_locked srv env s gen p).0
  heartbeats :
      (s : State) (p : ℕ) (sess : Session)
      → s.heap p ≡ some sess
      → Step srv s (send s (heartbeat_call sess))
  renews :
      (now : Time) (s : State) (p : ℕ) (lease : Time) → Step srv s (lease_renewed srv now s p lease)
  fails : (now : Time) (s : State) (p : ℕ) (e : Error) → Step srv s (renewal_failed srv now s p e)
  drops : (s : State) (p : ℕ) (why : String) → Step srv s (drop_session s p why)
  takes_bearer :
      (s : State) (p : ℕ) (bearer : String) → Step srv s (modify s p (with_bearer bearer))
  lists :
      (env : Env) (s : State) (spec : Option ConnectSpec) → Step srv s (tenants srv env s spec).0
  starts_watch :
      (before : Env) (s₀ s : State) (spec : Option ConnectSpec) (q : Prepared) (p : ℕ)
      (sess : Session)
      → (prepare srv before s₀ spec).1 ≡ ok q
      → is_blank q.resp.grpc_endpoint ≡ false
      → s.heap p ≡ some sess
      → sess.server ≡ q.target.server
      → Step srv s (send s (watch_call sess q.resp.grpc_endpoint))
  downs : (s : State) → Step srv s (down s).0
  shuts : (s : State) → Step srv s (shutdown s)

pub data Reach (srv : Server) (s : State) : State → Type 0 where
  here : Reach srv s s
  next : {t u : State} → Reach srv s t → Step srv t u → Reach srv s u
