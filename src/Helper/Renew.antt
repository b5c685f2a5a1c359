-- ===== src/Helper/Renew.antt =====
-- `renew`, `drop` and the critical sections between them, of pkg/helper/helper.go.
use claimward_vpn_client.Common.{
  ℕ, ◌==◌, ◌+++◌, String, Option, none, some, Bool, true, false, not, ◌&&◌, str_eq, pos, min_ℤ,
  max_ℤ, quot_int64, mul_int64, if◌then◌else◌,
}
use claimward_vpn_client.Errors.{Error, Result, ok, err, ServerError, error_text, as_server_error}
use claimward_vpn_client.Lease.{Time, Duration, add_time, until, is_zero, second}
use claimward_vpn_client.Wire.{HeartbeatResponse, Response}
use claimward_vpn_client.Client
use claimward_vpn_client.Helper.State.{
  Server, Session, Call, renews, State, is_live, send, put, stop_locked, set_lease,
}
use claimward_vpn_client.Helper.Enroll.{Env, enroll, superseded}

abbrev pub changed : State → ℕ → (Session → Session) → Option Session → State
changed s p f none = s
changed s p f (some sess) = record s { heap = put s.heap p (f sess) }

-- A write to the session that a pointer names.
abbrev pub modify : State → ℕ → (Session → Session) → State
modify s p f = changed s p f (s.heap p)

abbrev pub heartbeat_call : Session → Call
heartbeat_call sess = renews sess.server sess.spec.bearer sess.pub_key

-- The lease was renewed.
unfoldable pub lease_renewed : Server → Time → State → ℕ → Time → State
lease_renewed srv now s p lease = record (modify s p (λ sess. set_lease srv now sess lease)) {
  last_err = if is_live s p then "" else s.last_err;
}

-- What the next try is timed by, when this one failed.
abbrev left_to_retry : Server → Time → Session → Duration
left_to_retry srv now sess =
    if is_zero sess.lease then mul_int64 srv.retry_after 2 else until sess.lease now

unfoldable pub retry_delay : Server → Time → Session → Duration
retry_delay srv now sess =
    min_ℤ srv.retry_after (max_ℤ (quot_int64 (left_to_retry srv now sess) 2) (pos second))

-- The server was not reached, or answered anything else: the renewal is tried again.
unfoldable pub renewal_failed : Server → Time → State → ℕ → Error → State
renewal_failed srv now s p e =
    record (modify s p
      (λ sess. record sess { renew_by = add_time now (retry_delay srv now sess) })) {
        last_err = "renewal failed: " +++ error_text e;
      }

-- `drop`.
unfoldable pub drop_session : State → ℕ → String → State
drop_session s p why = if is_live s p then record (stop_locked s) { last_err = why } else s

-- After a re-enrollment of the session at `p`.
abbrev pub settled : ℕ → State × Response → State
settled p (s, r) =
    if not r.succeeded && not (str_eq r.error superseded)
    then drop_session s p ("re-enrollment failed: " +++ r.error)
    else s

unfoldable pub enroll_again : Server → Env → State → ℕ → Session → State
enroll_again srv env s p sess = settled p (enroll srv env s (some sess.spec) sess.gen)

abbrev status_is : ℕ → Option ServerError → Bool
status_is n none = false
status_is n (some e) = e.status == n

abbrev pub has_status : Error → ℕ → Bool
has_status e n = status_is n (as_server_error e)

-- The `switch` of `renew`. The Boolean says whether the renewal loop goes on.
unfoldable pub renewal_answered :
    Server → Env → State → ℕ → Session → Result HeartbeatResponse → State × Bool
renewal_answered srv env s p sess (ok resp) =
    (lease_renewed srv env.now s p resp.lease_expires_at, true)
renewal_answered srv env s p sess (err e) =
    if has_status e 404
    then (enroll_again srv env s p sess, false)
    else if has_status e 403
    then (drop_session s p ("the server refused to renew: " +++ error_text e), false)
    else (renewal_failed srv env.now s p e, true)

abbrev pub renew_session : Server → Env → Bool → State → ℕ → Option Session → State × Bool
renew_session srv env background s p none = (s, false)
renew_session srv env background s p (some sess) =
    if not background && sess.cancelled
    then (send s (heartbeat_call sess), false)
    else renewal_answered srv env (send s (heartbeat_call sess)) p sess
        (Client.heartbeat env.web env.keys sess.server sess.spec.bearer sess.pub_key)

-- `renew`, under the session's own context or the background's, which never ends.
unfoldable pub renew : Server → Env → Bool → State → ℕ → State × Bool
renew srv env background s p = renew_session srv env background s p (s.heap p)
