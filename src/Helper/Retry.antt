-- ===== src/Helper/Retry.antt =====
-- When a renewal is next due, after one that worked and after one that did not
-- (`setLeaseLocked` and the last case of `renew`, pkg/helper/helper.go).
use claimward_vpn_client.Common.{ℕ, ◌+◌, ◌*◌, ◌≤◌, ◌<◌, ◌≡◌, some, pos, arith, int64_half}
use claimward_vpn_client.Lease.{Time, second, minute, add_time, renew_delay}
use claimward_vpn_client.Errors.{Error}
use claimward_vpn_client.Helper.State.{Server, Session, State, set_lease}
use claimward_vpn_client.Helper.Renew.{retry_delay, renewal_failed}
use claimward_vpn_client.Helper.RenewLoop.{reading, sleeping, timer, Turn, reads}

module _ (srv : Server) (now : Time) (sess : Session) (r : ℕ) where
  retry_due :
      srv.retry_after ≡ pos r
      → r < int64_half
      → now + 2 * second ≤ sess.lease
      → sess.lease < now + int64_half
      → (add_time now (retry_delay srv now sess) < sess.lease)
        × (add_time now (retry_delay srv now sess) ≤ now + r)
  unfolding retry_delay
  retry_due e b h k = ground arith

  retry_timer :
      (since : Time) (y : Session)
      → y.renew_by ≤ now + r
      → r < int64_half
      → now ≤ since
      → since ≤ y.renew_by
      → timer since y ≡ y.renew_by
  retry_timer since y due b h k = ground arith

-- After the renewal loop's own renewal failed, with two seconds of the lease left or more, and less than
-- 292 years, the next try is due before the lease ends and within the retry interval; and where the
-- loop, which goes on, reads before that, it sets a timer that runs out when the try is due.
pub retry-lt-lease :
    (srv : Server) (s : State) (p : ℕ) (e : Error) (now since : Time) (sess : Session) (r : ℕ)
    → s.heap p ≡ some sess
    → srv.retry_after ≡ pos r
    → r < int64_half
    → now + 2 * second ≤ sess.lease
    → sess.lease < now + int64_half
    → now ≤ since
    → since ≤ add_time now (retry_delay srv now sess)
    → let t = renewal_failed srv now s p e in
      (y : Session) × (t.heap p ≡ some y)
      × (y.renew_by < sess.lease)
      × (y.renew_by ≤ now + r)
      × (timer since y ≡ y.renew_by)
      × Turn srv p
          (record { state = t; place = reading })
          (record { state = t; place = sleeping since y })
unfolding renewal_failed
retry-lt-lease srv s p e now since sess r h k b left near after before =
    let y = record sess { renew_by = add_time now (retry_delay srv now sess) } in
    let t = renewal_failed srv now s p e in
    let here : t.heap p ≡ some y = rw h (ground arith) in
    let (early, soon) = retry_due srv now sess r k b left near in
    (
      y,
      here,
      early,
      soon,
      retry_timer srv now sess r since y soon b after before,
      reads since t y here,
    )

-- A lease with a minute left or more, and less than 292 years, is renewed again, at the default
-- delay, half way to its end or sooner, and at least 30 seconds and at most 10 minutes from now.
pub set_lease_due :
    (srv : Server) (now : Time) (sess : Session) (lease : Time)
    → srv.renew_after ≡ renew_delay
    → now + 60 * second ≤ lease
    → lease < now + int64_half
    → let due = (set_lease srv now sess lease).renew_by in
      (now + 30 * second ≤ due) × (due ≤ now + 10 * minute) × (2 * due ≤ now + lease)
unfolding set_lease renew_delay
set_lease_due srv now sess lease e h k = rw e (ground arith)
