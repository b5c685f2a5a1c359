-- ===== src/Examples/Leases.antt =====
-- The delays of pkg/helper/helper.go and pkg/appcore/appcore.go at a lease of a day.
use claimward_vpn_client.Common.{some, ◌≡◌, refl, ◌+◌, ◌*◌, ◌≤◌, ◌<◌, pos, ◌<ℤ◌, arith}
use claimward_vpn_client.Lease.{second, minute, hour, add_time, renew_delay, app_renew_delay}
use claimward_vpn_client.Lease.Delay.{app_renew_delay-lt}
use claimward_vpn_client.Errors.{plain}
use claimward_vpn_client.Helper.State.{Session}
use claimward_vpn_client.Helper.Renew.{retry_delay, renewal_failed}
use claimward_vpn_client.Helper.RenewLoop.{reading, sleeping, timer, Turn}
use claimward_vpn_client.Helper.Retry.{retry-lt-lease}
use claimward_vpn_client.Examples.World.{srv, sess, running}

app_renew_delay-lt_example : app_renew_delay (pos hour) <ℤ renew_delay (pos hour)
app_renew_delay-lt_example = app_renew_delay-lt (pos hour) (omega arith) (omega arith)

in_time : 61 * second ≤ add_time (60 * second) (retry_delay srv (60 * second) sess)
unfolding retry_delay
in_time = ground arith

retry-lt-lease_example :
    let t = renewal_failed srv (60 * second) running 0 (plain "503") in
    (y : Session) × (t.heap 0 ≡ some y)
    × (y.renew_by < sess.lease)
    × (y.renew_by ≤ 60 * second + minute)
    × (timer (61 * second) y ≡ y.renew_by)
    × Turn srv 0
        (record { state = t; place = reading })
        (record { state = t; place = sleeping (61 * second) y })
retry-lt-lease_example =
    retry-lt-lease srv running 0 (plain "503") (60 * second) (61 * second) sess minute refl refl
      (omega arith) (omega arith) (omega arith) (omega arith) in_time
