-- ===== src/Helper/Writes.antt =====
-- What the critical sections of pkg/helper/helper.go write to a session, and what they leave.
use claimward_vpn_client.Common.{◌≡◌, refl, String}
use claimward_vpn_client.Lease.{Time, add_time}
use claimward_vpn_client.Helper.State.{Server, Session, set_lease}
use claimward_vpn_client.Helper.Renew.{retry_delay}
use claimward_vpn_client.Helper.Requests.{with_bearer}

-- A write that leaves a session's number, tunnel, server and context alone.
pub record IsInner (f : Session → Session) : Type 0 where
  pub gen_kept : (x : Session) → (f x).gen ≡ x.gen
  pub tun_kept : (x : Session) → (f x).tun ≡ x.tun
  pub server_kept : (x : Session) → (f x).server ≡ x.server
  pub cancelled_kept : (x : Session) → (f x).cancelled ≡ x.cancelled

pub set_lease-IsInner : (srv : Server) (now lease : Time) → IsInner (λ x. set_lease srv now x lease)
unfolding set_lease
set_lease-IsInner srv now lease = record {
  gen_kept = λ x. refl;
  tun_kept = λ x. refl;
  server_kept = λ x. refl;
  cancelled_kept = λ x. refl;
}

pub with_bearer-IsInner : (bearer : String) → IsInner (with_bearer bearer)
with_bearer-IsInner bearer = record {
  gen_kept = λ x. refl;
  tun_kept = λ x. refl;
  server_kept = λ x. refl;
  cancelled_kept = λ x. refl;
}

abbrev pub retried : Server → Time → Session → Session
retried srv now x = record x { renew_by = add_time now (retry_delay srv now x) }

pub retried-IsInner : (srv : Server) (now : Time) → IsInner (retried srv now)
retried-IsInner srv now = record {
  gen_kept = λ x. refl;
  tun_kept = λ x. refl;
  server_kept = λ x. refl;
  cancelled_kept = λ x. refl;
}
