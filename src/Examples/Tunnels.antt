-- ===== src/Examples/Tunnels.antt =====
-- pkg/helper/helper.go on one helper: requests, renewals and the tunnels they leave up.
use mathlib.Core.List.{Mem, mem-cons, not-mem-nil}
use mathlib.Core.Logic.Or
use claimward_vpn_client.Common.{
  ◌≡◌, ◌≢◌, ◌↔◌, ◌⊎◌, refl, sym, ap, ◌∙◌, eq_iff, String, [], ◌∷◌, some, true, false, pos, arith,
  trim_right,
}
use claimward_vpn_client.Errors.{ok, err, server_error, error_text}
use claimward_vpn_client.Wire.{parse_private, parse_public}
use claimward_vpn_client.Client
use claimward_vpn_client.Client.{tunnel_config}
use claimward_vpn_client.Lease.{renew_delay}
use claimward_vpn_client.Helper.State.{Tunnel, State, init, stop_locked, set_lease}
use claimward_vpn_client.Helper.Enroll.{
  Prepared, prepare, enroll_locked, is_stale, status, allowed, failure, enroll, target, find_server,
  ask,
}
use claimward_vpn_client.Helper.Renew.{renewal_answered, drop_session}
use claimward_vpn_client.Helper.Requests.{handle, dispatch, connect}
use claimward_vpn_client.Helper.Steps.{Reach}
use claimward_vpn_client.Helper.OneTunnel.{OneTunnel, IsIdle, init-OneTunnel}
use claimward_vpn_client.Helper.OneTunnel.Steps.{Reach-OneTunnel}
use claimward_vpn_client.Helper.Configured.{Configured}
use claimward_vpn_client.Helper.Handlers.{handle-Reach}
use claimward_vpn_client.Helper.Connects.{connect-Made, connect_elsewhere, Made}
use claimward_vpn_client.Helper.Loop.{renewal_answered_lem}
use claimward_vpn_client.Helper.Stops.{drop_session_lem}
use claimward_vpn_client.Helper.GiveBack.{Spares, enroll_locked-Spares}
use claimward_vpn_client.Helper.Numbered.{Fits}
use claimward_vpn_client.Helper.Numbered.Steps.{is_stale_iff}
use claimward_vpn_client.Examples.World.{
  srv, env, spec, elsewhere, connect_request, sess, running, enrolled, running-OneTunnel,
}

abbrev after_connect : State
after_connect = (handle srv env init (ok connect_request)).0

handle-Reach_example : Reach srv init after_connect
handle-Reach_example = handle-Reach srv env init (ok connect_request)

Reach-OneTunnel_example : OneTunnel after_connect
Reach-OneTunnel_example = Reach-OneTunnel (handle-Reach srv env init (ok connect_request))

after_connect-Fits : Fits after_connect
unfolding handle dispatch connect enroll prepare target allowed find_server ask enroll_locked
    stop_locked set_lease error_text status Client.enroll Client.call Client.base_url tunnel_config
    parse_private parse_public renew_delay trim_right
after_connect-Fits = ground arith

after_connect_heap : after_connect.heap 0 ≡ some sess
unfolding handle dispatch connect enroll prepare target allowed find_server ask enroll_locked
    stop_locked set_lease error_text status Client.enroll Client.call Client.base_url tunnel_config
    parse_private parse_public renew_delay trim_right
after_connect_heap = refl

is_stale_iff_example : (is_stale after_connect 1 ≡ false) ↔ (after_connect.sess ≡ some 0)
is_stale_iff_example =
    is_stale_iff 0 sess (handle-Reach srv env init (ok connect_request)) after_connect-Fits
      after_connect_heap

connect_succeeds : (connect srv env init (some spec)).1.succeeded ≡ true
unfolding handle dispatch connect enroll prepare target allowed find_server ask enroll_locked
    stop_locked set_lease error_text status Client.enroll Client.call Client.base_url tunnel_config
    parse_private parse_public renew_delay trim_right
connect_succeeds = refl

connect-Made_example :
    (q : Prepared) × (tun : Tunnel) × Mem q.target.server srv.config.servers
    × Made env spec (connect srv env init (some spec)).0 q tun
connect-Made_example = connect-Made srv env spec init init-OneTunnel connect_succeeds

not_evil : trim_right "https://vpn.example/" ≢ trim_right elsewhere.server_url
unfolding trim_right
not_evil e = absurd (cc (sym ((eq_iff "https://vpn.example" "https://evil.example").1 e)))

no_server : (u : String) → Mem u srv.config.servers → trim_right u ≢ trim_right elsewhere.server_url
no_server u m e =
    Or.elim (λ a. absurd a) (mem-cons.0 m)
      (λ (q : u ≡ "https://vpn.example/"). not_evil (sym (ap trim_right q) ∙ e)) not-mem-nil

connect_elsewhere_example :
    (why : String) × (connect srv env running (some elsewhere) ≡ (running, failure why))
connect_elsewhere_example = connect_elsewhere srv env running elsewhere no_server

renewal_answered_lem_example :
    let forbidden =
      err (server_error (record { status = 403; code = "forbidden"; message = "" })) in
    let (t, again) = renewal_answered srv env running 0 sess forbidden in
    ((again ≡ true) × (t.sess ≡ some 0) × (t.up ≡ running.up))
    ⊎ ((again ≡ false) × (t.sess ≢ some 0))
renewal_answered_lem_example =
    renewal_answered_lem srv env 0 sess running-OneTunnel
      (err (server_error (record { status = 403; code = "forbidden"; message = "" }))) refl refl

drop_session_lem_example :
    let t = drop_session running 0 "withdrawn" in
    ((running.sess ≡ some 0) × IsIdle t × (t.last_err ≡ "withdrawn") × (t.sent ≡ running.sent))
    ⊎ ((running.sess ≢ some 0) × (t ≡ running))
drop_session_lem_example = drop_session_lem 0 "withdrawn" running-OneTunnel

abbrev other : Prepared
other = record {
  target = record {
    server = "https://vpn.example/";
    spec = spec;
    pair = record { secret = 8 ∷ []; public = 8 ∷ [] };
  };
  resp = enrolled;
  config = record {
    private_key = 8 ∷ [];
    server_public_key = 7 ∷ [];
    endpoint = "";
    allowed_ips = [];
    address = "";
    dns = [];
    mtu = pos 0;
    keepalive = pos 0;
  };
}

enroll_locked-Spares_example : Spares (enroll_locked srv env running 0 other).0 running.sent
enroll_locked-Spares_example = enroll_locked-Spares srv env running 0 other running-OneTunnel

spec_allowed : allowed srv (some spec) ≡ ok "https://vpn.example/"
unfolding allowed find_server trim_right
spec_allowed = refl
