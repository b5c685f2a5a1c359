-- ===== src/Helper/Enroll.antt =====
-- `allowed` and `enroll` of pkg/helper/helper.go. What runs before the lock is `prepare`, which reads
-- no state; what runs under it is `enroll_locked`.
use claimward_vpn_client.Common.{
  ℕ, suc, ◌==◌, ◌+++◌, String, List, [], ◌∷◌, Option, none, some, Bool, true, false, not, ◌&&◌,
  str_eq, is_blank, quote, trim_right, if◌then◌else◌,
}
use claimward_vpn_client.Errors.{plain, Result, ok, err, ◌>>=◌, wrap, error_text}
use claimward_vpn_client.Lease.{Time, is_zero}
use claimward_vpn_client.Wire.{
  Key, same_key, Keys, Pair, parse_private, ConnectSpec, Response, EnrollResponse, TunnelConfig,
}
use claimward_vpn_client.Client
use claimward_vpn_client.Client.{Web, tunnel_config}
use claimward_vpn_client.Helper.State.{
  Server, Tunnel, Session, Call, enrolls, gives_back, watches, State, live, send, put, next_gen,
  stop_locked, set_lease,
}

-- What the outside answers while an operation runs: the clock, the servers, the keys' library, and
-- what comes of bringing a tunnel up (`Server.up`).
pub record Env : Type 0 where
  pub now : Time
  pub web : Web
  pub keys : Keys
  pub bring_up : TunnelConfig → Result Tunnel

-- The configured server that a URL names, trailing slashes apart.
unfoldable pub find_server : String → List String → Option String
find_server want [] = none
find_server want (u ∷ us) = if str_eq (trim_right u) want then some u else find_server want us

abbrev pub named : String → Option String → Result String
named url (some u) = ok u
named url none =
    err (plain ("server " +++ quote url +++ " is not one this helper is configured for"))

unfoldable pub allowed : Server → Option ConnectSpec → Result String
unfolding find_server
allowed srv none = err (plain "missing connect spec")
allowed srv (some spec) =
    if is_blank spec.bearer
    then err (plain "missing connect spec")
    else named spec.server_url (find_server (trim_right spec.server_url) srv.config.servers)

-- Whom an enrollment asks, and for what.
pub record Target : Type 0 where
  pub server : String
  pub spec : ConnectSpec
  pub pair : Pair

unfoldable pub target : Server → Env → Option ConnectSpec → Result Target
unfolding allowed
target srv env none = err (plain "missing connect spec")
target srv env (some spec) = do
  server ← allowed srv (some spec)
  pair ← wrap "private key" (parse_private env.keys spec.private_key)
  ok (record { server = server; spec = spec; pair = pair })

-- An enrollment that the server answered.
pub record Prepared : Type 0 where
  pub target : Target
  pub resp : EnrollResponse
  pub config : TunnelConfig

unfoldable pub ask : Server → Env → Target → Result Prepared
ask srv env t = do
  resp ← wrap "enroll" (
      Client.enroll env.web env.keys t.server t.spec.bearer t.pair.public
        (record { name = t.spec.device_name; os = srv.os; platform = srv.platform }) t.spec.tenant)
  config ← tunnel_config env.keys resp t.pair.secret
  ok (record { target = t; resp = resp; config = config })

abbrev pub enroll_call : Target → Call
enroll_call t = enrolls t.server t.spec.bearer t.pair.public t.spec.tenant

-- `enroll` up to the lock.
abbrev pub asked : Server → Env → State → Result Target → State × Result Prepared
asked srv env s (err e) = (s, err e)
asked srv env s (ok t) = (send s (enroll_call t), ask srv env t)

unfoldable pub prepare : Server → Env → State → Option ConnectSpec → State × Result Prepared
prepare srv env s spec = asked srv env s (target srv env spec)

abbrev pub superseded : String
superseded = "superseded"

pub data Outcome : Type 0 where
  connected : Outcome
  refused : String → Outcome

-- Whether a session is the enrollment of that key with that server.
abbrev pub is_enrollment : Session → String → Key → Bool
is_enrollment sess server key = str_eq sess.server server && same_key sess.pub_key key

abbrev pub give_back_call : Session → Call
give_back_call old = gives_back old.server old.spec.bearer old.pub_key

-- What the watch of a session's routes shows, and to whom.
abbrev pub watch_call : Session → String → Call
watch_call sess endpoint = watches endpoint sess.spec.bearer sess.pub_key

-- The enrollment just made is given back, unless the live session is that same one.
abbrev pub give_back_new : State → Target → Option Session → State
give_back_new s t none = send s (gives_back t.server t.spec.bearer t.pair.public)
give_back_new s t (some cur) =
    if is_enrollment cur t.server t.pair.public
    then s
    else send s (gives_back t.server t.spec.bearer t.pair.public)

-- The enrollment behind the tunnel just stopped is given back, unless it is the new one.
abbrev pub give_back_old : State → Target → Option Session → State
give_back_old s t none = s
give_back_old s t (some old) =
    if is_enrollment old t.server t.pair.public then s else send s (give_back_call old)

abbrev pub new_session : Server → Time → ℕ → Prepared → Tunnel → Session
new_session srv now gen p tun =
    set_lease srv now
      (record {
        gen = gen;
        server = p.target.server;
        spec = p.target.spec;
        pub_key = p.target.pair.public;
        tun = tun;
        assigned = p.resp.assigned_ip;
        lease = 0;
        renew_by = 0;
        wake = false;
        cancelled = false;
      })
      p.resp.lease_expires_at

abbrev pub install : Server → Time → State → Prepared → Result Tunnel → State × Outcome
install srv now s p (err e) = (record s { last_err = error_text e }, refused (error_text e))
install srv now s p (ok tun) = (
  record s {
    heap = put s.heap s.next (new_session srv now (next_gen s.gen) p tun);
    next = suc s.next;
    sess = some s.next;
    gen = next_gen s.gen;
    last_err = "";
    up = tun ∷ s.up;
  },
  connected,
)

-- `gen` is 0, or the generation of the session whose renewal loop enrolls again.
abbrev pub is_stale : State → ℕ → Bool
is_stale s gen = not (gen == 0) && not (s.gen == gen)

-- `enroll` under the lock.
unfoldable pub enroll_locked : Server → Env → State → ℕ → Prepared → State × Outcome
enroll_locked srv env s gen p =
    if is_stale s gen
    then (give_back_new s p.target (live s), refused superseded)
    else install srv env.now (give_back_old (stop_locked s) p.target (live s)) p
        (env.bring_up p.config)

abbrev blank_response : Response
blank_response = record {
  succeeded = false;
  error = "";
  connected = false;
  interface = "";
  assigned_ip = "";
  tenant = "";
  tenants = [];
  lease_expires_at = none;
  last_error = "";
}

abbrev pub failure : String → Response
failure why = record blank_response { error = why }

abbrev pub success : Response
success = record blank_response { succeeded = true }

abbrev status_of : State → Option Session → Response
status_of s none = record success { last_error = s.last_err }
status_of s (some sess) = record success {
  connected = true;
  last_error = s.last_err;
  interface = sess.tun.name;
  assigned_ip = sess.assigned;
  tenant = sess.spec.tenant;
  lease_expires_at = if is_zero sess.lease then none else some sess.lease;
}

unfoldable pub status : State → Response
status s = status_of s (live s)

abbrev pub replied : State × Outcome → State × Response
replied (s, connected) = (s, status s)
replied (s, refused why) = (s, failure why)

abbrev pub committed : Server → Env → ℕ → State × Result Prepared → State × Response
committed srv env gen (s, err e) = (s, failure (error_text e))
committed srv env gen (s, ok p) = replied (enroll_locked srv env s gen p)

-- `enroll`, when nothing else runs between its two halves.
unfoldable pub enroll : Server → Env → State → Option ConnectSpec → ℕ → State × Response
enroll srv env s spec gen = committed srv env gen (prepare srv env s spec)
