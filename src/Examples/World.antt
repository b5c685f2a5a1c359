-- ===== src/Examples/World.antt =====
-- A helper with one configured server, which answers every request, for the examples.
use claimward_vpn_client.Common.{
  ℕ, ◌≡◌, refl, [], ◌∷◌, none, some, true, false, pos, arith, ◌==◌, inr, Bool-cases, inl,
}
use claimward_vpn_client.Errors.{ok, err, plain}
use claimward_vpn_client.Lease.{minute, renew_delay}
use claimward_vpn_client.Wire.{Keys, ConnectSpec, Request, EnrollResponse}
use claimward_vpn_client.Client.{Web}
use claimward_vpn_client.Helper.State.{Server, Session, Tunnel, State, put}
use claimward_vpn_client.Helper.Enroll.{Env}
use claimward_vpn_client.Helper.OneTunnel.{OneTunnel}

abbrev pub srv : Server
srv = record {
  config = record { servers = "https://vpn.example/" ∷ []; group = "claimward"; socket = "/run/s" };
  os = "linux";
  platform = "app-linux";
  renew_after = renew_delay;
  retry_after = pos minute;
}

abbrev pub enrolled : EnrollResponse
enrolled = record {
  assigned_ip = "10.80.0.5/32";
  server_public_key = "server";
  endpoint = "vpn.example:51820";
  allowed_ips = "10.0.0.0/8" ∷ [];
  dns = [];
  grpc_endpoint = "";
  persistent_keepalive = pos 25;
  mtu = pos 0;
  lease_expires_at = 86400000000000;
}

abbrev pub web : Web
web = record {
  check_url = λ _. ok tt;
  send = λ _. ok (record { status = 200; body = "" });
  encode_enroll = λ _. "";
  encode_heartbeat = λ _. "";
  encode_deregister = λ _. "";
  decode_enroll = λ _. ok enrolled;
  decode_heartbeat = λ _. ok (record { lease_expires_at = 90000000000000 });
  decode_tenants = λ _. ok [];
  decode_error = λ _. err (plain "no body");
}

abbrev pub keys : Keys
keys = record { parse_key = λ _. ok (7 ∷ []); key_text = λ _. "key"; public_of = λ k. k }

abbrev pub wg0 : Tunnel
wg0 = record { handle = 1; name = "wg0" }

abbrev pub env : Env
env = record { now = 1000000000; web = web; keys = keys; bring_up = λ _. ok wg0 }

abbrev pub spec : ConnectSpec
spec = record {
  server_url = "https://vpn.example";
  bearer = "token";
  private_key = "private";
  device_name = "laptop";
  tenant = "";
}

abbrev pub elsewhere : ConnectSpec
elsewhere = record spec { server_url = "https://evil.example" }

abbrev pub connect_request : Request
connect_request = record { action = "connect"; connect = some spec }

abbrev pub status_request : Request
status_request = record { action = "status"; connect = none }

abbrev pub sess : Session
sess = record {
  gen = 1;
  server = "https://vpn.example/";
  spec = spec;
  pub_key = 7 ∷ [];
  tun = wg0;
  assigned = "10.80.0.5/32";
  lease = 86400000000000;
  renew_by = 601000000000;
  wake = true;
  cancelled = false;
}

-- The helper with that session live.
abbrev pub running : State
running = record {
  heap = put (λ p. none) 0 sess;
  next = 1;
  sess = some 0;
  gen = 1;
  last_err = "";
  up = wg0 ∷ [];
  sent = [];
}

pub running_live : (p : ℕ) (x : Session) → running.heap p ≡ some x → p ≡ 0
running_live p x h = elim (Bool-cases (0 == p)) [
  | inl e ↦ ground arith
  | inr e ↦ absurd (ground arith)
]

pub running-OneTunnel : OneTunnel running
running-OneTunnel = record {
  stage = inr (0, sess, refl, refl, refl, refl, refl);
  only_live = λ p x h c. ground (arith, running_live p x h);
  allocated = λ p x h. omega (arith, running_live p x h);
}
