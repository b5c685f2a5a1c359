-- ===== src/Client.antt =====
-- pkg/client/client.go. The HTTP transport and the JSON codecs are a record of functions.
use claimward_vpn_client.Common.{
  ℕ, ◌/◌, ◌==◌, ◌+++◌, String, List, Option, none, some, is_blank, trim_right, trim_space,
  if◌then◌else◌,
}
use claimward_vpn_client.Errors.{server_error, ServerError, Result, ok, err, ◌>>=◌, ◌>>◌, wrap}
use claimward_vpn_client.Wire.{
  Key, Keys, parse_public, TenantInfo, DeviceInfo, EnrollRequest, EnrollResponse, HeartbeatRequest,
  HeartbeatResponse, DeregisterRequest, ErrorResponse, TunnelConfig, path_enroll, path_heartbeat,
  path_deregister, path_tenants,
}

pub record HttpRequest : Type 0 where
  pub method : String
  pub url : String
  pub authorization : Option String
  pub content_type : Option String
  pub body : String

pub record HttpReply : Type 0 where
  pub status : ℕ
  pub body : String

-- What the code calls of `net/http` and `encoding/json`: whether a request can be made for a URL,
-- the answer to one, and each type's codec.
pub record Web : Type 0 where
  pub check_url : String → Result (Unit {0})
  pub send : HttpRequest → Result HttpReply
  pub encode_enroll : EnrollRequest → String
  pub encode_heartbeat : HeartbeatRequest → String
  pub encode_deregister : DeregisterRequest → String
  pub decode_enroll : String → Result EnrollResponse
  pub decode_heartbeat : String → Result HeartbeatResponse
  pub decode_tenants : String → Result (List TenantInfo)
  pub decode_error : String → Result ErrorResponse

-- `New(baseURL).BaseURL`.
unfoldable pub base_url : String → String
base_url base = trim_right base

abbrev bearer_header : String → Option String
bearer_header bearer = if is_blank bearer then none else some ("Bearer " +++ bearer)

abbrev request_of : String → String → String → Option String → HttpRequest
request_of method url bearer none = record {
  method = method;
  url = url;
  authorization = bearer_header bearer;
  content_type = none;
  body = "";
}
request_of method url bearer (some body) = record {
  method = method;
  url = url;
  authorization = bearer_header bearer;
  content_type = some "application/json";
  body = body;
}

-- A body that is no `ErrorResponse`, or one with no code, is the message itself.
abbrev refusal : ℕ → String → Result ErrorResponse → ServerError
refusal status body (err _) = record { status = status; code = ""; message = trim_space body }
refusal status body (ok e) =
    if is_blank e.error
    then record { status = status; code = ""; message = trim_space body }
    else record { status = status; code = e.error; message = e.message }

module _ (w : Web) where
  -- `do`, for an `out` that `decode` fills.
  unfoldable pub call {ℓ} :
      {A : Type ℓ}
      → String
      → String
      → String
      → String
      → Option String
      → (String → Result A)
      → Result A
  call base method path bearer body decode = do
    w.check_url (base_url base +++ path)
    reply ← w.send (request_of method (base_url base +++ path) bearer body)
    if reply.status / 100 == 2
        then wrap "decode response" (decode reply.body)
        else err (server_error (refusal reply.status reply.body (w.decode_error reply.body)))

  module _ (k : Keys) where
    unfoldable pub enroll : String → String → Key → DeviceInfo → String → Result EnrollResponse
    unfolding call
    enroll base token key device tenant =
        call base "POST" path_enroll token
          (some (
            w.encode_enroll
              (record { public_key = k.key_text key; device = device; tenant = tenant })))
          w.decode_enroll

    unfoldable pub heartbeat : String → String → Key → Result HeartbeatResponse
    unfolding call
    heartbeat base token key =
        call base "POST" path_heartbeat token
          (some (w.encode_heartbeat (record { public_key = k.key_text key }))) w.decode_heartbeat

    unfoldable pub deregister : String → String → Key → Result (Unit {0})
    unfolding call
    deregister base token key =
        call base "POST" path_deregister token
          (some (w.encode_deregister (record { public_key = k.key_text key }))) (λ _. ok tt)

  unfoldable pub tenants : String → String → Result (List TenantInfo)
  unfolding call
  tenants base token = call base "GET" path_tenants token none w.decode_tenants

-- `TunnelConfig`.
unfoldable pub tunnel_config : Keys → EnrollResponse → Key → Result TunnelConfig
unfolding parse_public
tunnel_config k resp secret = do
  server_key ← wrap "parse server public key" (parse_public k resp.server_public_key)
  ok (record {
    private_key = secret;
    server_public_key = server_key;
    endpoint = resp.endpoint;
    allowed_ips = resp.allowed_ips;
    address = resp.assigned_ip;
    dns = resp.dns;
    mtu = resp.mtu;
    keepalive = resp.persistent_keepalive;
  })
