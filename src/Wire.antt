-- ===== src/Wire.antt =====
-- The data that the parts exchange: pkg/protocol/protocol.go (with the server), pkg/hproto/hproto.go
-- (between the app and the helper), the key pair of pkg/wgkey/wgkey.go, and `Config` of
-- pkg/wgtun/wgtun.go.
use claimward_vpn_client.Common.{ℕ, String, List, Option, Bool, bytes_eq, ℤ}
use claimward_vpn_client.Errors.{Result, ok, ◌>>=◌}
use claimward_vpn_client.Lease.{Time}

-- `wgtypes.Key`, an array of 32 bytes.
abbrev pub Key : Type 0
Key = List ℕ

abbrev pub same_key : Key → Key → Bool
same_key = bytes_eq

-- What the code calls of `wgtypes`.
pub record Keys : Type 0 where
  pub parse_key : String → Result Key
  pub key_text : Key → String
  pub public_of : Key → Key

pub record Pair : Type 0 where
  pub secret : Key
  pub public : Key

module _ (k : Keys) where
  -- `Generate`: what `GeneratePrivateKey` drew is an argument.
  unfoldable pub generate : Result Key → Result Pair
  generate drawn = do key ← drawn; ok (record { secret = key; public = k.public_of key })

  unfoldable pub parse_private : String → Result Pair
  parse_private b64 = do
    key ← k.parse_key b64
    ok (record { secret = key; public = k.public_of key })

  unfoldable pub parse_public : String → Result Key
  parse_public b64 = k.parse_key b64

abbrev pub path_enroll : String
path_enroll = "/api/v1/enroll"

abbrev pub path_heartbeat : String
path_heartbeat = "/api/v1/heartbeat"

abbrev pub path_deregister : String
path_deregister = "/api/v1/deregister"

abbrev pub path_tenants : String
path_tenants = "/api/v1/tenants"

-- `TenantInfo`, and `hproto.Tenant`, which has the same fields.
pub record TenantInfo : Type 0 where
  pub id : String
  pub name : String

pub record Tenant : Type 0 where
  pub id : String
  pub name : String

pub record DeviceInfo : Type 0 where
  pub name : String
  pub os : String
  pub platform : String

pub record EnrollRequest : Type 0 where
  pub public_key : String
  pub device : DeviceInfo
  pub tenant : String

pub record EnrollResponse : Type 0 where
  pub assigned_ip : String
  pub server_public_key : String
  pub endpoint : String
  pub allowed_ips : List String
  pub dns : List String
  pub grpc_endpoint : String
  pub persistent_keepalive : ℤ
  pub mtu : ℤ
  pub lease_expires_at : Time

pub record HeartbeatRequest : Type 0 where
  pub public_key : String

pub record HeartbeatResponse : Type 0 where
  pub lease_expires_at : Time

pub record DeregisterRequest : Type 0 where
  pub public_key : String

pub record ErrorResponse : Type 0 where
  pub error : String
  pub message : String

-- `wgtun.Config`.
pub record TunnelConfig : Type 0 where
  pub private_key : Key
  pub server_public_key : Key
  pub endpoint : String
  pub allowed_ips : List String
  pub address : String
  pub dns : List String
  pub mtu : ℤ
  pub keepalive : ℤ

pub record ConnectSpec : Type 0 where
  pub server_url : String
  pub bearer : String
  pub private_key : String
  pub device_name : String
  pub tenant : String

pub record Request : Type 0 where
  pub action : String
  pub connect : Option ConnectSpec

pub record Response : Type 0 where
  pub succeeded : Bool
  pub error : String
  pub connected : Bool
  pub interface : String
  pub assigned_ip : String
  pub tenant : String
  pub tenants : List Tenant
  pub lease_expires_at : Option Time
  pub last_error : String
