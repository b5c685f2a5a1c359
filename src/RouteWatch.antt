-- ===== src/RouteWatch.antt =====
-- The watch for pushed routes: pkg/routeclient/routeclient.go, and `watchRoutes` of
-- pkg/helper/helper.go over it.
pub mod Transport
pub mod Pushes
use claimward_vpn_client.Common.{
  ℕ, ◌/◌, ◌==◌, ◌+++◌, quote, str_eq, String, List, [], ◌∷◌, Option, none, some, Bool, true, false,
  ◌||◌, not, if◌then◌else◌,
}
use claimward_vpn_client.Errors.{Error, Result, ok, err, wrap, wrapped, ◌>>=◌}
use claimward_vpn_client.Wire.{Keys}
use claimward_vpn_client.Wgtun.Addresses.{Addr, v4, v6, unmap}
use claimward_vpn_client.Wgtun.Routes.{Tunnel, Device, update_routes}
use claimward_vpn_client.Helper.State.{Session}

-- `Update`, with whether the watch's context was done when it came.
pub record Update : Type 0 where
  pub allowed_ips : List String
  pub dns : List String
  pub serial : ℕ
  pub cancelled : Bool

-- Transport credentials: none, or TLS for a name, of a version that is at least `min_version`.
pub data Credentials : Type 0 where
  plaintext : Credentials
  tls : (server_name min_version : String) → Credentials

-- What travels when a stream is opened: the bearer in the metadata, and the request.
pub record Sent : Type 0 where
  pub endpoint : String
  pub credentials : Credentials
  pub authorization : String
  pub public_key : String

-- What the code calls: package net, and gRPC, which opens a connection and then a stream.
pub record Grpc : Type 0 where
  pub split_host_port : String → Result String
  pub parse_ip : String → Option Addr
  pub new_client : String → Credentials → Result (Unit {0})
  pub open_stream : Sent → Result (Unit {0})

-- `IsLoopback`.
abbrev pub is_loopback : Addr → Bool
is_loopback (v4 n) = n / 16777216 == 127
is_loopback (v6 n) = n == 1

abbrev pub loopback_ip : Option Addr → Bool
loopback_ip none = false
loopback_ip (some a) = is_loopback (unmap a)

-- A host that no link leads to.
abbrev pub is_local : Grpc → String → Bool
is_local g host = loopback_ip (g.parse_ip host) || str_eq host "localhost"

abbrev pub for_host : Grpc → String → Credentials
for_host g host = if is_local g host then plaintext else tls host "1.2"

-- `transport`.
unfoldable pub transport : Grpc → String → Result Credentials
transport g endpoint = do
  host ← wrap ("gRPC endpoint " +++ quote endpoint) (g.split_host_port endpoint)
  ok (for_host g host)

-- A watch: what was sent, what the callback made of the updates, and the error that ended it, if it has
-- ended.
pub record Watched (S : Type 0) : Type 0 where
  pub sent : List Sent
  pub state : S
  pub ended : Option Error

module _ {S : Type 0} (g : Grpc) (on_update : S → Update → S) where
  -- The loop over what the stream gives.
  unfoldable pub receive : List Sent → S → List (Result Update) → Watched S
  receive sent s [] = record { sent = sent; state = s; ended = none }
  receive sent s (err e ∷ rest) = record { sent = sent; state = s; ended = some e }
  receive sent s (ok u ∷ rest) = receive sent (on_update s u) rest

  abbrev pub refused : List Sent → S → Error → Watched S
  refused sent s e = record { sent = sent; state = s; ended = some e }

  abbrev pub streamed : Sent → S → List (Result Update) → Result (Unit {0}) → Watched S
  streamed m s stream (err e) = refused (m ∷ []) s (wrapped "watch routes" e)
  streamed m s stream (ok u) = receive (m ∷ []) s stream

  abbrev pub dialled : Sent → S → List (Result Update) → Result (Unit {0}) → Watched S
  dialled m s stream (err e) = refused [] s (wrapped ("dial gRPC " +++ m.endpoint) e)
  dialled m s stream (ok u) = streamed m s stream (g.open_stream m)

  abbrev pub with_credentials :
      String → String → String → S → List (Result Update) → Result Credentials → Watched S
  with_credentials endpoint bearer key s stream (err e) = refused [] s e
  with_credentials endpoint bearer key s stream (ok c) =
      dialled
        (record {
          endpoint = endpoint;
          credentials = c;
          authorization = "Bearer " +++ bearer;
          public_key = key;
        })
        s stream (g.new_client endpoint c)

  -- `Watch`, for a stream that gives so much.
  unfoldable pub watch : String → String → String → S → List (Result Update) → Watched S
  watch endpoint bearer key s stream =
      with_credentials endpoint bearer key s stream (transport g endpoint)

-- The callback of `watchRoutes`: nothing once the tunnel is going down.
abbrev pub applied : Device → Tunnel → Update → Tunnel
applied d t u = if u.cancelled then t else (update_routes d t u.allowed_ips).tunnel

-- `watchRoutes`, as it changes the session's tunnel.
unfoldable pub watch_routes :
    Grpc → Keys → Device → Session → String → Tunnel → List (Result Update) → Watched Tunnel
watch_routes g keys d sess endpoint t stream =
    watch g (applied d) endpoint sess.spec.bearer (keys.key_text sess.pub_key) t stream
