-- ===== src/HelperClient.antt =====
-- pkg/helperclient/helperclient.go: the requests that the app makes of the helper's socket.
use claimward_vpn_client.Common.{
  ◌+++◌, String, none, some, Bool, true, false, not, ◌&&◌, is_blank, if◌then◌else◌,
}
use claimward_vpn_client.Errors.{plain, Result, ok, err, ◌>>=◌, ◌>>◌, wrap}
use claimward_vpn_client.Wire.{ConnectSpec, Request, Response}

-- What the code calls of the socket: to dial it, to send a request, and to read the answer.
pub record Socket : Type 0 where
  pub dial : Result (Unit {0})
  pub write : Request → Result (Unit {0})
  pub read : Request → Result Response

-- `New(path).SocketPath`.
unfoldable pub socket_path : String → String → String
socket_path default_path path = if is_blank path then default_path else path

abbrev pub answered : Response → Result Response
answered r =
    if not r.succeeded && not (is_blank r.error) then err (plain ("helper: " +++ r.error)) else ok r

module _ (path : String) (k : Socket) where
  unfoldable pub call : Request → Result Response
  call req = do
    wrap ("helper not reachable at " +++ path +++ " (is it installed and running?)") k.dial
    wrap "send request" (k.write req)
    r ← wrap "read response" (k.read req)
    answered r

  unfoldable pub connect : ConnectSpec → Result Response
  unfolding call
  connect spec = call (record { action = "connect"; connect = some spec })

  unfoldable pub tenants : String → String → Result Response
  unfolding call
  tenants server bearer = call (record {
    action = "tenants";
    connect = some (record {
      server_url = server;
      bearer = bearer;
      private_key = "";
      device_name = "";
      tenant = "";
    });
  })

  unfoldable pub renew : String → Result Response
  unfolding call
  renew bearer = call (record {
    action = "renew";
    connect = some (record {
      server_url = "";
      bearer = bearer;
      private_key = "";
      device_name = "";
      tenant = "";
    });
  })

  unfoldable pub down : Result Response
  unfolding call
  down = call (record { action = "down"; connect = none })

  unfoldable pub status : Result Response
  unfolding call
  status = call (record { action = "status"; connect = none })

-- `Available`.
unfoldable pub available : Socket → Bool
available k = elim k.dial [ ok u ↦ true | err e ↦ false ]
