-- ===== src/System.antt =====
-- The app and the helper as they run together: pkg/appcore/appcore.go and pkg/helperclient/helperclient.go
-- over the socket that pkg/helper/helper.go answers.
pub mod Connecting
pub mod Choosing
pub mod Ending
use claimward_vpn_client.Common.{◌≡◌}
use claimward_vpn_client.Errors.{Result, ok}
use claimward_vpn_client.Wire.{Request, Response}
use claimward_vpn_client.HelperClient.{Socket}
use claimward_vpn_client.Helper.State.{Server, State}
use claimward_vpn_client.Helper.Enroll.{Env}
use claimward_vpn_client.Helper.Requests.{handle}
use claimward_vpn_client.App.Core.{World}

-- What a request becomes when it is encoded and decoded (package encoding/json), and a response.
pub record Link : Type 0 where
  pub carry : Request → Result Request
  pub back : Response → Result Response

-- A link loses nothing.
pub record IsLossless (link : Link) : Type 0 where
  pub carried : (req : Request) → link.carry req ≡ ok req
  pub brought : (r : Response) → link.back r ≡ ok r

-- The socket of a helper in a state, which is reached.
abbrev pub helper_at : Link → Server → Env → State → Socket
helper_at link srv env s = record {
  dial = ok tt;
  write = λ req. ok tt;
  read = λ req. link.back (handle srv env s (link.carry req)).1;
}

-- The world of an app on that helper's host.
abbrev pub with_helper : Link → Server → Env → State → World → World
with_helper link srv env s w = record w { socket = λ path. helper_at link srv env s }
