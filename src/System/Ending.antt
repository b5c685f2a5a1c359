-- ===== src/System/Ending.antt =====
-- A disconnect from the app to the tunnel: `Core.Disconnect` of pkg/appcore/appcore.go and `down` of
-- pkg/helper/helper.go.
use claimward_vpn_client.HelperClient
use claimward_vpn_client.Helper.State.{State}
use claimward_vpn_client.Helper.OneTunnel.{OneTunnel}
use claimward_vpn_client.App.Core.{Core}
use claimward_vpn_client.App.Core.OneLoop.{OneLoop}
