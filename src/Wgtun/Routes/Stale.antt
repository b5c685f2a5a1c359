-- ===== src/Wgtun/Routes/Stale.antt =====
-- What `UpdateRoutes` of pkg/wgtun/wgtun.go leaves where a route cannot be added: the configuration
-- still names the old entries, whose routes are gone.
use claimward_vpn_client.Common.{◌≡◌, String, List, Option, none}
use claimward_vpn_client.Wgtun.Addresses.{Prefix}
use claimward_vpn_client.Wgtun.Routes.{Changed, Tunnel, Device, del_unwanted, add_new, update_text}
use claimward_vpn_client.Wgtun.Routes.Entries.{Lawful}
use claimward_vpn_client.Wgtun.Routes.Update.{Keys}

module _ (dst : String → Option Prefix) (d : Device) (t : Tunnel) (ips : List String)
    (law : Lawful d.platform dst) (keys : Keys d)
    (takes_new : d.ipc_set (update_text t.cfg ips) ≡ none)
    (takes_old : d.ipc_set (update_text t.cfg t.cfg.allowed_ips) ≡ none) where
  abbrev old : List String
  old = t.cfg.allowed_ips

  failed : Changed
  failed = add_new d.platform old (del_unwanted d.platform ips t.table (d.keys old)) ips
