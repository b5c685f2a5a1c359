-- ===== src/Wgtun/Up.antt =====
-- `Up`, `Close` and `uapiConfig` of pkg/wgtun/wgtun.go: what is open while a tunnel comes up and
-- after it is closed.
pub mod Resources
use claimward_vpn_client.Common.{
  ℕ, ◌==◌, ◌+++◌, ltb, decimal, hex_bytes, String, List, [], ◌∷◌, Option, none, some, Bool, true,
  false, ℤ, pos, negsuc, pos_part, if◌then◌else◌,
}
use claimward_vpn_client.Errors.{Error, Result, ok, err, wrapped}
use claimward_vpn_client.Wire.{TunnelConfig}
use claimward_vpn_client.Wgtun.Routes.{Table, Changed, Tunnel, allowed_lines}

-- What is open: tun devices, and the WireGuard devices over them.
pub record Open : Type 0 where
  pub tuns : List ℕ
  pub devices : List ℕ

abbrev pub close_one : ℕ → List ℕ → List ℕ
close_one h [] = []
close_one h (x ∷ xs) = if x == h then xs else x ∷ close_one h xs

-- `CreateTUN`, `NewDevice` and the two `Close`; a device closes the tun that it has.
abbrev pub tun_opened : ℕ → Open → Open
tun_opened h o = record o { tuns = h ∷ o.tuns }

abbrev pub device_opened : ℕ → Open → Open
device_opened h o = record o { devices = h ∷ o.devices }

abbrev pub close_tun : ℕ → Open → Open
close_tun h o = record o { tuns = close_one h o.tuns }

abbrev pub close_device : ℕ → Open → Open
close_device h o = record { tuns = close_one h o.tuns; devices = close_one h o.devices }

-- wireguard-go and the platform.
pub record System : Type 0 where
  pub default_mtu : ℤ
  pub tun_name : String
  pub create_tun : String → ℤ → Result ℕ
  pub name_of : ℕ → Result String
  pub ipc_set : ℕ → String → Option Error
  pub device_up : ℕ → Option Error
  pub configure_network : String → TunnelConfig → Table → Changed
  pub teardown_network : String → TunnelConfig → Table → Table

abbrev keepalive_line : ℤ → String
keepalive_line (pos n) =
    if ltb 0 n then "persistent_keepalive_interval=" +++ decimal n +++ "\n" else ""
keepalive_line (negsuc n) = ""

-- `uapiConfig`.
unfoldable pub uapi_config : TunnelConfig → String
uapi_config cfg =
    "private_key="
    +++ hex_bytes cfg.private_key
    +++ "\n"
    +++ "replace_peers=true\n"
    +++ "public_key="
    +++ hex_bytes cfg.server_public_key
    +++ "\n"
    +++ "endpoint="
    +++ cfg.endpoint
    +++ "\n"
    +++ keepalive_line cfg.keepalive
    +++ allowed_lines cfg.allowed_ips

-- A tunnel with the number of its device and the interface's name.
pub record Running : Type 0 where
  pub handle : ℕ
  pub name : String
  pub tunnel : Tunnel

pub record Started : Type 0 where
  pub still_open : Open
  pub result : Result Running

abbrev pub mtu_of : System → TunnelConfig → ℤ
mtu_of sys cfg = elim cfg.mtu [
  | pos n ↦ if n == 0 then sys.default_mtu else pos n
  | negsuc n ↦ negsuc n
]

-- An error after the device is there closes the device.
abbrev pub closed : ℕ → Open → String → Error → Started
closed h o what e = record { still_open = close_device h o; result = err (wrapped what e) }

-- A new interface has no routes.
abbrev pub no_table : Table
no_table = λ r. false

abbrev pub network_configured :
    System → TunnelConfig → ℕ → String → Open → Table → Option Error → Started
network_configured sys cfg h name o table (some e) = closed h o ("configure interface " +++ name) e
network_configured sys cfg h name o table none = record {
  still_open = o;
  result = ok (record {
    handle = h;
    name = name;
    tunnel = record { cfg = cfg; table = table; settings = uapi_config cfg ∷ [] };
  });
}

abbrev pub device_up : System → TunnelConfig → ℕ → String → Open → Option Error → Started
device_up sys cfg h name o (some e) = closed h o "bring up device" e
device_up sys cfg h name o none =
    let c = sys.configure_network name cfg no_table in
    network_configured sys cfg h name o c.table c.error

abbrev pub device_set : System → TunnelConfig → ℕ → String → Open → Option Error → Started
device_set sys cfg h name o (some e) = closed h o "configure wireguard" e
device_set sys cfg h name o none = device_up sys cfg h name o (sys.device_up h)

abbrev pub tun_named : System → TunnelConfig → ℕ → Open → Result String → Started
tun_named sys cfg h o (err e) = record {
  still_open = close_tun h o;
  result = err (wrapped "read tun name" e);
}
tun_named sys cfg h o (ok name) =
    device_set sys cfg h name (device_opened h o) (sys.ipc_set h (uapi_config cfg))

abbrev pub tun_created : System → TunnelConfig → Open → Result ℕ → Started
tun_created sys cfg o (err e) = record {
  still_open = o;
  result = err (wrapped "create tun device (need root?)" e);
}
tun_created sys cfg o (ok h) = tun_named sys cfg h (tun_opened h o) (sys.name_of h)

-- `Up`.
unfoldable pub up : System → TunnelConfig → Open → Started
up sys cfg o = tun_created sys cfg o (sys.create_tun sys.tun_name (mtu_of sys cfg))

pub record Closed : Type 0 where
  pub still_open : Open
  pub table : Table

-- `Close`, which never fails.
unfoldable pub close : System → Running → Open → Closed
close sys t o = record {
  table = sys.teardown_network t.name t.tunnel.cfg t.tunnel.table;
  still_open = close_device t.handle o;
}
