-- ===== src/Wgtun/Up/Resources.antt =====
-- `Up` of pkg/wgtun/wgtun.go leaves nothing open where it fails, and `Close` gives back what it opened.
use claimward_vpn_client.Common.{
  ℕ, ==_iff, ◌≡◌, refl, ap, subst, String, List, ◌∷◌, Option, none, some,
}
use claimward_vpn_client.Errors.{Error, Result, ok, err}
use claimward_vpn_client.Wire.{TunnelConfig}
use claimward_vpn_client.Wgtun.Routes.{Table}
use claimward_vpn_client.Wgtun.Up.{
  Open, close_one, tun_opened, device_opened, close_device, System, Running, Started, up, close,
  network_configured, device_up, device_set, tun_named, tun_created, uapi_config, no_table, mtu_of,
}

close_one-opened : (h : ℕ) (xs : List ℕ) → close_one h (h ∷ xs) ≡ xs
close_one-opened h xs = let same = (==_iff h h).1 refl in rw same refl

close_device-opened : (h : ℕ) (o : Open) → close_device h (device_opened h (tun_opened h o)) ≡ o
close_device-opened h o =
    let t = close_one-opened h o.tuns in let d = close_one-opened h o.devices in rw t (rw d refl)

-- What `Up` leaves open: one tun and one device more where it gives a tunnel, and otherwise what was
-- open before.
abbrev pub Balanced : Open → Open → Result Running → Type 0
Balanced o left (ok t) = left ≡ device_opened t.handle (tun_opened t.handle o)
Balanced o left (err e) = left ≡ o

module _ (sys : System) (cfg : TunnelConfig) (o : Open) where
  abbrev Fits : Started → Type 0
  Fits s = Balanced o s.still_open s.result

  module _ (h : ℕ) (name : String) where
    abbrev both : Open
    both = device_opened h (tun_opened h o)

    configured-Fits :
        (t : Table) (r : Option Error) → Fits (network_configured sys cfg h name both t r)
    configured-Fits t (some e) = close_device-opened h o
    configured-Fits t none = refl

    device_up-Fits : (r : Option Error) → Fits (device_up sys cfg h name both r)
    device_up-Fits (some e) = close_device-opened h o
    device_up-Fits none =
        let c = sys.configure_network name cfg no_table in configured-Fits c.table c.error

    device_set-Fits : (r : Option Error) → Fits (device_set sys cfg h name both r)
    device_set-Fits (some e) = close_device-opened h o
    device_set-Fits none = device_up-Fits (sys.device_up h)

  tun_named-Fits : (h : ℕ) (r : Result String) → Fits (tun_named sys cfg h (tun_opened h o) r)
  tun_named-Fits h (err e) = ap (λ (t : List ℕ). record o { tuns = t }) (close_one-opened h o.tuns)
  tun_named-Fits h (ok name) = device_set-Fits h name (sys.ipc_set h (uapi_config cfg))

  tun_created-Fits : (r : Result ℕ) → Fits (tun_created sys cfg o r)
  tun_created-Fits (err e) = refl
  tun_created-Fits (ok h) = tun_named-Fits h (sys.name_of h)

-- On every path of `Up`, each error included, what it opened is closed again unless it returns the
-- tunnel, and then just the tunnel's tun and device are open beside what was.
pub up-Balanced :
    (sys : System) (cfg : TunnelConfig) (o : Open)
    → Balanced o (up sys cfg o).still_open (up sys cfg o).result
unfolding up
up-Balanced sys cfg o = tun_created-Fits sys cfg o (sys.create_tun sys.tun_name (mtu_of sys cfg))

-- Closing a tunnel that `Up` returned leaves open what was open before it came up.
pub close-up :
    (sys : System) (cfg : TunnelConfig) (o : Open) (t : Running)
    → (up sys cfg o).result ≡ ok t
    → (close sys t (up sys cfg o).still_open).still_open ≡ o
unfolding close
close-up sys cfg o t h =
    let b = subst (λ r. Balanced o (up sys cfg o).still_open r) h (up-Balanced sys cfg o) in
    rw b (close_device-opened t.handle o)
