-- ===== src/Examples/Pushes.antt =====
-- A server that pushes routes to a tunnel.
use claimward_vpn_client.Common.{
  ℕ, ◌≡◌, ◌∙◌, sym, ap, some-injective, refl, inl, inr, String, List, [], ◌∷◌, none, some, Bool,
  true, false,
}
use claimward_vpn_client.Errors.{Result, ok, err, plain}
use claimward_vpn_client.Wgtun.Routes.{has, del_unwanted, add_new, update_routes}
use claimward_vpn_client.Wgtun.Plan.{parse_route}
use claimward_vpn_client.Wgtun.Addresses.{Prefix, masked}
use claimward_vpn_client.Wgtun.Routes.Installed.{Installed, Apart}
use claimward_vpn_client.Wgtun.Windows
use claimward_vpn_client.RouteWatch.{Update, tls, Grpc, transport, watch, watch_routes}
use claimward_vpn_client.RouteWatch.Transport.{Discreet, watch-Discreet}
use claimward_vpn_client.RouteWatch.Pushes.{AllFine, watch_routes-Installed}
use claimward_vpn_client.Examples.Network.{
  syn, adapter, adapter-Careful, device, tunnel, installed, net16, all6, route16, route6,
}
use claimward_vpn_client.Examples.World.{keys, sess}

abbrev grpc : Grpc
grpc = record {
  split_host_port = λ e. ok "vpn.example";
  parse_ip = λ h. none;
  new_client = λ e c. ok tt;
  open_stream = λ m. ok tt;
}

abbrev endpoint : String
endpoint = "vpn.example:50051"

abbrev push : List String → Bool → Update
push ips cancelled = record { allowed_ips = ips; dns = []; serial = 1; cancelled = cancelled }

-- One that is applied, one that comes while the tunnel goes down, and the end.
abbrev stream : List (Result Update)
stream =
    ok (push ("::/0" ∷ []) false) ∷ ok (push ("10.2.3.4/16" ∷ []) true) ∷ err (plain "EOF") ∷ []

watch-Discreet_example :
    Discreet grpc
      (λ (n : ℕ) u. n)
      endpoint
      "token"
      "key"
      0
      (watch grpc (λ (n : ℕ) u. n) endpoint "token" "key" 0 stream)
watch-Discreet_example = watch-Discreet grpc (λ n u. n) endpoint "token" "key" 0 stream

abbrev pool : List String
pool = "10.2.3.4/16" ∷ "::/0" ∷ []

differ : (r : Prefix) → parse_route syn "10.2.3.4/16" ≡ some r → ¬ (parse_route syn "::/0" ≡ some r)
differ r x y = let z : net16 ≡ all6 = some-injective _ _ (sym route16 ∙ x ∙ sym y ∙ route6) in cc

pool-Apart : Apart (parse_route syn) pool pool
pool-Apart a b r (inl ea) (inl eb) ra rb = ea ∙ sym eb
pool-Apart a b r (inl ea) (inr (inl eb)) ra rb =
    absurd (differ r (ap (parse_route syn) (sym ea) ∙ ra) (ap (parse_route syn) (sym eb) ∙ rb))
pool-Apart a b r (inl ea) (inr (inr n)) ra rb = absurd n
pool-Apart a b r (inr (inl ea)) (inl eb) ra rb =
    absurd (differ r (ap (parse_route syn) (sym eb) ∙ rb) (ap (parse_route syn) (sym ea) ∙ ra))
pool-Apart a b r (inr (inl ea)) (inr (inl eb)) ra rb = ea ∙ sym eb
pool-Apart a b r (inr (inl ea)) (inr (inr n)) ra rb = absurd n
pool-Apart a b r (inr (inr n)) mb ra rb = absurd n

secure : transport grpc endpoint ≡ ok (tls "vpn.example" "1.2")
unfolding transport
secure = refl

fine : AllFine pool device tunnel stream
unfolding update_routes del_unwanted add_new has Windows.route_add Windows.route_del parse_route
    masked Windows.luid Windows.unspecified
fine = (λ live. (λ a m. elim m [ inl e ↦ inr (inl e) | inr n ↦ absurd n ], refl), (λ live. cc, tt))

watch_routes-Installed_example :
    let u = (watch_routes grpc keys device sess endpoint tunnel stream).state in
    Installed (Windows.platform syn adapter) (parse_route syn) u × (u.cfg.allowed_ips ≡ "::/0" ∷ [])
watch_routes-Installed_example =
    watch_routes-Installed (parse_route syn) device adapter-Careful (λ ss a. (λ m. m, λ m. m)) pool
      pool-Apart grpc keys sess endpoint (tls "vpn.example" "1.2") secure refl refl tunnel stream
      installed (λ a m. elim m [ inl e ↦ inl e | inr n ↦ absurd n ]) fine
