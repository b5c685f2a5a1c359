-- ===== src/Examples/SignIn.antt =====
-- pkg/auth and pkg/appcore/config.go at one configuration and one registration.
use claimward_vpn_client.Common.{◌≡◌, ◌↔◌, refl, pos}
use claimward_vpn_client.Errors.{ok}
use claimward_vpn_client.Auth.{Token, kind_access_token}
use claimward_vpn_client.Auth.GoAuthn.{
  Idp, Registered, register_key, registry_token, register, refresh, register_key_lem,
}
use claimward_vpn_client.App.Config.{Config, empty_config, validate, IsComplete, validate_iff}

abbrev config : Config
config = record empty_config {
  server_url = "https://vpn.example";
  provider = "go-authn";
  oidc_issuer = "https://id.example";
  oidc_client_id = "app";
}

validate_iff_example : (validate config ≡ ok tt) ↔ IsComplete config
validate_iff_example = validate_iff config

config_valid : validate config ≡ ok tt
unfolding validate
config_valid = refl

abbrev pub idp : Idp
idp = record {
  token_url = ok "https://id.example/token";
  ask = λ _. ok (record { status = 200; status_text = "200 OK"; body = "{}" });
  decode_token = λ _. ok (record {
    access_token = "fresh";
    refresh_token = "next";
    expires_in = pos 300;
    error = "";
    description = "";
  });
  now = 0;
}

abbrev signed_in : Token
signed_in = record { value = ""; kind = kind_access_token; expiry = 0; refresh = "first" }

abbrev fresh : Token
fresh = record {
  value = "fresh";
  kind = kind_access_token;
  expiry = 300000000000;
  refresh = "next";
}

key_registers : register_key idp "https://id.example" "app" signed_in "key" "laptop" ≡ ok fresh
unfolding register_key registry_token register refresh
key_registers = refl

register_key_lem_example : Registered idp "https://id.example" "app" signed_in "key" "laptop" fresh
register_key_lem_example =
    register_key_lem idp "https://id.example" "app" signed_in "key" "laptop" fresh key_registers
