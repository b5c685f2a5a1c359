-- ===== src/Auth/Device.antt =====
-- The device flow of a go-authn provider: `Login` of pkg/auth/goauthn.go.
use claimward_vpn_client.Common.{
  ◌+++◌, quote, is_blank, String, List, [], ◌∷◌, ℤ, quot_int64, if◌then◌else◌,
}
use claimward_vpn_client.Errors.{plain, Result, ok, err, wrap, ◌>>=◌}
use claimward_vpn_client.Lease.{Time, until, second}
use claimward_vpn_client.Auth.{Token, kind_access_token}
use claimward_vpn_client.Auth.GitHub.{DevicePrompt}
use claimward_vpn_client.Auth.Oidc.{OauthToken}

-- `oauth2.Endpoint`, as far as the code reads it.
pub record Endpoint : Type 0 where
  pub device_auth_url : String
  pub token_url : String

-- `oauth2.DeviceAuthResponse`.
pub record DeviceAuth : Type 0 where
  pub verification_uri : String
  pub verification_uri_complete : String
  pub user_code : String
  pub expiry : Time

-- What the code calls: discovery, the two requests of package oauth2 (the second one polls), and the
-- clock.
pub record DeviceIdp : Type 0 where
  pub now : Time
  pub discover : String → Result Endpoint
  pub device_auth : Endpoint → String → List String → Result DeviceAuth
  pub device_access_token : Endpoint → String → DeviceAuth → Result OauthToken

-- A login, with the prompts that it showed.
pub record DeviceLogin : Type 0 where
  pub prompted : List DevicePrompt
  pub result : Result Token

abbrev pub goauthn_scopes : List String
goauthn_scopes = "openid" ∷ "wireguard" ∷ []

-- `endpoint`.
unfoldable pub endpoint : DeviceIdp → String → Result Endpoint
endpoint idp issuer = wrap ("go-authn discovery for " +++ quote issuer) (idp.discover issuer)

-- The whole seconds that the code has left.
abbrev pub seconds_left : Time → Time → ℤ
seconds_left now expiry = quot_int64 (until expiry now) second

abbrev pub device_prompt : Time → DeviceAuth → DevicePrompt
device_prompt now da = record {
  verification_uri =
      if is_blank da.verification_uri_complete
      then da.verification_uri
      else da.verification_uri_complete;
  user_code = da.user_code;
  expires_in = seconds_left now da.expiry;
}

abbrev pub token_of : OauthToken → Token
token_of tok = record {
  value = tok.access_token;
  kind = kind_access_token;
  expiry = tok.expiry;
  refresh = tok.refresh_token;
}

unfoldable pub request_code : DeviceIdp → String → Endpoint → Result DeviceAuth
request_code idp client_id ep =
    if is_blank ep.device_auth_url
    then err (plain "go-authn: the provider offers no device flow")
    else wrap "go-authn device authorization" (idp.device_auth ep client_id goauthn_scopes)

abbrev pub coded : DeviceIdp → String → Endpoint → Result DeviceAuth → DeviceLogin
coded idp client_id ep (err e) = record { prompted = []; result = err e }
coded idp client_id ep (ok da) = record {
  prompted = device_prompt idp.now da ∷ [];
  result = do
    tok ← wrap "go-authn sign-in" (idp.device_access_token ep client_id da)
    ok (token_of tok);
}

abbrev pub discovered : DeviceIdp → String → Result Endpoint → DeviceLogin
discovered idp client_id (err e) = record { prompted = []; result = err e }
discovered idp client_id (ok ep) = coded idp client_id ep (request_code idp client_id ep)

-- `Login`.
unfoldable pub login : DeviceIdp → String → String → DeviceLogin
login idp issuer client_id = discovered idp client_id (endpoint idp issuer)
