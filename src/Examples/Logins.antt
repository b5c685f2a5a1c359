-- ===== src/Examples/Logins.antt =====
-- Sign-ins: at GitHub, which asks to slow down once and then gives a token, and through the browser.
use claimward_vpn_client.Common.{
  ℕ, ◌+◌, ◌==◌, ◌≡◌, ◌↔◌, refl, String, List, [], ◌∷◌, some, pos, pos_part, is_blank, arith, suc,
  if◌then◌else◌,
}
use claimward_vpn_client.Errors.{Result, ok}
use claimward_vpn_client.Auth.{Token}
use claimward_vpn_client.Auth.GitHub
use claimward_vpn_client.Auth.GitHub.{
  GitHubProvider, DeviceCode, TokenAnswer, Wake, cancelled, woke, Github, prompt_of,
}
use claimward_vpn_client.Auth.GitHub.Polling.{Timely, login_ends}
use claimward_vpn_client.Auth.Oidc
use claimward_vpn_client.Auth.Oidc.{Tokens, OauthToken, OauthConfig, Query, Event, tokens_of}
use claimward_vpn_client.Auth.Oidc.Callback.{Signed, login_iff}

abbrev pub device_code : DeviceCode
device_code = record {
  device_code = "device";
  user_code = "ABCD-1234";
  verification_uri = "https://github.com/login/device";
  expires_in = pos 900;
  interval = pos 5;
  error = "";
  description = "";
}

-- The first answer asks to slow down, and the second has the token.
abbrev answer : String → TokenAnswer
answer body =
    if is_blank body
    then record { access_token = ""; error = "slow_down"; description = "" }
    else record { access_token = body; error = ""; description = "" }

abbrev pub github : Github
github = record {
  now = 1000000000;
  wait = λ k t d. woke (t + pos_part d);
  check_url = λ u. ok tt;
  encode = λ fields. "form";
  post = λ n url body. ok (if n == 2 then "gho" else "");
  decode_device = λ body. ok device_code;
  decode_token = λ body. ok (answer body);
}

abbrev provider : GitHubProvider
provider = record { client_id = "app"; base_url = "https://github.com"; scopes = "read:user" ∷ [] }

woke_lem : {a b : ℕ} → woke a ≡ woke b → a ≡ b
woke_lem e = cc

timely : Timely github
timely k t d u h = let e : t + pos_part d ≡ u = woke_lem h in omega (arith, e)

asked : GitHub.ask_device github provider ≡ ok device_code
unfolding GitHub.ask_device GitHub.form
asked = refl

login_ends_example :
    (r : Result Token) × ((GitHub.login github provider (suc 900)).outcome ≡ some r)
login_ends_example =
    login_ends github provider device_code 900 timely asked refl (omega arith) (omega arith)

abbrev gho : Token
gho = record { value = "gho"; kind = "access_token"; expiry = 0; refresh = "" }

granted : (GitHub.login github provider 3).outcome ≡ some (ok gho)
unfolding GitHub.login GitHub.poll GitHub.round GitHub.ask_device GitHub.ask_token GitHub.form
granted = refl

-- A provider that takes the code "c", for a login whose state is "state".
abbrev pub idp : Oidc.Idp
idp = record {
  discover = λ issuer. ok "endpoint";
  listen = λ addr. ok "127.0.0.1:4321";
  random = λ n. n ∷ [];
  base64_url = λ bytes. "state";
  verifier = "verifier";
  auth_code_url = λ cfg state verifier. "https://idp.example/auth";
  exchange = λ cfg auth_code verifier. ok (record {
    access_token = "access";
    refresh_token = "refresh";
    expiry = 5000000000;
    id_token = some "id";
  });
}

abbrev tokens : Tokens
tokens = record {
  id_token = "id";
  access_token = "access";
  refresh_token = "refresh";
  expiry = 5000000000;
}

abbrev events : List Event
events =
    Event.elsewhere "/favicon.ico"
    ∷ Event.callback (record { error = ""; state = "forged"; auth_code = "c" })
    ∷ []

login_iff_example :
    ((Oidc.login idp (Oidc.provider_config "https://idp.example" "app") events).outcome
      ≡ some (ok tokens))
    ↔ ((tok : OauthToken) × Signed idp (Oidc.provider_config "https://idp.example" "app") events tok
        × (tokens ≡ tokens_of tok))
login_iff_example = login_iff idp (Oidc.provider_config "https://idp.example" "app") events tokens
