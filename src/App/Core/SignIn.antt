-- ===== src/App/Core/SignIn.antt =====
-- `Login` of pkg/appcore/appcore.go, over the sign-in of each provider.
pub mod Session
use claimward_vpn_client.Common.{
  ℕ, ◌+++◌, is_blank, String, List, [], ◌∷◌, Option, none, some, Bool, true, false, map, pos,
  if◌then◌else◌,
}
use claimward_vpn_client.Errors.{Error, Result, ok, err, error_text, ◌>>=◌, ◌>>◌}
use claimward_vpn_client.Wire.{Key, Pair, generate}
use claimward_vpn_client.Store.{Stored, Files, no_session, load, save}
use claimward_vpn_client.Auth.{Token, Provider, github, oidc, goauthn, new_provider, provider_name}
use claimward_vpn_client.Auth.GitHub
use claimward_vpn_client.Auth.GitHub.{Github, DevicePrompt}
use claimward_vpn_client.Auth.Oidc
use claimward_vpn_client.Auth.Oidc.{Event}
use claimward_vpn_client.Auth.Device
use claimward_vpn_client.Auth.Device.{DeviceIdp}
use claimward_vpn_client.App.Config.{validate, auth_config}
use claimward_vpn_client.App.Core.{World, Core, logf}

-- What the providers answer during a sign-in: GitHub, for so many rounds of polling, an OIDC provider
-- and the browser, and a go-authn provider; and the key that is drawn for a new device.
pub record Providers : Type 0 where
  pub github : Github
  pub rounds : ℕ
  pub oidc : Oidc.Idp
  pub events : List Event
  pub device : DeviceIdp
  pub drawn : Result Key

-- A provider's login, with its prompts, and its result unless it still waits.
pub record Attempt : Type 0 where
  pub prompted : List DevicePrompt
  pub outcome : Option (Result Token)

abbrev pub url_prompt : String → DevicePrompt
url_prompt url = record { verification_uri = url; user_code = ""; expires_in = pos 0 }

-- The `Login` of a provider.
unfoldable pub attempt : Providers → Provider → Attempt
attempt ps (github client_id base_url scopes) =
    let l =
      GitHub.login ps.github
        (record { client_id = client_id; base_url = base_url; scopes = scopes }) ps.rounds in
    record { prompted = l.prompted; outcome = l.outcome }
attempt ps (oidc issuer client_id) = record {
  prompted =
      map url_prompt (Oidc.login ps.oidc (Oidc.provider_config issuer client_id) ps.events).shown;
  outcome = Oidc.provider_login ps.oidc issuer client_id ps.events;
}
attempt ps (goauthn issuer client_id) =
    let l = Device.login ps.device issuer client_id in
    record { prompted = l.prompted; outcome = some l.result }

-- The prompts show in the status, the last one in the end.
abbrev pub shown_prompts : Core → List DevicePrompt → Core
shown_prompts c [] = c
shown_prompts c (p ∷ ps) =
    shown_prompts (record c { dev_uri = p.verification_uri; dev_code = p.user_code }) ps

-- The deferred function.
abbrev pub prompt_cleared : Core → Core
prompt_cleared c = record c { dev_uri = ""; dev_code = "" }

abbrev pub old_session : Result (Option Stored) → Stored
old_session (err e) = no_session
old_session (ok none) = no_session
old_session (ok (some s)) = s

abbrev pub with_token : Stored → Provider → Token → Stored
with_token s p tok = record s {
  provider = provider_name p;
  bearer = tok.value;
  bearer_kind = tok.kind;
  refresh_token = tok.refresh;
  expiry = tok.expiry;
  tenant = "";
}

abbrev pub new_keyed : World → Stored → Result Pair → Result Stored
new_keyed w s (err e) = err e
new_keyed w s (ok pair) = ok (record s { wg_private_key = w.keys.key_text pair.secret })

-- A session with no device key gets one.
abbrev pub keyed : World → Providers → Stored → Result Stored
keyed w ps s = if is_blank s.wg_private_key then new_keyed w s (generate w.keys ps.drawn) else ok s

-- A login that came to its end, and one that still waits.
abbrev pub Ended : Type 0
Ended = Core × Option (Result (Unit {0}))

abbrev pub session_saved : World → Core → Result Stored → Core × Result (Unit {0})
session_saved w c (err e) = (c, err e)
session_saved w c (ok s) =
    let f = save w.os c.files s in
    (record c { files = f.0; tenants = []; tenant_required = false }, f.1)

abbrev pub signed_in : World → Providers → Core → Provider → Token → Core × Result (Unit {0})
signed_in w ps c p tok =
    let d = logf w c "signed in" in
    session_saved w d (keyed w ps (with_token (old_session (load w.os d.files)) p tok))

abbrev pub attempted : World → Providers → Core → Provider → Option (Result Token) → Ended
attempted w ps c p none = (c, none)
attempted w ps c p (some (err e)) =
    (prompt_cleared (logf w c ("sign-in FAILED: " +++ error_text e)), some (err e))
attempted w ps c p (some (ok tok)) =
    let s = signed_in w ps c p tok in (prompt_cleared s.0, some s.1)

abbrev pub login_with : World → Providers → Core → Result Provider → Ended
login_with w ps c (err e) = (c, some (err e))
login_with w ps c (ok p) =
    let a = attempt ps p in
    attempted w ps
      (shown_prompts (logf w c ("sign-in via " +++ provider_name p +++ "…")) a.prompted) p a.outcome

-- `Login`.
unfoldable pub login : World → Providers → Core → Ended
login w ps c = login_with w ps c (do validate c.cfg; new_provider (auth_config c.cfg))
