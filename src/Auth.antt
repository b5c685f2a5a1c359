-- ===== src/Auth.antt =====
-- pkg/auth/auth.go, which chooses a provider, and the registration of a device's key at a go-authn
-- provider (pkg/auth/goauthn.go).
pub mod GoAuthn
pub mod GitHub
pub mod Oidc
pub mod Device
pub mod Browser
use claimward_vpn_client.Common.{
  ℕ, ◌+++◌, String, List, [], ◌∷◌, Bool, ◌||◌, str_eq, is_blank, is_empty, quote, if◌then◌else◌,
}
use claimward_vpn_client.Errors.{Error, plain, Result, ok, err}
use claimward_vpn_client.Lease.{Time}

abbrev pub kind_id_token : String
kind_id_token = "id_token"

abbrev pub kind_access_token : String
kind_access_token = "access_token"

pub record Token : Type 0 where
  pub value : String
  pub kind : String
  pub expiry : Time
  pub refresh : String

pub record Config : Type 0 where
  pub provider : String
  pub github_client_id : String
  pub github_base_url : String
  pub github_scopes : List String
  pub oidc_issuer : String
  pub oidc_client_id : String

-- The providers that `New` builds, with the fields it fills.
pub data Provider : Type 0 where
  github : (client_id base_url : String) → List String → Provider
  oidc : (issuer client_id : String) → Provider
  goauthn : (issuer client_id : String) → Provider

-- `Name`.
abbrev pub provider_name : Provider → String
provider_name (github c b s) = "github"
provider_name (oidc i c) = "oidc"
provider_name (goauthn i c) = "go-authn"

new_github : Config → Result Provider
new_github cfg =
    if is_blank cfg.github_client_id
    then err (plain "github provider requires a client id")
    else ok (
        github cfg.github_client_id
          (if is_blank cfg.github_base_url then "https://github.com" else cfg.github_base_url)
          (if is_empty cfg.github_scopes
            then "read:user" ∷ "user:email" ∷ "read:org" ∷ []
            else cfg.github_scopes))

new_oidc : Config → Result Provider
new_oidc cfg =
    if is_blank cfg.oidc_issuer || is_blank cfg.oidc_client_id
    then err (plain "oidc provider requires issuer and client id")
    else ok (oidc cfg.oidc_issuer cfg.oidc_client_id)

new_goauthn : Config → Result Provider
new_goauthn cfg =
    if is_blank cfg.oidc_issuer || is_blank cfg.oidc_client_id
    then err (plain "go-authn provider requires issuer and client id")
    else ok (goauthn cfg.oidc_issuer cfg.oidc_client_id)

-- `New`.
unfoldable pub new_provider : Config → Result Provider
unfolding new_github new_oidc new_goauthn
new_provider cfg =
    if is_blank cfg.provider || str_eq cfg.provider "github"
    then new_github cfg
    else if str_eq cfg.provider "oidc"
    then new_oidc cfg
    else if str_eq cfg.provider "go-authn"
    then new_goauthn cfg
    else err (
        plain (
          "unknown auth provider "
          +++ quote cfg.provider
          +++ " (want \"github\", \"oidc\" or \"go-authn\")"))
