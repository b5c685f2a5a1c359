-- ===== src/App/Config.antt =====
-- pkg/appcore/config.go.
use claimward_vpn_client.Common.{
  ◌+++◌, ◌≡◌, refl, sym, subst, ◌↔◌, ◌⊎◌, inl, inr, String, List, [], ◌∷◌, ◌++◌, Bool, true, false,
  ◌||◌, str_eq, is_blank, if◌then◌else◌, arith, join_with, eq_iff,
}
use claimward_vpn_client.Errors.{plain, Result, ok, err, ◌>>=◌}
use claimward_vpn_client.Auth

pub record Config : Type 0 where
  pub server_url : String
  pub provider : String
  pub github_client_id : String
  pub oidc_issuer : String
  pub oidc_client_id : String
  pub socket_path : String

abbrev pub empty_config : Config
empty_config = record {
  server_url = "";
  provider = "";
  github_client_id = "";
  oidc_issuer = "";
  oidc_client_id = "";
  socket_path = "";
}

-- `authConfig`.
abbrev pub auth_config : Config → Auth.Config
auth_config c = record {
  provider = c.provider;
  github_client_id = c.github_client_id;
  github_base_url = "";
  github_scopes = [];
  oidc_issuer = c.oidc_issuer;
  oidc_client_id = c.oidc_client_id;
}

-- What comes of the configuration file: it is not there, cannot be read, or holds a text.
pub data ConfigFile : Type 0 where
  no_path missing unreadable : ConfigFile
  holds : String → ConfigFile

-- `override`: the field's new value.
abbrev pub override : String → String → String
override field env = if is_blank env then field else env

abbrev pub provider_or_default : String → String
provider_or_default p = if is_blank p then "github" else p

-- The overrides, in the source's order; each is of a field of its own.
abbrev pub overridden : (String → String) → Config → Config
overridden getenv c = record {
  server_url = override c.server_url (getenv "CLAIMWARD_SERVER");
  provider = provider_or_default (override c.provider (getenv "CLAIMWARD_AUTH_PROVIDER"));
  github_client_id = override c.github_client_id (getenv "CLAIMWARD_GITHUB_CLIENT_ID");
  oidc_issuer = override c.oidc_issuer (getenv "CLAIMWARD_OIDC_ISSUER");
  oidc_client_id = override c.oidc_client_id (getenv "CLAIMWARD_OIDC_CLIENT_ID");
  socket_path = override c.socket_path (getenv "CLAIMWARD_HELPER_SOCKET");
}

abbrev pub file_config : (String → Result Config) → ConfigFile → Result Config
file_config decode (holds s) = decode s
file_config decode _ = ok empty_config

-- `LoadConfig`.
unfoldable pub load_config :
    (String → Result Config) → (String → String) → ConfigFile → Result Config
load_config decode getenv file = do c ← file_config decode file; ok (overridden getenv c)

abbrev if_blank : String → String → List String
if_blank field name = if is_blank field then name ∷ [] else []

-- What the provider needs and the configuration lacks.
abbrev pub missing_for : Config → Result (List String)
missing_for c =
    if str_eq c.provider "github"
    then ok (if_blank c.github_client_id "github_client_id")
    else if str_eq c.provider "oidc" || str_eq c.provider "go-authn"
    then ok (if_blank c.oidc_issuer "oidc_issuer" ++ if_blank c.oidc_client_id "oidc_client_id")
    else err (
        plain
          ("invalid provider: " +++ c.provider +++ " (want \"github\", \"oidc\" or \"go-authn\")"))

abbrev pub none_missing : List String → Result (Unit {0})
none_missing [] = ok tt
none_missing (m ∷ ms) = err (plain ("missing config: " +++ join_with ", " (m ∷ ms)))

-- `Validate`.
unfoldable pub validate : Config → Result (Unit {0})
validate c = do rest ← missing_for c; none_missing (if_blank c.server_url "server_url" ++ rest)

-- What a configuration must hold, for its provider.
abbrev pub IsComplete : Config → Type 0
IsComplete c =
    (is_blank c.server_url ≡ false)
    × (((c.provider ≡ "github") × (is_blank c.github_client_id ≡ false))
        ⊎ (((c.provider ≡ "oidc") ⊎ (c.provider ≡ "go-authn"))
            × (is_blank c.oidc_issuer ≡ false)
            × (is_blank c.oidc_client_id ≡ false)))

validate_sound : (c : Config) → validate c ≡ ok tt → IsComplete c
unfolding validate
validate_sound c h =
    ground
      (arith, eq_iff c.provider "github", eq_iff c.provider "oidc", eq_iff c.provider "go-authn")

-- The tests of the provider's name, at each of the three.
abbrev Tests : String → Bool → Bool → Bool → Type 0
Tests p g o a =
    (str_eq p "github" ≡ g)
    × (str_eq p "oidc" ≡ o)
    × (str_eq p "go-authn" ≡ a)
    × (is_blank p ≡ false)

at_github : (p : String) → p ≡ "github" → Tests p true false false
at_github p e = subst (λ q. Tests q true false false) (sym e) (refl, refl, refl, refl)

at_oidc : (p : String) → p ≡ "oidc" → Tests p false true false
at_oidc p e = subst (λ q. Tests q false true false) (sym e) (refl, refl, refl, refl)

at_goauthn : (p : String) → p ≡ "go-authn" → Tests p false false true
at_goauthn p e = subst (λ q. Tests q false false true) (sym e) (refl, refl, refl, refl)

validate_complete : (c : Config) → IsComplete c → validate c ≡ ok tt
unfolding validate
validate_complete c (s, inl (e, g)) = ground (arith, at_github c.provider e)
validate_complete c (s, inr (inl e, i, d)) = ground (arith, at_oidc c.provider e)
validate_complete c (s, inr (inr e, i, d)) = ground (arith, at_goauthn c.provider e)

-- A configuration is valid exactly when it names a server, and one of the three providers with what
-- that provider needs.
pub validate_iff : (c : Config) → (validate c ≡ ok tt) ↔ IsComplete c
validate_iff c = (validate_sound c, validate_complete c)

provider_of :
    (c : Config)
    → IsComplete c
    → (p : Auth.Provider) × (Auth.new_provider (auth_config c) ≡ ok p)
      × (Auth.provider_name p ≡ c.provider)
unfolding Auth.new_provider
provider_of c (s, inl (e, g)) = (
  Auth.github c.github_client_id "https://github.com"
      ("read:user" ∷ "user:email" ∷ "read:org" ∷ []),
  ground (arith, at_github c.provider e),
  sym e,
)
provider_of c (s, inr (inl e, i, d)) =
    (Auth.oidc c.oidc_issuer c.oidc_client_id, ground (arith, at_oidc c.provider e), sym e)
provider_of c (s, inr (inr e, i, d)) =
    (Auth.goauthn c.oidc_issuer c.oidc_client_id, ground (arith, at_goauthn c.provider e), sym e)

-- A valid configuration can always be signed in with, at the provider that it names.
pub validate-new_provider :
    (c : Config)
    → validate c ≡ ok tt
    → (p : Auth.Provider) × (Auth.new_provider (auth_config c) ≡ ok p)
      × (Auth.provider_name p ≡ c.provider)
validate-new_provider c h = provider_of c (validate_sound c h)
