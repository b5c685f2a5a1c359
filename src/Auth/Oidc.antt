-- ===== src/Auth/Oidc.antt =====
-- The browser sign-in: `Login` of pkg/oidc/oidc.go, and pkg/auth/oidc_provider.go over it.
pub mod Callback
use claimward_vpn_client.Common.{
  ℕ, ◌+++◌, decimal, quote, is_blank, is_empty, str_eq, String, List, [], ◌∷◌, Option, none, some,
  Bool, not, if◌then◌else◌,
}
use claimward_vpn_client.Errors.{Error, plain, Result, ok, err, wrap, wrapped, ◌>>=◌, error_text}
use claimward_vpn_client.Lease.{Time}
use claimward_vpn_client.Auth.{Token, kind_id_token}

-- `Config`; its `OnAuthURL` is the list of what was shown.
pub record OidcConfig : Type 0 where
  pub issuer : String
  pub client_id : String
  pub client_secret : String
  pub scopes : List String
  pub redirect_port : ℕ

-- `Tokens`.
pub record Tokens : Type 0 where
  pub id_token : String
  pub access_token : String
  pub refresh_token : String
  pub expiry : Time

-- `oauth2.Config`, with the provider's endpoint by a name.
pub record OauthConfig : Type 0 where
  pub client_id : String
  pub client_secret : String
  pub endpoint : String
  pub redirect_url : String
  pub scopes : List String

-- `oauth2.Token`; its `id_token` is an extra field, which may not be there.
pub record OauthToken : Type 0 where
  pub access_token : String
  pub refresh_token : String
  pub expiry : Time
  pub id_token : Option String

-- The parameters of a request to the callback.
pub record Query : Type 0 where
  pub error : String
  pub state : String
  pub auth_code : String

-- What happens while the login waits: the context ends, or a request reaches the loopback listener, at
-- the callback or elsewhere.
pub data Event : Type 0 where
  done : Error → Event
  callback : Query → Event
  elsewhere : String → Event

-- What the code calls: discovery, the listener (its address), the random source, base64, the PKCE
-- verifier, and the authorization and token requests of package oauth2.
pub record Idp : Type 0 where
  pub discover : String → Result String
  pub listen : String → Result String
  pub random : ℕ → List ℕ
  pub base64_url : List ℕ → String
  pub verifier : String
  pub auth_code_url : OauthConfig → String → String → String
  pub exchange : OauthConfig → String → String → Result OauthToken

-- The status of the page that the browser gets, and what goes to the channel.
pub record Reply : Type 0 where
  pub status : ℕ
  pub result : Result OauthToken

-- A login, with the URL that it showed, the replies of its listener, and its result once it has one.
pub record Login : Type 0 where
  pub shown : List String
  pub replies : List ℕ
  pub outcome : Option (Result Tokens)

-- `randString`.
unfoldable pub rand_string : Idp → ℕ → String
rand_string idp n = idp.base64_url (idp.random n)

abbrev pub scopes_of : OidcConfig → List String
scopes_of cfg =
    if is_empty cfg.scopes
    then "openid" ∷ "profile" ∷ "email" ∷ "offline_access" ∷ []
    else cfg.scopes

abbrev pub oauth_config : OidcConfig → String → String → OauthConfig
oauth_config cfg endpoint addr = record {
  client_id = cfg.client_id;
  client_secret = cfg.client_secret;
  endpoint = endpoint;
  redirect_url = "http://" +++ addr +++ "/callback";
  scopes = scopes_of cfg;
}

abbrev pub exchanged : Result OauthToken → Reply
exchanged (err e) = record { status = 500; result = err (wrapped "token exchange" e) }
exchanged (ok tok) = record { status = 200; result = ok tok }

-- The handler of the callback.
unfoldable pub handle_callback : Idp → OauthConfig → String → Query → Reply
handle_callback idp oauth state q =
    if not (is_blank q.error)
    then record {
      status = 400;
      result = err (plain ("identity provider returned error: " +++ q.error));
    }
    else if not (str_eq q.state state)
    then record { status = 400; result = err (plain "state mismatch (possible CSRF)") }
    else exchanged (idp.exchange oauth q.auth_code idp.verifier)

abbrev pub id_token_of : Option String → String
id_token_of none = ""
id_token_of (some s) = s

abbrev pub tokens_of : OauthToken → Tokens
tokens_of tok = record {
  id_token = id_token_of tok.id_token;
  access_token = tok.access_token;
  refresh_token = tok.refresh_token;
  expiry = tok.expiry;
}

abbrev pub received : Result OauthToken → Result Tokens
received (err e) = err e
received (ok tok) = ok (tokens_of tok)

abbrev pub waited : List String → List ℕ → Option (Result Tokens) → Login
waited shown replies r = record { shown = shown; replies = replies; outcome = r }

-- The `select`: the first event that decides; with no more events it still waits. The callbacks come in
-- the order in which their handlers finish, which may run beside each other: the first fills the
-- channel, and the replies of later ones are left out.
unfoldable pub await : Idp → OauthConfig → String → String → List Event → Login
await idp oauth state url [] = waited (url ∷ []) [] none
await idp oauth state url (done e ∷ rest) = waited (url ∷ []) [] (some (err e))
await idp oauth state url (elsewhere path ∷ rest) = await idp oauth state url rest
await idp oauth state url (callback q ∷ rest) =
    let r = handle_callback idp oauth state q in
    waited (url ∷ []) (r.status ∷ []) (some (received r.result))

abbrev pub started : Idp → String → OauthConfig → List Event → Login
started idp state oauth events =
    await idp oauth state (idp.auth_code_url oauth state idp.verifier) events

abbrev pub opened : Idp → OidcConfig → List Event → Result OauthConfig → Login
opened idp cfg events (err e) = waited [] [] (some (err e))
opened idp cfg events (ok oauth) = started idp (rand_string idp 24) oauth events

unfoldable pub prepare : Idp → OidcConfig → Result OauthConfig
prepare idp cfg = do
  endpoint ← wrap ("oidc discovery for " +++ quote cfg.issuer) (idp.discover cfg.issuer)
  addr ← wrap "open loopback listener" (idp.listen ("127.0.0.1:" +++ decimal cfg.redirect_port))
  ok (oauth_config cfg endpoint addr)

-- `Login`.
unfoldable pub login : Idp → OidcConfig → List Event → Login
login idp cfg events = opened idp cfg events (prepare idp cfg)

abbrev pub provider_config : String → String → OidcConfig
provider_config issuer client_id = record {
  issuer = issuer;
  client_id = client_id;
  client_secret = "";
  scopes = [];
  redirect_port = 0;
}

abbrev pub token_of : Result Tokens → Result Token
token_of (err e) = err e
token_of (ok t) = ok (record {
  value = t.id_token;
  kind = kind_id_token;
  expiry = t.expiry;
  refresh = t.refresh_token;
})

abbrev pub provider_outcome : Option (Result Tokens) → Option (Result Token)
provider_outcome none = none
provider_outcome (some r) = some (token_of r)

-- `oidcProvider.Login`, whose prompt is the URL shown.
unfoldable pub provider_login : Idp → String → String → List Event → Option (Result Token)
provider_login idp issuer client_id events =
    provider_outcome (login idp (provider_config issuer client_id) events).outcome
