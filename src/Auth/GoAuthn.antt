-- ===== src/Auth/GoAuthn.antt =====
-- `RegisterKey`, `register` and `refresh` of pkg/auth/goauthn.go.
use claimward_vpn_client.Common.{
  ℕ, ◌==◌, ◌+++◌, ◌+◌, ◌≤◌, ◌<◌, ◌≡◌, ◌⊎◌, inl, inr, String, Bool, true, false, not, ◌||◌, is_blank,
  trim_right, trim_space, ℤ, pos, leb_ℤ, mul_int64, if◌then◌else◌, arith, Bool-cases,
}
use claimward_vpn_client.Errors.{plain, Result, ok, err, ◌>>=◌, ◌>>◌, wrap, Result-cases}
use claimward_vpn_client.Lease.{Time, until, add_time, minute, second}
use claimward_vpn_client.Auth.{Token, kind_access_token}

-- A request to the provider: a key to register, under a bearer, or a refresh, for a scope.
pub data Ask : Type 0 where
  registers : (url bearer public_key device : String) → Ask
  refreshes : (url refresh client_id scope : String) → Ask

pub record Answer : Type 0 where
  pub status : ℕ
  pub status_text : String
  pub body : String

-- The fields of a token answer.
pub record TokenBody : Type 0 where
  pub access_token : String
  pub refresh_token : String
  pub expires_in : ℤ
  pub error : String
  pub description : String

-- What the code calls: the discovery of the endpoints (the token URL), the transport, the decoder,
-- and the clock.
pub record Idp : Type 0 where
  pub token_url : Result String
  pub ask : Ask → Result Answer
  pub decode_token : String → Result TokenBody
  pub now : Time

abbrev pub registered_ok : Answer → Result (Unit {0})
registered_ok a =
    if a.status == 200
    then ok tt
    else err (
        plain
          ("go-authn refused the device key (" +++ a.status_text +++ "): " +++ trim_space a.body))

abbrev pub register_ask : String → String → String → String → Ask
register_ask issuer bearer public_key device =
    registers (trim_right issuer +++ "/wireguard/key") bearer public_key device

abbrev pub expiry_of : Time → ℤ → Time
expiry_of now z = if leb_ℤ z (pos 0) then 0 else add_time now (mul_int64 z second)

abbrev pub refreshed : Time → String → Answer → TokenBody → Result Token
refreshed now old a out =
    if not (a.status == 200) || is_blank out.access_token
    then err (
        plain (
          "go-authn refresh refused (" +++ a.status_text +++ "): " +++ out.error +++ " "
          +++ out.description))
    else ok (record {
      value = out.access_token;
      kind = kind_access_token;
      expiry = expiry_of now out.expires_in;
      refresh = if is_blank out.refresh_token then old else out.refresh_token;
    })

-- The sign-in token is blank, or has less than a minute left.
abbrev pub has_lapsed : Time → Token → Bool
has_lapsed now tok = is_blank tok.value || not (leb_ℤ (pos minute) (until tok.expiry now))

module _ (p : Idp) (issuer client_id : String) where
  -- `register`.
  unfoldable pub register : String → String → String → Result (Unit {0})
  register bearer public_key device = do
    a ←
        wrap "go-authn: registering the device key"
          (p.ask (register_ask issuer bearer public_key device))
    registered_ok a

  -- `refresh`.
  unfoldable pub refresh : String → String → String → Result Token
  refresh url old scope = do
    a ← wrap "go-authn refresh" (p.ask (refreshes url old client_id scope))
    out ← wrap ("go-authn refresh (" +++ a.status_text +++ ")") (p.decode_token a.body)
    refreshed p.now old a out

  -- The token that opens the key registry, and the refresh token that goes with it.
  unfoldable pub registry_token : String → Token → Result Token
  unfolding refresh
  registry_token url tok = if has_lapsed p.now tok then refresh url tok.refresh "" else ok tok

  -- `RegisterKey`.
  unfoldable pub register_key : Token → String → String → Result Token
  register_key tok public_key device = do
    url ← p.token_url
    if is_blank tok.refresh
        then err (
            plain
              "go-authn: no refresh token, so no token for the VPN server can be had; the client needs refresh_lifetime at the provider")
        else do
          t ← registry_token url tok
          register t.value public_key device
          refresh url t.refresh "openid"

  -- A refresh that the provider granted: its request, its answer, and the token that is made of it.
  pub record Granted (url old scope : String) (t : Token) : Type 0 where
    pub answer : Answer
    pub body : TokenBody
    pub answered : p.ask (refreshes url old client_id scope) ≡ ok answer
    pub granted : answer.status ≡ 200
    pub decoded : p.decode_token answer.body ≡ ok body
    pub value_lem : t.value ≡ body.access_token
    pub usable : is_blank t.value ≡ false
    pub kind_lem : t.kind ≡ kind_access_token
    pub rotated :
        ((is_blank body.refresh_token ≡ false) × (t.refresh ≡ body.refresh_token))
        ⊎ ((is_blank body.refresh_token ≡ true) × (t.refresh ≡ old))

  refreshed-Granted :
      (url old scope : String) (a : Answer) (out : TokenBody) (t : Token)
      → p.ask (refreshes url old client_id scope) ≡ ok a
      → p.decode_token a.body ≡ ok out
      → refreshed p.now old a out ≡ ok t
      → Granted url old scope t
  refreshed-Granted url old scope a out t asked read h = record {
    answer = a;
    body = out;
    answered = asked;
    granted = ground arith;
    decoded = read;
    value_lem = ground arith;
    usable = ground arith;
    kind_lem = ground arith;
    rotated = ground arith;
  }

  refresh-Granted :
      (url old scope : String) (t : Token) → refresh url old scope ≡ ok t → Granted url old scope t
  unfolding refresh
  refresh-Granted url old scope t h =
      elim (Result-cases (p.ask (refreshes url old client_id scope))) [
        | inr (e, lost) ↦ absurd (ground arith)
        | inl (a, answered) ↦ elim (Result-cases (p.decode_token a.body)) [
          | inr (e, broken) ↦ absurd (ground arith)
          | inl (out, decoded) ↦
              refreshed-Granted url old scope a out t answered decoded (ground arith)
        ]
      ]

  -- The token that the key is registered with: the sign-in token, where it has a minute left or more,
  -- and else one that the provider granted for the refresh token that came with it.
  abbrev pub Opens : String → Token → Token → Type 0
  Opens url tok registry =
      ((is_blank tok.value ≡ false) × (p.now + minute ≤ tok.expiry) × (tok ≡ registry))
      ⊎ (((is_blank tok.value ≡ true) ⊎ (tok.expiry < p.now + minute))
          × Granted url tok.refresh "" registry)

  registry-Opens :
      (url : String) (tok registry : Token)
      → registry_token url tok ≡ ok registry
      → Opens url tok registry
  unfolding registry_token
  registry-Opens url tok registry h = elim (Bool-cases (has_lapsed p.now tok)) [
    | inl lapsed ↦ inr (ground arith, refresh-Granted url tok.refresh "" registry (ground arith))
    | inr fresh ↦ inl (ground arith, ground arith, ground arith)
  ]

  -- A registration that the provider took.
  abbrev pub Takes : String → String → String → Type 0
  Takes bearer public_key device =
      (a : Answer) × (p.ask
          (registers (trim_right issuer +++ "/wireguard/key") bearer public_key device)
        ≡ ok a)
      × (a.status ≡ 200)

  register-Takes :
      (bearer public_key device : String)
      → register bearer public_key device ≡ ok tt
      → Takes bearer public_key device
  unfolding register
  register-Takes bearer public_key device h =
      elim (Result-cases (p.ask (register_ask issuer bearer public_key device))) [
        | inr (e, lost) ↦ absurd (ground arith)
        | inl (a, answered) ↦ (a, answered, ground arith)
      ]

  -- What a token for the server stands on.
  pub record Registered (tok : Token) (public_key device : String) (t : Token) : Type 0 where
    pub url : String
    pub registry : Token
    pub found : p.token_url ≡ ok url
    pub renewable : is_blank tok.refresh ≡ false
    pub opened : Opens url tok registry
    pub taken : Takes registry.value public_key device
    pub granted : Granted url registry.refresh "openid" t

  -- A token for the server is had only from a sign-in with a refresh token, once the provider answered
  -- 200 to the registration of the key under a token that opens the registry: the sign-in token if that
  -- is not blank and has a minute left or more, and else one that the provider granted for its refresh
  -- token with no scope. It is the access token, not blank, of the provider's answer to the refresh
  -- token that came with that one, for the scope "openid"; its own refresh token is the answer's, or
  -- where the answer has none the one that was shown.
  pub register_key_lem :
      (tok : Token) (public_key device : String) (t : Token)
      → register_key tok public_key device ≡ ok t
      → Registered tok public_key device t
  unfolding register_key
  register_key_lem tok public_key device t h = elim (Result-cases p.token_url) [
    | inr (e, lost) ↦ absurd (ground arith)
    | inl (url, found) ↦ elim (Bool-cases (is_blank tok.refresh)) [
      | inl blank ↦ absurd (ground arith)
      | inr held ↦ elim (Result-cases (registry_token url tok)) [
        | inr (e, closed) ↦ absurd (ground arith)
        | inl (r, opened) ↦ elim (Result-cases (register r.value public_key device)) [
          | inr (e, refused) ↦ absurd (ground arith)
          | inl (u, accepted) ↦ record {
            url = url;
            registry = r;
            found = found;
            renewable = held;
            opened = registry-Opens url tok r opened;
            taken = register-Takes r.value public_key device accepted;
            granted = refresh-Granted url r.refresh "openid" t (ground arith);
          }
        ]
      ]
    ]
  ]
