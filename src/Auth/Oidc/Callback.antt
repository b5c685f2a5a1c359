-- ===== src/Auth/Oidc/Callback.antt =====
-- Which request to the callback of pkg/oidc/oidc.go brings tokens.
use claimward_vpn_client.Common.{
  ◌≡◌, refl, sym, ap, ◌∙◌, inl, inr, String, List, [], ◌∷◌, none, some, true, is_blank, str_eq,
  eq_iff, Bool-cases, ◌↔◌,
}
use claimward_vpn_client.Errors.{Result, ok, err}
use claimward_vpn_client.Auth.{Token, kind_id_token}
use claimward_vpn_client.Auth.Oidc.{
  OidcConfig, Tokens, OauthConfig, OauthToken, Query, Event, done, callback, elsewhere, Idp,
  rand_string, exchanged, handle_callback, tokens_of, received, await, opened, prepare, login,
  provider_login, provider_config, opened,
}

-- The requests that the listener's other paths got, and then the callback.
abbrev pub FirstCallback : List Event → Query → Type 0
FirstCallback [] q = ⊥
FirstCallback (done e ∷ rest) q = ⊥
FirstCallback (elsewhere path ∷ rest) q = FirstCallback rest q
FirstCallback (callback r ∷ rest) q = r ≡ q

-- A callback that is no error of the provider, with the state of this login, whose code the provider
-- took with this login's verifier.
abbrev pub Answers : Idp → OauthConfig → String → Query → OauthToken → Type 0
Answers idp oauth state q tok =
    (is_blank q.error ≡ true)
    × (q.state ≡ state)
    × (idp.exchange oauth q.auth_code idp.verifier ≡ ok tok)

handle_callback_ok :
    (idp : Idp) (oauth : OauthConfig) (state : String) (q : Query) (tok : OauthToken)
    → (handle_callback idp oauth state q).result ≡ ok tok
    → Answers idp oauth state q tok
unfolding handle_callback
handle_callback_ok idp oauth state q tok h = elim (Bool-cases (is_blank q.error)) [
  | inr bad ↦ let h' = simp bad at h in cc
  | inl good ↦ elim (Bool-cases (str_eq q.state state)) [
    | inr other ↦ let h' = simp (good, other) at h in cc
    | inl same ↦
        let h' : (exchanged (idp.exchange oauth q.auth_code idp.verifier)).result ≡ ok tok =
          simp (good, same) at h in
        (
          good,
          (eq_iff q.state state).0 same,
          exchanged_ok (idp.exchange oauth q.auth_code idp.verifier) h',
        )
  ]
]
  where
    exchanged_ok : (r : Result OauthToken) → (exchanged r).result ≡ ok tok → r ≡ ok tok
    exchanged_ok (err e) k = cc
    exchanged_ok (ok t) k = k

received_ok :
    (r : Result OauthToken) (t : Tokens)
    → received r ≡ ok t
    → (tok : OauthToken) × (r ≡ ok tok) × (t ≡ tokens_of tok)
received_ok (err e) t h = cc
received_ok (ok tok) t h = (tok, refl, cc)

handle_callback-Answers :
    (idp : Idp) (oauth : OauthConfig) (state : String) (q : Query) (tok : OauthToken)
    → Answers idp oauth state q tok
    → (handle_callback idp oauth state q).result ≡ ok tok
unfolding handle_callback
handle_callback-Answers idp oauth state q tok (good, same, taken) =
    let eq = (eq_iff q.state state).1 same in rw good (rw eq (rw taken refl))

module _ (idp : Idp) (oauth : OauthConfig) (state url : String) where
  await_ok :
      (events : List Event) (t : Tokens)
      → (await idp oauth state url events).outcome ≡ some (ok t)
      → (q : Query) × (tok : OauthToken) × FirstCallback events q
        × Answers idp oauth state q tok
        × (t ≡ tokens_of tok)
  unfolding await
  await_ok [] t h = cc
  await_ok (done e ∷ rest) t h = cc
  await_ok (elsewhere path ∷ rest) t h = await_ok rest t h
  await_ok (callback q ∷ rest) t h =
      let r = (handle_callback idp oauth state q).result in
      let h' : received r ≡ ok t = cc in
      let (tok, f, e) = received_ok r t h' in
      (q, tok, refl, handle_callback_ok idp oauth state q tok f, e)

  await-Answers :
      (events : List Event) (q : Query) (tok : OauthToken)
      → FirstCallback events q
      → Answers idp oauth state q tok
      → (await idp oauth state url events).outcome ≡ some (ok (tokens_of tok))
  unfolding await
  await-Answers [] q tok first a = absurd first
  await-Answers (done e ∷ rest) q tok first a = absurd first
  await-Answers (elsewhere path ∷ rest) q tok first a = await-Answers rest q tok first a
  await-Answers (callback r ∷ rest) q tok first a =
      let f = handle_callback-Answers idp oauth state q tok a in rw first (rw f refl)

-- What a login owes for its tokens: the provider was found and the listener opened, and the first
-- callback, before the end of the context, is one that answers this login.
abbrev pub Signed : Idp → OidcConfig → List Event → OauthToken → Type 0
Signed idp cfg events tok =
    (oauth : OauthConfig) × (prepare idp cfg ≡ ok oauth)
    × (q : Query) × FirstCallback events q
    × Answers idp oauth (rand_string idp 24) q tok

Signed-login :
    (idp : Idp) (cfg : OidcConfig) (events : List Event) (tok : OauthToken)
    → Signed idp cfg events tok
    → (login idp cfg events).outcome ≡ some (ok (tokens_of tok))
unfolding login
Signed-login idp cfg events tok (oauth, f, q, first, a) =
    let state = rand_string idp 24 in
    let url = idp.auth_code_url oauth state idp.verifier in
    rw f (await-Answers idp oauth state url events q tok first a)

login_ok :
    (idp : Idp) (cfg : OidcConfig) (events : List Event) (t : Tokens)
    → (login idp cfg events).outcome ≡ some (ok t)
    → (tok : OauthToken) × Signed idp cfg events tok × (t ≡ tokens_of tok)
unfolding login
login_ok idp cfg events t = at (prepare idp cfg) refl
  where
    at :
        (r : Result OauthConfig)
        → prepare idp cfg ≡ r
        → (opened idp cfg events r).outcome ≡ some (ok t)
        → (tok : OauthToken) × Signed idp cfg events tok × (t ≡ tokens_of tok)
    at (err e) f h = cc
    at (ok oauth) f h =
        let state = rand_string idp 24 in
        let url = idp.auth_code_url oauth state idp.verifier in
        let (q, tok, first, a, e) = await_ok idp oauth state url events t h in
        (tok, (oauth, f, q, first, a), e)

-- A login brings tokens exactly when its preparation succeeds and the first request to its callback,
-- which comes before the context ends, carries no error, has the state that this login drew, and has
-- a code that the provider exchanges for just these tokens with this login's verifier. So no request
-- without that state can sign anyone in.
pub login_iff :
    (idp : Idp) (cfg : OidcConfig) (events : List Event) (t : Tokens)
    → ((login idp cfg events).outcome ≡ some (ok t))
      ↔ ((tok : OauthToken) × Signed idp cfg events tok × (t ≡ tokens_of tok))
login_iff idp cfg events t = (
  login_ok idp cfg events t,
  λ h.
      let (tok, s, e) = h in
      Signed-login idp cfg events tok s ∙ ap (λ (x : Tokens). some (ok x)) (sym e),
)

-- Where the provider's token answer has no ID token, the OIDC sign-in still reports success, with a
-- blank bearer.
pub provider_login-blank :
    (idp : Idp) (issuer client_id : String) (events : List Event) (tok : OauthToken)
    → Signed idp (provider_config issuer client_id) events tok
    → tok.id_token ≡ none
    → (t : Token) × (provider_login idp issuer client_id events ≡ some (ok t)) × (t.value ≡ "")
unfolding provider_login
provider_login-blank idp issuer client_id events tok s lost =
    let h = Signed-login idp (provider_config issuer client_id) events tok s in
    let t : Token = record {
      value = "";
      kind = kind_id_token;
      expiry = tok.expiry;
      refresh = tok.refresh_token;
    } in
    (t, rw h (rw lost refl), refl)
