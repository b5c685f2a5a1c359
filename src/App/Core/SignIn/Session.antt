-- ===== src/App/Core/SignIn/Session.antt =====
-- What a sign-in of pkg/appcore/appcore.go leaves: the session file, the tenants and the prompt.
use claimward_vpn_client.Common.{
  ◌≡◌, ◌+++◌, refl, sym, ap, subst, ◌∙◌, inl, inr, is_blank, List, [], ◌∷◌, Option, none, some,
  false, Bool-cases,
}
use claimward_vpn_client.Errors.{Result, ok, err, Result-cases, ◌>>◌}
use claimward_vpn_client.Wire.{Pair, generate}
use claimward_vpn_client.Store.{Stored, load}
use claimward_vpn_client.Store.Atomic.{save_atomic}
use claimward_vpn_client.Auth.{Token, Provider, new_provider, provider_name}
use claimward_vpn_client.Auth.GitHub.{DevicePrompt}
use claimward_vpn_client.App.Config.{validate, auth_config}
use claimward_vpn_client.App.Core.{World, Core, logf}
use claimward_vpn_client.App.Core.SignIn.{
  Providers, attempt, shown_prompts, prompt_cleared, old_session, with_token, new_keyed, keyed,
  session_saved, signed_in, attempted, login_with, login,
}

-- A session is that of a token: all of it, for no tenant.
abbrev pub IsOf : Provider → Token → Stored → Type 0
IsOf p tok s =
    (s.provider ≡ provider_name p)
    × (s.bearer ≡ tok.value)
    × (s.bearer_kind ≡ tok.kind)
    × (s.refresh_token ≡ tok.refresh)
    × (s.expiry ≡ tok.expiry)
    × (s.tenant ≡ "")

-- The device's key of an old session, where it has one, is that of the new one.
abbrev pub KeepsKey : Result (Option Stored) → Stored → Type 0
KeepsKey o s =
    is_blank (old_session o).wg_private_key ≡ false
    → s.wg_private_key ≡ (old_session o).wg_private_key

pub record SignedIn (w : World) (ps : Providers) (c : Core) (d : Core) : Type 0 where
  pub provider : Provider
  pub token : Token
  pub session : Stored
  pub is_valid : validate c.cfg ≡ ok tt
  pub provider_lem : new_provider (auth_config c.cfg) ≡ ok provider
  pub attempt_lem : (attempt ps provider).outcome ≡ some (ok token)
  pub session_lem : d.files.session ≡ some (w.os.encode session)
  pub is_of : IsOf provider token session
  pub keeps_key : KeepsKey (load w.os c.files) session
  pub tenants_lem : d.tenants ≡ []
  pub choice_lem : d.tenant_required ≡ false

keyed_lem :
    (w : World) (ps : Providers) (s t : Stored)
    → keyed w ps s ≡ ok t
    → ((p : Provider) (tok : Token) → IsOf p tok s → IsOf p tok t)
      × (is_blank s.wg_private_key ≡ false → t.wg_private_key ≡ s.wg_private_key)
keyed_lem w ps s t h = elim (Bool-cases (is_blank s.wg_private_key)) [
  | inr has ↦
      let h' : ok s ≡ ok t = simp has at h in
      let e : s ≡ t = cc in
      (λ p tok i. subst (λ u. IsOf p tok u) e i, λ k. ap (λ (u : Stored). u.wg_private_key) (sym e))
  | inl blank ↦
      let h' : new_keyed w s (generate w.keys ps.drawn) ≡ ok t = simp blank at h in
      (λ p tok i. drawn (generate w.keys ps.drawn) h' p tok i, λ k. absurd (cc))
]
  where
    drawn :
        (r : Result Pair)
        → new_keyed w s r ≡ ok t
        → (p : Provider) (tok : Token) → IsOf p tok s
        → IsOf p tok t
    drawn (err e) k p tok i = absurd (cc)
    drawn (ok pair) k p tok i =
        let e : record s { wg_private_key = w.keys.key_text pair.secret } ≡ t = cc in
        subst (λ u. IsOf p tok u) e i

prompts-files : (c : Core) (l : List DevicePrompt) → (shown_prompts c l).files ≡ c.files
prompts-files c [] = refl
prompts-files c (p ∷ l) =
    prompts-files (record c { dev_uri = p.verification_uri; dev_code = p.user_code }) l

session_saved_lem :
    (w : World) (c : Core) (r : Result Stored)
    → (session_saved w c r).1 ≡ ok tt
    → (s : Stored) × (r ≡ ok s)
      × ((session_saved w c r).0.files.session ≡ some (w.os.encode s))
      × ((session_saved w c r).0.tenants ≡ [])
      × ((session_saved w c r).0.tenant_required ≡ false)
session_saved_lem w c (err e) h = cc
session_saved_lem w c (ok s) h = elim (save_atomic w.os c.files s) [
  | inl done ↦ (s, refl, done.1, refl, refl)
  | inr failed ↦ absurd (cc (sym h ∙ failed.1))
]

module _ (w : World) (ps : Providers) (c : Core) where
  attempted-SignedIn :
      (p : Provider) (d : Core) (tok : Token)
      → d.files ≡ c.files
      → validate c.cfg ≡ ok tt
      → new_provider (auth_config c.cfg) ≡ ok p
      → (attempt ps p).outcome ≡ some (ok tok)
      → (signed_in w ps d p tok).1 ≡ ok tt
      → SignedIn w ps c (prompt_cleared (signed_in w ps d p tok).0)
  unfolding logf
  attempted-SignedIn p d tok same valid made got h =
      let start = with_token (old_session (load w.os d.files)) p tok in
      let (s, f, held, none_left, no_choice) =
        session_saved_lem w (logf w d "signed in") (keyed w ps start) h in
      let k = keyed_lem w ps start s f in
      record {
        provider = p;
        token = tok;
        session = s;
        is_valid = valid;
        provider_lem = made;
        attempt_lem = got;
        session_lem = held;
        is_of = k.0 p tok (refl, refl, refl, refl, refl, refl);
        keeps_key = subst (λ f. KeepsKey (load w.os f) s) same k.1;
        tenants_lem = none_left;
        choice_lem = no_choice;
      }

  outcome-SignedIn :
      (p : Provider) (d : Core) (o : Option (Result Token))
      → (attempt ps p).outcome ≡ o
      → d.files ≡ c.files
      → validate c.cfg ≡ ok tt
      → new_provider (auth_config c.cfg) ≡ ok p
      → (attempted w ps d p o).1 ≡ some (ok tt)
      → SignedIn w ps c (attempted w ps d p o).0
  outcome-SignedIn p d none got same valid made h = absurd (cc)
  outcome-SignedIn p d (some (err e)) got same valid made h = absurd (cc)
  outcome-SignedIn p d (some (ok tok)) got same valid made h =
      attempted-SignedIn p d tok same valid made got (cc)

-- A sign-in that succeeds has a valid configuration, and a token that its provider gave. The session
-- file then holds a session of that token, for no tenant, with the device key of the session that was
-- there, if it had one; and the core offers no tenants of the person who was signed in before.
pub login-SignedIn :
    (w : World) (ps : Providers) (c : Core)
    → (login w ps c).1 ≡ some (ok tt)
    → SignedIn w ps c (login w ps c).0
unfolding login logf
login-SignedIn w ps c h = elim (Result-cases (validate c.cfg)) [
  | inr (e, bad) ↦ let h' = simp bad at h in absurd (cc)
  | inl (u, valid) ↦ elim (Result-cases (new_provider (auth_config c.cfg))) [
    | inr (e, bad) ↦ let h' = simp (valid, bad) at h in absurd (cc)
    | inl (p, made) ↦
        let d =
          shown_prompts (logf w c ("sign-in via " +++ provider_name p +++ "…"))
            (attempt ps p).prompted in
        let h' : (attempted w ps d p (attempt ps p).outcome).1 ≡ some (ok tt) =
          simp (valid, made) at h in
        let same =
          prompts-files (logf w c ("sign-in via " +++ provider_name p +++ "…"))
            (attempt ps p).prompted in
        rw valid
          (rw made (outcome-SignedIn w ps c p d (attempt ps p).outcome refl same valid made h'))
  ]
]

-- Whatever comes of a sign-in, once it is over no prompt is left in the status, if none was before.
pub login_prompt :
    (w : World) (ps : Providers) (c : Core) (r : Result (Unit {0}))
    → (login w ps c).1 ≡ some r
    → (c.dev_uri ≡ "") × (c.dev_code ≡ "")
    → ((login w ps c).0.dev_uri ≡ "") × ((login w ps c).0.dev_code ≡ "")
unfolding login
login_prompt w ps c r h clear = at (do validate c.cfg; new_provider (auth_config c.cfg)) h
  where
    over :
        (d : Core) (p : Provider) (o : Option (Result Token))
        → (attempted w ps d p o).1 ≡ some r
        → ((attempted w ps d p o).0.dev_uri ≡ "") × ((attempted w ps d p o).0.dev_code ≡ "")
    over d p none k = absurd (cc)
    over d p (some (err e)) k = (refl, refl)
    over d p (some (ok tok)) k = (refl, refl)

    at :
        (q : Result Provider)
        → (login_with w ps c q).1 ≡ some r
        → ((login_with w ps c q).0.dev_uri ≡ "") × ((login_with w ps c q).0.dev_code ≡ "")
    at (err e) k = clear
    at (ok p) k =
        over
          (shown_prompts (logf w c ("sign-in via " +++ provider_name p +++ "…"))
            (attempt ps p).prompted)
          p (attempt ps p).outcome k
