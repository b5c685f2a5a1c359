-- ===== src/Helper/Loop/Errors.antt =====
-- No error of the part of `enroll` before the lock is blank, or reads like "superseded", by which `renew`
-- of pkg/helper/helper.go tells a re-enrollment that gave way.
use Prim.Native.Char.{Char, code}
use text.Mathlib.TextLemmas.{cons-append, head-eq_of_cons-eq, tail-eq_of_cons-eq}
use claimward_vpn_client.Common.{
  ◌≡◌, refl, sym, ◌∙◌, ap, String, Option, none, some, false, arith, ◌+++◌, ◌≢◌, str_eq, eq_iff,
  Bool-cases, inl, inr, quote, is_blank, trim_right,
}
use claimward_vpn_client.Errors.{Error, Result, ok, err, ◌>>=◌, wrap, error_text}
use claimward_vpn_client.Wire.{ConnectSpec, parse_private, Key, Keys, EnrollResponse, parse_public}
use claimward_vpn_client.Client.{tunnel_config}
use claimward_vpn_client.Helper.State.{Server, State}
use claimward_vpn_client.Helper.Enroll.{
  Env, Target, superseded, allowed, named, find_server, target, ask, asked, prepare,
}

-- Texts that begin with different characters differ, and so do those with different second ones.
heads_differ :
    (c d : Char) (s t x : String)
    → code c ≢ code d
    → str_eq (String.◌∷◌ c s +++ x) (String.◌∷◌ d t) ≡ false
heads_differ c d s t x ne = elim (Bool-cases (str_eq (String.◌∷◌ c s +++ x) (String.◌∷◌ d t))) [
  | inl same ↦
      let e = sym (cons-append c s x) ∙ (eq_iff _ _).0 same in
      absurd (ne (ap code (head-eq_of_cons-eq e)))
  | inr other ↦ other
]

seconds_differ :
    (a b c d : Char) (s t x : String)
    → code c ≢ code d
    → str_eq (String.◌∷◌ a (String.◌∷◌ c s) +++ x) (String.◌∷◌ b (String.◌∷◌ d t)) ≡ false
seconds_differ a b c d s t x ne =
    elim (Bool-cases
      (str_eq (String.◌∷◌ a (String.◌∷◌ c s) +++ x) (String.◌∷◌ b (String.◌∷◌ d t)))) [
        | inl same ↦
            let e = sym (cons-append a (String.◌∷◌ c s) x) ∙ (eq_iff _ _).0 same in
            let tails = sym (cons-append c s x) ∙ tail-eq_of_cons-eq e in
            absurd (ne (ap code (head-eq_of_cons-eq tails)))
        | inr other ↦ other
      ]

-- A text that no error of that part reads like.
pub record Apart (t : String) : Type 0 where
  pub enroll_lem : (x : String) → str_eq ("enroll" +++ x) t ≡ false
  pub private_lem : (x : String) → str_eq ("private key" +++ x) t ≡ false
  pub public_lem : (x : String) → str_eq ("parse server public key" +++ x) t ≡ false
  pub server_lem : (x : String) → str_eq ("server " +++ x) t ≡ false
  pub spec_lem : str_eq "missing connect spec" t ≡ false

pub superseded-Apart : Apart superseded
superseded-Apart = record {
  enroll_lem = λ x. heads_differ "e" "s" "nroll" "uperseded" x (omega arith);
  private_lem = λ x. heads_differ "p" "s" "rivate key" "uperseded" x (omega arith);
  public_lem = λ x. heads_differ "p" "s" "arse server public key" "uperseded" x (omega arith);
  server_lem = λ x. seconds_differ "s" "s" "e" "u" "rver " "perseded" x (omega arith);
  spec_lem = refl;
}

filled : (c : Char) (s x : String) → str_eq (String.◌∷◌ c s +++ x) "" ≡ false
filled c s x = elim (Bool-cases (str_eq (String.◌∷◌ c s +++ x) "")) [
  | inl same ↦
      let e : String.◌∷◌ c (s +++ x) ≡ String.[] =
        sym (cons-append c s x) ∙ (eq_iff (String.◌∷◌ c s +++ x) "").0 same in
      absurd (cc)
  | inr other ↦ other
]

-- Nor is any of them blank.
pub blank-Apart : Apart ""
blank-Apart = record {
  enroll_lem = λ x. filled "e" "nroll" x;
  private_lem = λ x. filled "p" "rivate key" x;
  public_lem = λ x. filled "p" "arse server public key" x;
  server_lem = λ x. filled "s" "erver " x;
  spec_lem = refl;
}

abbrev IsPlain : String → Error → Type 0
IsPlain t e = str_eq (error_text e) t ≡ false

abbrev pub Clean {ℓ} : {A : Type ℓ} → String → Result A → Type 0
Clean t (ok a) = Unit
Clean t (err e) = IsPlain t e

module _ (t : String) (apart : Apart t) where
  >>=-Clean {ℓ κ} :
      {A : Type ℓ} {B : Type κ} (m : Result A) (f : A → Result B)
      → Clean t m
      → ((a : A) → Clean t (f a))
      → Clean t (m >>= f)
  >>=-Clean (ok a) f h k = k a
  >>=-Clean (err e) f h k = h

  module _ {ℓ} {A : Type ℓ} where
    enroll-Clean : (r : Result A) → Clean t (wrap "enroll" r)
    unfolding error_text
    enroll-Clean (ok a) = tt
    enroll-Clean (err e) = apart.enroll_lem (": " +++ error_text e)

    private_key-Clean : (r : Result A) → Clean t (wrap "private key" r)
    unfolding error_text
    private_key-Clean (ok a) = tt
    private_key-Clean (err e) = apart.private_lem (": " +++ error_text e)

    server_key-Clean : (r : Result A) → Clean t (wrap "parse server public key" r)
    unfolding error_text
    server_key-Clean (ok a) = tt
    server_key-Clean (err e) = apart.public_lem (": " +++ error_text e)

  named-Clean : (url : String) (o : Option String) → Clean t (named url o)
  unfolding error_text
  named-Clean url (some u) = tt
  named-Clean url none =
      apart.server_lem (quote url +++ " is not one this helper is configured for")

  allowed-Clean : (srv : Server) (spec : ConnectSpec) → Clean t (allowed srv (some spec))
  unfolding allowed error_text
  allowed-Clean srv spec = elim (Bool-cases (is_blank spec.bearer)) [
    | inl blank ↦ rw blank apart.spec_lem
    | inr given ↦
        rw given (
          named-Clean spec.server_url (find_server (trim_right spec.server_url) srv.config.servers))
  ]

  target-Clean :
      (srv : Server) (env : Env) (spec : Option ConnectSpec) → Clean t (target srv env spec)
  unfolding target error_text
  target-Clean srv env none = apart.spec_lem
  target-Clean srv env (some spec) =
      >>=-Clean (allowed srv (some spec)) _ (allowed-Clean srv spec) λ u.
        >>=-Clean (wrap "private key" (parse_private env.keys spec.private_key)) _
          (private_key-Clean (parse_private env.keys spec.private_key)) (λ pair. tt)

  tunnel_config-Clean :
      (k : Keys) (resp : EnrollResponse) (key : Key) → Clean t (tunnel_config k resp key)
  unfolding tunnel_config
  tunnel_config-Clean k resp key =
      >>=-Clean (wrap "parse server public key" (parse_public k resp.server_public_key)) _
        (server_key-Clean (parse_public k resp.server_public_key)) (λ server_key. tt)

  ask-Clean : (srv : Server) (env : Env) (x : Target) → Clean t (ask srv env x)
  unfolding ask
  ask-Clean srv env x = >>=-Clean (wrap "enroll" _) _ (enroll-Clean _) λ resp.
      >>=-Clean (tunnel_config env.keys resp x.pair.secret) _
        (tunnel_config-Clean env.keys resp x.pair.secret) (λ config. tt)

  asked-Clean :
      (srv : Server) (env : Env) (s : State) (r : Result Target)
      → Clean t r
      → Clean t (asked srv env s r).1
  asked-Clean srv env s (err e) h = h
  asked-Clean srv env s (ok x) h = ask-Clean srv env x

  pub prepare-Clean :
      (srv : Server) (env : Env) (s : State) (spec : Option ConnectSpec)
      → Clean t (prepare srv env s spec).1
  unfolding prepare
  prepare-Clean srv env s spec =
      asked-Clean srv env s (target srv env spec) (target-Clean srv env spec)
