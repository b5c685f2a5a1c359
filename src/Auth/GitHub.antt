-- ===== src/Auth/GitHub.antt =====
-- The GitHub device flow: `Login` and `form` of pkg/auth/github.go.
pub mod Polling
use claimward_vpn_client.Common.{
  ℕ, zero, suc, ltb, ◌+++◌, String, List, [], ◌∷◌, Option, none, some, Bool, str_eq, is_blank,
  trim_right, join_with, ℤ, pos, leb_ℤ, mul_int64, add_int64, if◌then◌else◌,
}
use claimward_vpn_client.Errors.{Error, plain, Result, ok, err, ◌>>=◌, ◌>>◌}
use claimward_vpn_client.Lease.{Time, Duration, second, add_time}
use claimward_vpn_client.Auth.{Token, kind_access_token}

-- The fields of `githubProvider` that never change.
pub record GitHubProvider : Type 0 where
  pub client_id : String
  pub base_url : String
  pub scopes : List String

-- The answer to the request for a code.
pub record DeviceCode : Type 0 where
  pub device_code : String
  pub user_code : String
  pub verification_uri : String
  pub expires_in : ℤ
  pub interval : ℤ
  pub error : String
  pub description : String

-- The answer to a request for the token.
pub record TokenAnswer : Type 0 where
  pub access_token : String
  pub error : String
  pub description : String

-- `DevicePrompt` of pkg/auth/auth.go.
pub record DevicePrompt : Type 0 where
  pub verification_uri : String
  pub user_code : String
  pub expires_in : ℤ

-- How a wait ends: the context is done, or the timer has fired, at a time.
pub data Wake : Type 0 where
  cancelled : Error → Wake
  woke : Time → Wake

-- What the code calls: the clock, the timer (with the round, and the time of its start), the
-- transport (with the number of the request), the encoder of a form and the decoders.
pub record Github : Type 0 where
  pub now : Time
  pub wait : ℕ → Time → Duration → Wake
  pub check_url : String → Result (Unit {0})
  pub encode : List (String × String) → String
  pub post : ℕ → String → String → Result String
  pub decode_device : String → Result DeviceCode
  pub decode_token : String → Result TokenAnswer

-- What a round of polling comes to.
pub data Round : Type 0 where
  ended : Result Token → Round
  again : ℤ → Time → Round

-- A login, with the prompts that it showed and the URLs that it opened.
pub record Login : Type 0 where
  pub prompted : List DevicePrompt
  pub opened : List String
  pub outcome : Option (Result Token)

abbrev expired : Result Token
expired = err (plain "device code expired before authorization")

-- The `switch` on the error of a token answer.
abbrev pub verdict : ℤ → Time → TokenAnswer → Round
verdict interval t a =
    if is_blank a.error
    then ended (
        if is_blank a.access_token
        then err (plain "github returned an empty access token")
        else ok
            (record { value = a.access_token; kind = kind_access_token; expiry = 0; refresh = "" }))
    else if str_eq a.error "authorization_pending"
    then again interval t
    else if str_eq a.error "slow_down"
    then again (add_int64 interval (pos 5)) t
    else if str_eq a.error "access_denied"
    then ended (err (plain "authorization was denied"))
    else if str_eq a.error "expired_token"
    then ended expired
    else ended (err (plain ("github token: " +++ a.error +++ ": " +++ a.description)))

abbrev pub answered : ℤ → Time → Result TokenAnswer → Round
answered interval t (err e) = ended (err e)
answered interval t (ok a) = verdict interval t a

module _ (w : Github) (p : GitHubProvider) where
  -- `form`, up to the decoder.
  unfoldable pub form : ℕ → String → List (String × String) → Result String
  form n path values =
      let url = trim_right p.base_url +++ path in w.check_url url >> w.post n url (w.encode values)

  unfoldable pub ask_device : Result DeviceCode
  ask_device = do
    body ←
        form 0 "/login/device/code"
          (("client_id", p.client_id) ∷ ("scope", join_with " " p.scopes) ∷ [])
    w.decode_device body

  unfoldable pub ask_token : ℕ → DeviceCode → Result TokenAnswer
  ask_token n dc = do
    body ← form n "/login/oauth/access_token" (
        ("client_id", p.client_id)
        ∷ ("device_code", dc.device_code)
        ∷ ("grant_type", "urn:ietf:params:oauth:grant-type:device_code")
        ∷ [])
    w.decode_token body

  abbrev pub deadline : DeviceCode → Time
  deadline dc = add_time w.now (mul_int64 dc.expires_in second)

  abbrev pub first_interval : DeviceCode → ℤ
  first_interval dc = if leb_ℤ dc.interval (pos 0) then pos 5 else dc.interval

  abbrev pub after_wait : ℕ → DeviceCode → ℤ → Wake → Round
  after_wait k dc interval (cancelled e) = ended (err e)
  after_wait k dc interval (woke t) =
      if ltb (deadline dc) t then ended expired else answered interval t (ask_token (suc k) dc)

  -- One round of the loop.
  unfoldable pub round : ℕ → DeviceCode → ℤ → Time → Round
  round k dc interval t = after_wait k dc interval (w.wait k t (mul_int64 interval second))

  -- The loop, for so many rounds.
  unfoldable pub poll : ℕ → ℕ → DeviceCode → ℤ → Time → Option (Result Token)
  poll zero k dc interval t = none
  poll (suc fuel) k dc interval t = elim (round k dc interval t) [
    | ended r ↦ some r
    | again i u ↦ poll fuel (suc k) dc i u
  ]

  abbrev pub prompt_of : DeviceCode → DevicePrompt
  prompt_of dc = record {
    verification_uri = dc.verification_uri;
    user_code = dc.user_code;
    expires_in = dc.expires_in;
  }

  abbrev pub refused : Error → Login
  refused e = record { prompted = []; opened = []; outcome = some (err e) }

  abbrev pub with_device : ℕ → Result DeviceCode → Login
  with_device fuel (err e) = refused e
  with_device fuel (ok dc) =
      if is_blank dc.error
      then record {
        prompted = prompt_of dc ∷ [];
        opened = dc.verification_uri ∷ [];
        outcome = poll fuel 0 dc (first_interval dc) w.now;
      }
      else refused (plain ("github device code: " +++ dc.error +++ ": " +++ dc.description))

  -- `Login`.
  unfoldable pub login : ℕ → Login
  login fuel = with_device fuel ask_device
