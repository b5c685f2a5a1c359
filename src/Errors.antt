-- ===== src/Errors.antt =====
-- Go's error values and the results of fallible calls.
use claimward_vpn_client.Common.{
  ℕ, ◌+++◌, is_blank, decimal, if◌then◌else◌, String, Option, none, some, ◌≡◌, refl, ◌⊎◌, inl, inr,
}

-- `ServerError` of pkg/client/client.go.
pub record ServerError : Type 0 where
  pub status : ℕ
  pub code : String
  pub message : String

-- An error is a plain text, a server's answer, or one of these behind a prefix (`%w`).
pub data Error : Type 0 where
  plain : String → Error
  server_error : ServerError → Error
  wrapped : String → Error → Error

pub data Result {ℓ} (A : Type ℓ) : Type ℓ where
  ok : A → Result A
  err : Error → Result A

-- An error that is passed on behind a prefix.
abbrev pub wrap {ℓ} : {A : Type ℓ} → String → Result A → Result A
wrap p (ok a) = ok a
wrap p (err e) = err (wrapped p e)

-- The early return on an error.
infixl 5 ◌>>=◌ ◌>>◌
abbrev pub ◌>>=◌ {ℓ κ} : {A : Type ℓ} {B : Type κ} → Result A → (A → Result B) → Result B
r >>= step = elim r [ ok a ↦ step a | err e ↦ err e ]

abbrev pub ◌>>◌ {ℓ} : {B : Type ℓ} → Result (Unit {0}) → Result B → Result B
r >> rest = r >>= λ _. rest

server_error_text : ServerError → String
server_error_text e =
    if is_blank e.code
    then "server " +++ decimal e.status +++ ": " +++ e.message
    else "server " +++ decimal e.status +++ ": " +++ e.code +++ ": " +++ e.message

-- `err.Error()`.
unfoldable pub error_text : Error → String
unfolding server_error_text
error_text (plain s) = s
error_text (server_error e) = server_error_text e
error_text (wrapped p e) = p +++ ": " +++ error_text e

-- `errors.As(err, &se)` for a `*ServerError`.
unfoldable pub as_server_error : Error → Option ServerError
as_server_error (plain s) = none
as_server_error (server_error e) = some e
as_server_error (wrapped p e) = as_server_error e

pub Result-cases {ℓ} :
    {A : Type ℓ} (r : Result A) → ((a : A) × (r ≡ ok a)) ⊎ ((e : Error) × (r ≡ err e))
Result-cases (ok a) = inl (a, refl)
Result-cases (err e) = inr (e, refl)
