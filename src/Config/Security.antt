-- ===== src/Config/Security.antt =====
-- config/security/config_security.go: credentials, and the HTTP header made of them.
mod Header
mod Tests
use hawkular_openshift_agent.Base.{
  Str, codes, ℕ, ◌+◌, ◌-◌, ltb, ◌==◌, ◌≡◌, ◌≢◌, ◌↔◌, ◌⊎◌, Bool, true, false, not, ◌&&◌, Option,
  none, some, [], ◌∷◌, ◌++◌, Result, ok, err, arith, if◌then◌else◌,
}
use Prim.Native.Nat.{◌*◌, ◌/◌, ◌%◌}
use hawkular_openshift_agent.Collector.{Credentials}

-- s != ""
abbrev pub given : Str → Bool
given [] = false
given (c ∷ s) = true

pub data CredentialsError : Type 0 where
  password_missing username_missing two_kinds : CredentialsError

unfoldable pub validate_credentials : Credentials → Option CredentialsError
validate_credentials c =
    if given c.username && not (given c.password)
    then some password_missing
    else if not (given c.username) && given c.password
    then some username_missing
    else if given c.username && given c.token
    then some two_kinds
    else none

-- base64.StdEncoding: the alphabet, and three bytes at a time, with padding.
unfoldable pub base64_digit : ℕ → ℕ
base64_digit n =
    if ltb n 26
    then n + 65
    else if ltb n 52
    then n + 71
    else if ltb n 62
    then n - 4
    else if n == 62
    then b'+'
    else b'/'

unfoldable pub base64 : Str → Str
base64 [] = []
base64 (a ∷ []) = base64_digit (a / 4) ∷ base64_digit (a % 4 * 16) ∷ b'=' ∷ b'=' ∷ []
base64 (a ∷ b ∷ []) =
    base64_digit (a / 4)
    ∷ base64_digit (a % 4 * 16 + b / 16)
    ∷ base64_digit (b % 16 * 4)
    ∷ b'='
    ∷ []
base64 (a ∷ b ∷ c ∷ s) =
    base64_digit (a / 4)
    ∷ base64_digit (a % 4 * 16 + b / 16)
    ∷ base64_digit (b % 16 * 4 + c / 64)
    ∷ base64_digit (c % 64)
    ∷ base64 s

-- The header's name and value; both are empty when no header is needed. A nil pointer is `none`.
unfoldable pub get_http_auth_header : Option Credentials → Result CredentialsError (Str × Str)
get_http_auth_header none = ok ([], [])
get_http_auth_header (some c) = elim (validate_credentials c) [
  | some e ↦ err e
  | none ↦
      if given c.token
      then ok (codes "Authorization", codes "Bearer " ++ c.token)
      else if given c.username
      then ok (codes "Authorization", codes "Basic " ++ base64 (c.username ++ b':' ∷ c.password))
      else ok ([], [])
]

-- What ValidateCredentials accepts: a name and a password, or neither, and no token beside them.
abbrev pub IsOneKind : Credentials → Type 0
IsOneKind c =
    ((c.username ≡ []) × (c.password ≡ []))
    ⊎ ((c.username ≢ []) × (c.password ≢ []) × (c.token ≡ []))

-- ValidateCredentials accepts exactly those credentials that are a name with a password, or a
-- token, or nothing.
pub validate_credentials_iff : (c : Credentials) → (validate_credentials c ≡ none) ↔ IsOneKind c
unfolding validate_credentials
validate_credentials_iff c = ground arith
