-- ===== src/Config/Security/Header.antt =====
-- GetHttpAuthHeader loses nothing: the receiving side reads the credentials back.
use hawkular_openshift_agent.Base.{
  str_eq, Str, codes, ℕ, ◌+◌, ◌-◌, ltb, ◌==◌, ◌≡◌, refl, ◌≢◌, inl, inr, true, false, none, some, [],
  ◌∷◌, ◌++◌, ok, arith, All, All-append, if◌then◌else◌, drop_prefix, ◌<◌, Bool-cases,
}
use Prim.Native.Nat.{◌*◌, ◌/◌, ◌%◌}
use hawkular_openshift_agent.Collector.{Credentials}
use hawkular_openshift_agent.Config.Security.{
  given, validate_credentials, base64, base64_digit, get_http_auth_header,
}

base64_value : ℕ → ℕ
base64_value c =
    if ltb c 44
    then 62
    else if ltb c 48
    then 63
    else if ltb c 58
    then c + 4
    else if ltb c 91
    then c - 65
    else c - 71

base64_value-digit : (n : ℕ) → n < 64 → base64_value (base64_digit n) ≡ n
unfolding base64_value base64_digit
base64_value-digit n h = ground arith

base64_digit_no_padding : (n : ℕ) → n < 64 → base64_digit n ≢ b'='
unfolding base64_digit
base64_digit_no_padding n h = ground arith

-- RFC 4648: four digits stand for three bytes; one or two `=` at the end for two bytes or one.
pub base64_decode : Str → Str
unfolding base64_value
base64_decode (w ∷ x ∷ y ∷ z ∷ s) =
    let rest = base64_decode s in
    let a = base64_value w * 4 + base64_value x / 16 in
    let b = base64_value x % 16 * 16 + base64_value y / 4 in
    let c = base64_value y % 4 * 64 + base64_value z in
    if y == b'=' then a ∷ [] else if z == b'=' then a ∷ b ∷ [] else a ∷ b ∷ c ∷ rest
base64_decode _ = []

abbrev pub IsByte : ℕ → Type 0
IsByte b = b < 256

first :
    (a n : ℕ)
    → IsByte a
    → n < 64
    → n / 16 ≡ a % 4
    → base64_value (base64_digit (a / 4)) * 4 + base64_value (base64_digit n) / 16 ≡ a
first a n ha hn e = omega (arith, base64_value-digit (a / 4) (omega arith), base64_value-digit n hn)

second :
    (b n m : ℕ)
    → IsByte b
    → n < 64
    → m < 64
    → n % 16 ≡ b / 16
    → m / 4 ≡ b % 16
    → base64_value (base64_digit n) % 16 * 16 + base64_value (base64_digit m) / 4 ≡ b
second b n m hb hn hm e f = omega (arith, base64_value-digit n hn, base64_value-digit m hm)

third :
    (c m : ℕ)
    → IsByte c
    → m < 64
    → m % 4 ≡ c / 64
    → base64_value (base64_digit m) % 4 * 64 + base64_value (base64_digit (c % 64)) ≡ c
third c m hc hm e =
    omega (arith, base64_value-digit m hm, base64_value-digit (c % 64) (omega arith))

no_padding : (n : ℕ) → n < 64 → (base64_digit n == b'=') ≡ false
no_padding n h = ground (arith, base64_digit_no_padding n h)

pub base64_decode-base64 : (s : Str) → All IsByte s → base64_decode (base64 s) ≡ s
unfolding base64 base64_decode
base64_decode-base64 [] h = refl
base64_decode-base64 (a ∷ []) (ha, _) = rw (first a (a % 4 * 16) ha (omega arith) (omega arith))
base64_decode-base64 (a ∷ b ∷ []) (ha, (hb, _)) = rw (
  no_padding (b % 16 * 4) (omega arith),
  first a (a % 4 * 16 + b / 16) ha (omega arith) (omega arith),
  second b (a % 4 * 16 + b / 16) (b % 16 * 4) hb (omega arith) (omega arith) (omega arith)
      (omega arith),
)
base64_decode-base64 (a ∷ b ∷ c ∷ s) (ha, (hb, (hc, hs))) = rw (
  no_padding (b % 16 * 4 + c / 64) (omega arith),
  no_padding (c % 64) (omega arith),
  first a (a % 4 * 16 + b / 16) ha (omega arith) (omega arith),
  second b (a % 4 * 16 + b / 16) (b % 16 * 4 + c / 64) hb (omega arith) (omega arith) (omega arith)
      (omega arith),
  third c (b % 16 * 4 + c / 64) hc (omega arith) (omega arith),
  base64_decode-base64 s hs,
)

-- What stands before the first `:`, and what stands behind it.
split_colon : Str → Str × Str
split_colon [] = ([], [])
split_colon (c ∷ s) =
    let rest = split_colon s in if c == b':' then ([], s) else (c ∷ rest.0, rest.1)

split_colon-append : (u p : Str) → All (λ c. c ≢ b':') u → split_colon (u ++ b':' ∷ p) ≡ (u, p)
unfolding split_colon
split_colon-append [] p h = refl
split_colon-append (c ∷ u) p (hc, h) = ground (arith, split_colon-append u p h)

-- How a server reads the header Authorization (RFC 7235); any other header is none of its business.
abbrev basic : Str → Credentials
basic value =
    let up = split_colon (base64_decode value) in
    record { username = up.0; password = up.1; token = [] }

abbrev bearer : Str → Credentials
bearer value = record { username = []; password = []; token = value }

pub recover : Str × Str → Credentials
unfolding drop_prefix str_eq
recover (name, value) = elim (str_eq name (codes "Authorization")) [
  | false ↦ bearer []
  | true ↦ elim (drop_prefix value (codes "Bearer ")) [
    | some token ↦ bearer token
    | none ↦ elim (drop_prefix value (codes "Basic ")) [
      | some encoded ↦ basic encoded
      | none ↦ bearer []
    ]
  ]
]

recover-basic :
    (u p : Str)
    → All (λ c. c ≢ b':') u
    → All IsByte (u ++ b':' ∷ p)
    → recover (codes "Authorization", codes "Basic " ++ base64 (u ++ b':' ∷ p))
      ≡ record { username = u; password = p; token = [] }
unfolding recover
recover-basic u p h hb = rw (base64_decode-base64 (u ++ b':' ∷ p) hb, split_colon-append u p h)

token_only :
    (c : Credentials)
    → validate_credentials c ≡ none
    → given c.token ≡ true
    → (c.username ≡ []) × (c.password ≡ [])
unfolding validate_credentials
token_only c v t = ground arith

nothing_only :
    (c : Credentials)
    → validate_credentials c ≡ none
    → given c.token ≡ false
    → given c.username ≡ false
    → (c.username ≡ []) × (c.password ≡ []) × (c.token ≡ [])
unfolding validate_credentials
nothing_only c v t u = ground arith

recover-bearer : (t : Str) → recover (codes "Authorization", codes "Bearer " ++ t) ≡ bearer t
unfolding recover
recover-bearer t = refl

recover-nothing : recover ([], []) ≡ bearer []
unfolding recover
recover-nothing = refl

not_given : (s : Str) → given s ≡ false → s ≡ []
not_given [] h = refl
not_given (c ∷ s) h = cc

-- For credentials that validate, in bytes and with no colon in the username, GetHttpAuthHeader
-- returns a header from which a server that reads the header Authorization, and no other, gets
-- exactly the credentials back.
pub recover-header :
    (c : Credentials)
    → validate_credentials c ≡ none
    → All IsByte c.username
    → All IsByte c.password
    → All (λ b. b ≢ b':') c.username
    → (h : Str × Str) × (get_http_auth_header (some c) ≡ ok h) × (recover h ≡ c)
unfolding get_http_auth_header
recover-header c v hu hp colon = elim (Bool-cases (given c.token)) [
  | inl t ↦ (
    (codes "Authorization", codes "Bearer " ++ c.token),
    rw (v, t, get_http_auth_header) refl,
    ground (arith, recover-bearer c.token, token_only c v t),
  )
  | inr no_token ↦ elim (Bool-cases (given c.username)) [
    | inl u ↦ (
      (codes "Authorization", codes "Basic " ++ base64 (c.username ++ b':' ∷ c.password)),
      rw (v, no_token, u, get_http_auth_header) refl,
      ground (
        arith,
        recover-basic c.username c.password colon
            (All-append IsByte c.username (b':' ∷ c.password) hu (omega arith, hp)),
        not_given c.token no_token,
      ),
    )
    | inr none_given ↦ (
      ([], []),
      rw (v, no_token, none_given, get_http_auth_header) refl,
      ground (arith, recover-nothing, nothing_only c v no_token none_given),
    )
  ]
]
