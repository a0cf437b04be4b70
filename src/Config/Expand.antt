-- ===== src/Config/Expand.antt =====
-- util/expand/mapping_func.go, with the `os.Expand` of Go 1.7 (the version that the repository
-- builds with), which calls the mapping function for each `$name` or `${name}`.
pub mod Laws
mod Tests
use hawkular_openshift_agent.Base.{
  Str, codes, str_eq, string_eq, ℕ, zero, suc, ◌+◌, leb, ◌==◌, Bool, true, false, ◌&&◌, ◌||◌,
  Option, none, some, List, [], ◌∷◌, ◌++◌, length, if◌then◌else◌, or_else,
}
use hawkular_openshift_agent.Base.Map
use hawkular_openshift_agent.Base.Map.{Map}

abbrev pub between : ℕ → ℕ → ℕ → Bool
between lo hi c = leb lo c && leb c hi

-- isShellSpecialVar
special : ℕ → Bool
special c =
    c == b'*'
    || c == b'#'
    || c == b'$'
    || c == b'@'
    || c == b'!'
    || c == b'?'
    || between b'0' b'9' c

-- isAlphaNum
alpha_num : ℕ → Bool
alpha_num c = c == b'_' || between b'0' b'9' c || between b'a' b'z' c || between b'A' b'Z' c

-- What stands before the first `}`, if there is one.
until_brace : Str → Option Str
until_brace [] = none
until_brace (c ∷ s) =
    let rest = until_brace s in
    if c == b'}' then some [] else elim rest [ none ↦ none | some name ↦ some (c ∷ name) ]

word : Str → Str
unfolding alpha_num
word [] = []
word (c ∷ s) = let rest = word s in if alpha_num c then c ∷ rest else []

special_braced : Str → Bool
unfolding special
special_braced (x ∷ y ∷ s) = special x && y == b'}'
special_braced _ = false

first_byte : Str → Str
first_byte [] = []
first_byte (c ∷ s) = c ∷ []

-- getShellName: the name, and how many bytes of the text it takes. `s` is what follows the `$`.
shell_name : Str → Str × ℕ
unfolding special special_braced until_brace word first_byte
shell_name [] = ([], 0)
shell_name (c ∷ s) =
    if c == b'{'
    then if special_braced s
      then (first_byte s, 3)
      else elim (until_brace s) [ none ↦ ([], 1) | some name ↦ (name, length name + 2) ]
    else if special c
    then (c ∷ [], 1)
    else (word (c ∷ s), length (word (c ∷ s)))

unfoldable pub at_token : ℕ → Str → Bool
at_token c [] = false
at_token c (d ∷ s) = c == b'$'

-- The loop of os.Expand; the number counts the bytes of a token that are still to be skipped.
unfoldable pub expand_from : (Str → Str) → ℕ → Str → Str
unfolding shell_name at_token
expand_from mapping k [] = []
expand_from mapping (suc k) (c ∷ s) = expand_from mapping k s
expand_from mapping zero (c ∷ s) =
    let (name, w) = shell_name s in
    let tail = expand_from mapping (if at_token c s then w else 0) s in
    (if at_token c s then mapping name else c ∷ []) ++ tail

unfoldable pub expand : Str → (Str → Str) → Str
unfolding expand_from
expand s mapping = expand_from mapping 0 s

pub record MappingFuncConfig : Type 0 where
  pub env : Map Str Str
  pub use_os_env : Bool
  pub do_not_expand_if_not_found : Bool

-- strings.SplitN(s, "=", 2), if it has two parts.
unfoldable pub split_default : Str → Option (Str × Str)
split_default [] = none
split_default (c ∷ s) =
    let rest = split_default s in
    if c == b'='
    then some ([], s)
    else elim rest [ none ↦ none | some (name, default) ↦ some (c ∷ name, default) ]

-- What the inner function has worked out before it looks the name up.
pub record Lookup : Type 0 where
  pub name : Str
  pub default : Str

abbrev pub lookup_of : Bool → Str → Option (Str × Str) → Lookup
lookup_of keep s (some (name, default)) = record { name = name; default = default }
lookup_of keep s none = record {
  name = s;
  default = if keep then codes "${" ++ (s ++ b'}' ∷ []) else [];
}

-- `os` is os.LookupEnv: the agent's environment.
unfoldable pub look_up : (Str → Option Str) → MappingFuncConfig → Str → Option Str
look_up os config name = elim (Map.get config.env name) [
  | some val ↦ some val
  | none ↦ if config.use_os_env then os name else none
]

resolve : (Str → Option Str) → MappingFuncConfig → Lookup → Str
resolve os config l = or_else (look_up os config l.name) l.default

unfoldable pub mapping_func : (Str → Option Str) → MappingFuncConfig → Str → Str
unfolding resolve
mapping_func os config s =
    if str_eq s (codes "$")
    then codes "$"
    else resolve os config (lookup_of config.do_not_expand_if_not_found s (split_default s))
