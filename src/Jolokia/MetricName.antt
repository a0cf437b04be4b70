-- ===== src/Jolokia/MetricName.antt =====
-- jolokia/parse_metric_name.go: the parts of a metric name. `trim_space` is strings.TrimSpace.
mod Tests
use hawkular_openshift_agent.Base.{
  Str, codes, str_eq, str_eq_iff, string_eq, ℕ, zero, suc, ◌==◌, ==_iff, is_some, Bool, true, false,
  not, ◌&&◌, ◌||◌, ◌≡◌, ◌≢◌, ◌↔◌, refl, inl, inr, Option, Option-cases, none, some, List, [], ◌∷◌,
  ◌++◌, All, arith, if◌then◌else◌,
}
use hawkular_openshift_agent.Base.Map
use hawkular_openshift_agent.Base.Map.{Map}

pub record MetricNameParts : Type 0 where
  pub mbean : Str
  pub attribute : Str
  pub path : Str
  pub key_values : Map Str Str
  pub key_wildcards : Map Str Bool

-- strings.SplitN(s, c, 2): what stands before the first `c` and, if there is one, behind it.
unfoldable pub split_two : ℕ → Str → Str × Option Str
split_two c [] = ([], none)
split_two c (d ∷ s) = let (a, b) = split_two c s in if d == c then ([], some s) else (d ∷ a, b)

-- strings.Split(s, ",")
unfoldable pub split_commas : Str → List Str
split_commas [] = [] ∷ []
split_commas (c ∷ s) =
    let rest = split_commas s in
    if c == b','
    then [] ∷ rest
    else elim rest [ [] ↦ (c ∷ []) ∷ [] | word ∷ words ↦ (c ∷ word) ∷ words ]

pub data NameError : Type 0 where
  wildcard_without_key not_key_value : Str → NameError

abbrev pub star : Str
star = codes "*"

-- The mbean, the attribute and the path.
unfoldable pub split_name : Str → Str × Str × Str
split_name name =
    let (mbean, behind) = split_two b'#' name in
    elim behind [
      | none ↦ (mbean, star, [])
      | some rest ↦
          let (attribute, path) = split_two b'#' rest in
          elim path [ none ↦ (mbean, attribute, []) | some p ↦ (mbean, attribute, p) ]
    ]

-- What stands behind the domain.
unfoldable pub key_value_pairs : Str → Str
key_value_pairs mbean =
    let (domain, pairs) = split_two b':' mbean in elim pairs [ none ↦ domain | some p ↦ p ]

put_key : Str → Option Str → MetricNameParts → MetricNameParts
put_key key none parts = parts
put_key key (some value) parts = record parts {
  key_values = Map.put parts.key_values key value;
  key_wildcards =
      if str_eq value star then Map.put parts.key_wildcards key true else parts.key_wildcards;
}

module _ (trim_space : Str → Str) where
  -- The loop over the pairs.
  unfoldable pub read_pairs : List Str → MetricNameParts → MetricNameParts × Option NameError
  unfolding put_key
  read_pairs [] parts = (parts, none)
  read_pairs (pair ∷ pairs) parts =
      let text = trim_space pair in
      let (key, value) = split_two b'=' text in
      let rest = read_pairs pairs (put_key key value parts) in
      if str_eq text star
      then (parts, some (wildcard_without_key text))
      else if is_some value
      then rest
      else (parts, some (not_key_value text))

  unfoldable pub new_metric_name_parts : Str → MetricNameParts × Option NameError
  unfolding read_pairs
  new_metric_name_parts name =
      let (mbean, attribute, path) = split_name name in
      read_pairs (split_commas (key_value_pairs mbean)) (record {
        mbean = mbean;
        attribute = attribute;
        path = path;
        key_values = [];
        key_wildcards = [];
      })

unfoldable pub has_attribute : MetricNameParts → Bool
has_attribute parts = not (str_eq parts.attribute [])

unfoldable pub has_path : MetricNameParts → Bool
has_path parts = not (str_eq parts.path [])

unfoldable pub is_all_attributes : MetricNameParts → Bool
is_all_attributes parts = str_eq parts.attribute star

unfoldable pub is_all_paths : MetricNameParts → Bool
is_all_paths parts = str_eq parts.path star || is_all_attributes parts

-- The fields of a JolokiaRequest that a metric name sets.
pub record Target : Type 0 where
  pub mbean : Str
  pub attribute : Str
  pub path : Str

unfoldable pub parse_metric_name_for_jolokia_request :
    (Str → Str) → Str → Target → Target × MetricNameParts × Option NameError
parse_metric_name_for_jolokia_request trim_space name req =
    let (parts, err) = new_metric_name_parts trim_space name in
    let filled : Target = record {
      mbean = parts.mbean;
      attribute =
          if has_attribute parts && not (is_all_attributes parts)
          then parts.attribute
          else req.attribute;
      path = if has_path parts && not (is_all_paths parts) then parts.path else req.path;
    } in
    (elim err [ none ↦ filled | some e ↦ req ], parts, err)

abbrev pub Without : ℕ → Str → Type 0
Without c = All (λ d. d ≢ c)

split_two-append : (c : ℕ) (a s : Str) → Without c a → split_two c (a ++ c ∷ s) ≡ (a, some s)
unfolding split_two
split_two-append c [] s h = ground (arith, ==_iff c c)
split_two-append c (d ∷ a) s h = ground (arith, ==_iff d c, split_two-append c a s h.1)

put_key-name :
    (key : Str) (value : Option Str) (parts : MetricNameParts)
    → ((put_key key value parts).mbean ≡ parts.mbean)
      × ((put_key key value parts).attribute ≡ parts.attribute)
      × ((put_key key value parts).path ≡ parts.path)
unfolding put_key
put_key-name key none parts = (refl, refl, refl)
put_key-name key (some value) parts = (refl, refl, refl)

split_name_lem :
    (mbean attribute path : Str)
    → Without b'#' mbean
    → Without b'#' attribute
    → split_name (mbean ++ b'#' ∷ (attribute ++ b'#' ∷ path)) ≡ (mbean, attribute, path)
unfolding split_name
split_name_lem mbean attribute path hm ha = ground (
  arith,
  split_two-append b'#' mbean (attribute ++ b'#' ∷ path) hm,
  split_two-append b'#' attribute path ha,
)

star-IsPair : (s : Str) → str_eq s star ≡ true → is_some (split_two b'=' s).1 ≡ false
star-IsPair s h = rw ((str_eq_iff s star).0 h) (unfold split_two in refl)

module _ (trim_space : Str → Str) where
  read_pairs-name :
      (pairs : List Str) (parts : MetricNameParts)
      → let read = (read_pairs trim_space pairs parts).0 in
        (read.mbean ≡ parts.mbean) × (read.attribute ≡ parts.attribute) × (read.path ≡ parts.path)
  unfolding read_pairs
  read_pairs-name [] parts = (refl, refl, refl)
  read_pairs-name (pair ∷ pairs) parts =
      let (key, value) = split_two b'=' (trim_space pair) in
      ground (arith, read_pairs-name pairs (put_key key value parts), put_key-name key value parts)

  -- A pair that NewMetricNameParts can read: it has an equals sign.
  abbrev pub IsPair : Str → Type 0
  IsPair pair = is_some (split_two b'=' (trim_space pair)).1 ≡ true

  read_pairs_iff :
      (pairs : List Str) (parts : MetricNameParts)
      → ((read_pairs trim_space pairs parts).1 ≡ none) ↔ All IsPair pairs
  unfolding read_pairs
  read_pairs_iff [] parts = (λ h. tt, λ h. refl)
  read_pairs_iff (pair ∷ pairs) parts =
      let (key, value) = split_two b'=' (trim_space pair) in
      ground (arith, read_pairs_iff pairs (put_key key value parts), star-IsPair (trim_space pair))

  -- A metric name of an mbean, an attribute without number signs and a path comes apart into these
  -- three, where the mbean has no number sign; and it is accepted exactly if every one of the
  -- pairs of the mbean, which stand behind its first colon with commas between them, has an equals
  -- sign once the space around it is taken off.
  pub new_metric_name_parts_lem :
      (mbean attribute path : Str)
      → Without b'#' mbean
      → Without b'#' attribute
      → let name = mbean ++ b'#' ∷ (attribute ++ b'#' ∷ path) in
        let (parts, err) = new_metric_name_parts trim_space name in
        (parts.mbean ≡ mbean)
        × (parts.attribute ≡ attribute)
        × (parts.path ≡ path)
        × ((err ≡ none) ↔ All IsPair (split_commas (key_value_pairs mbean)))
  unfolding new_metric_name_parts
  new_metric_name_parts_lem mbean attribute path hm ha =
      let start : MetricNameParts = record {
        mbean = mbean;
        attribute = attribute;
        path = path;
        key_values = [];
        key_wildcards = [];
      } in
      let (m, a, p) = read_pairs-name (split_commas (key_value_pairs mbean)) start in
      rw (split_name_lem mbean attribute path hm ha, new_metric_name_parts)
        (m, a, p, read_pairs_iff (split_commas (key_value_pairs mbean)) start)
