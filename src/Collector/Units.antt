-- ===== src/Collector/Units.antt =====
-- collector/metric_units.go: the units that a metric may declare.
mod Tests
use hawkular_openshift_agent.Base.{
  Str, codes, str_eq, str_eq_iff, str_eq_refl, ℕ, ltb, ◌≡◌, refl, ◌≢◌, ◌↔◌, ◌⊎◌, inl, inr, Bool,
  true, false, ◌&&◌, Option, none, some, List, [], ◌∷◌, ◌++◌, length, In, All, arith, if◌then◌else◌,
  drop_prefix, starts_with, trim_prefix, Bool-cases, Option-cases, ap, drop_prefix-some,
  drop_prefix-append,
}

pub record MetricUnits : Type 0 where
  pub symbol : Str
  pub custom : Bool

abbrev pub custom_metric_units_prefix : Str
custom_metric_units_prefix = codes "custom:"

abbrev pub unknown : Str
unknown = codes "Unknown"

unfoldable pub standard_metric_units_list : List Str
standard_metric_units_list =
    codes "B"
    ∷ codes "kB"
    ∷ codes "MB"
    ∷ codes "GB"
    ∷ codes "TB"
    ∷ codes "PB"
    ∷ codes "KiB"
    ∷ codes "MiB"
    ∷ codes "GiB"
    ∷ codes "TiB"
    ∷ codes "PiB"
    ∷ codes "b"
    ∷ codes "kb"
    ∷ codes "Mb"
    ∷ codes "Gb"
    ∷ codes "Tb"
    ∷ codes "Pb"
    ∷ codes "Kib"
    ∷ codes "Mib"
    ∷ codes "Gib"
    ∷ codes "Tib"
    ∷ codes "Pib"
    ∷ codes "jiff"
    ∷ codes "ns"
    ∷ codes "us"
    ∷ codes "ms"
    ∷ codes "s"
    ∷ codes "M"
    ∷ codes "h"
    ∷ codes "d"
    ∷ codes "w"
    ∷ codes "Hz"
    ∷ codes "kHz"
    ∷ codes "MHz"
    ∷ codes "GHz"
    ∷ codes "C"
    ∷ codes "F"
    ∷ codes "K"
    ∷ codes "uA"
    ∷ codes "mA"
    ∷ codes "A"
    ∷ codes "kA"
    ∷ codes "MA"
    ∷ codes "GA"
    ∷ codes "uV"
    ∷ codes "mV"
    ∷ codes "V"
    ∷ codes "kV"
    ∷ codes "MV"
    ∷ codes "GV"
    ∷ codes "%"
    ∷ codes ""
    ∷ []

unfoldable pub find_units : List Str → Str → Option Str
find_units [] u = none
find_units (x ∷ xs) u = let rest = find_units xs u in if str_eq x u then some x else rest

-- The units, and whether the error is nil.
unfoldable pub get_metric_units : Str → MetricUnits × Bool
unfolding starts_with trim_prefix
get_metric_units u =
    if ltb (length custom_metric_units_prefix) (length u)
      && starts_with u custom_metric_units_prefix
    then (record { symbol = trim_prefix u custom_metric_units_prefix; custom = true }, true)
    else elim (find_units standard_metric_units_list u) [
      | some x ↦ (record { symbol = x; custom = false }, true)
      | none ↦ (record { symbol = unknown; custom = false }, false)
    ]

-- What the text `u` of a unit means: a standard symbol, or `custom:` and a symbol.
abbrev pub Denotes : Str → MetricUnits → Type 0
Denotes u mu =
    (In u standard_metric_units_list × (mu ≡ record { symbol = u; custom = false }))
    ⊎ ((rest : Str) × (rest ≢ [])
        × (u ≡ custom_metric_units_prefix ++ rest)
        × (mu ≡ record { symbol = rest; custom = true }))

find_units-some : (xs : List Str) (u x : Str) → find_units xs u ≡ some x → In u xs × (x ≡ u)
unfolding find_units
find_units-some [] u x h = cc
find_units-some (y ∷ xs) u x h = ground (arith, find_units-some xs u x, str_eq_iff y u)

find_units-In : (xs : List Str) (u : Str) → In u xs → find_units xs u ≡ some u
unfolding find_units
find_units-In [] u h = elim h [ ]
find_units-In (y ∷ xs) u h = ground (arith, find_units-In xs u, str_eq_iff y u)

-- No standard symbol is taken for a custom one.
abbrev no_custom : List Str → Bool
no_custom [] = true
no_custom (x ∷ xs) =
    (if starts_with x custom_metric_units_prefix then false else true) && no_custom xs

no_custom-In :
    (xs : List Str) (u : Str)
    → no_custom xs ≡ true
    → In u xs
    → starts_with u custom_metric_units_prefix ≡ false
no_custom-In [] u h i = elim i [ ]
no_custom-In (x ∷ xs) u h i =
    ground (arith, no_custom-In xs u, ap (λ s. starts_with s custom_metric_units_prefix))

standard_no_custom : no_custom standard_metric_units_list ≡ true
unfolding standard_metric_units_list starts_with
standard_no_custom = refl

abbrev is_custom : Str → Bool
is_custom u =
    ltb (length custom_metric_units_prefix) (length u) && starts_with u custom_metric_units_prefix

custom_form :
    (u : Str)
    → is_custom u ≡ true
    → (rest : Str) × (rest ≢ [])
      × (u ≡ custom_metric_units_prefix ++ rest)
      × (trim_prefix u custom_metric_units_prefix ≡ rest)
unfolding starts_with trim_prefix
custom_form u h = elim (Option-cases (drop_prefix u custom_metric_units_prefix)) [
  | inl missing ↦ absurd (ground arith)
  | inr (rest, found) ↦
      let e = drop_prefix-some u custom_metric_units_prefix rest found in
      (rest, (λ nil. absurd (ground (arith, ap length e, ap length nil))), e, rw found)
]

form_custom :
    (rest : Str)
    → rest ≢ []
    → (is_custom (custom_metric_units_prefix ++ rest) ≡ true)
      × (trim_prefix (custom_metric_units_prefix ++ rest) custom_metric_units_prefix ≡ rest)
unfolding starts_with trim_prefix
form_custom [] h = absurd (h refl)
form_custom (c ∷ rest) h = (ground arith, refl)

-- GetMetricUnits returns no error exactly for the standard symbols and for `custom:` with a
-- symbol behind it, and then the units that the text denotes.
pub get_metric_units_iff :
    (u : Str) (mu : MetricUnits) → (get_metric_units u ≡ (mu, true)) ↔ Denotes u mu
unfolding get_metric_units
get_metric_units_iff u mu = (denotes, accepted)
  where
    denotes : get_metric_units u ≡ (mu, true) → Denotes u mu
    denotes h = elim (Bool-cases (is_custom u)) [
      | inl custom ↦ let (rest, ne, e, t) = custom_form u custom in inr (rest, ne, e, ground arith)
      | inr standard ↦ elim (Option-cases (find_units standard_metric_units_list u)) [
        | inl missing ↦ absurd (ground arith)
        | inr (x, found) ↦
            inl (ground (arith, find_units-some standard_metric_units_list u x found))
      ]
    ]

    accepted : Denotes u mu → get_metric_units u ≡ (mu, true)
    accepted (inl (i, e)) = ground (
      arith,
      no_custom-In standard_metric_units_list u standard_no_custom i,
      find_units-In standard_metric_units_list u i,
    )
    accepted (inr (rest, ne, e, m)) = rw e (ground (arith, form_custom rest ne))
