-- ===== src/Base/Sort.antt =====
-- sort.Strings, and a loop over the sorted keys of a map.
use hawkular_openshift_agent.Base.Tests.{if◌then◌else◌, Option-cases}
use hawkular_openshift_agent.Base.Lists.{All}
use mathlib.Core.Logic.{inl, inr}
use mathlib.Core.Path.{◌≡◌}
use hawkular_openshift_agent.Base.Text.{Str, str_leb, string_eq}
use hawkular_openshift_agent.Base.Map
use hawkular_openshift_agent.Base.Map.{Map, All-get}
use mathlib.Core.List.{List, [], ◌∷◌}
use mathlib.Core.Option.{none, some}

unfoldable pub insert_sorted : Str → List Str → List Str
insert_sorted k [] = k ∷ []
insert_sorted k (l ∷ ks) =
    let rest = insert_sorted k ks in if str_leb k l then k ∷ l ∷ ks else l ∷ rest

-- sort.Strings, of distinct texts.
unfoldable pub sort_strings : List Str → List Str
unfolding insert_sorted
sort_strings [] = []
sort_strings (k ∷ ks) = insert_sorted k (sort_strings ks)

unfoldable pub keys {ℓ} : {A : Type ℓ} → Map Str A → List Str
keys [] = []
keys ((k, v) ∷ m) = k ∷ keys m

-- The entries of these keys.
unfoldable pub pick {ℓ} : {A : Type ℓ} → List Str → Map Str A → Map Str A
pick [] m = []
pick (k ∷ ks) m =
    let rest = pick ks m in elim (Map.get m k) [ none ↦ rest | some v ↦ (k, v) ∷ rest ]

-- `for _, k := range keys { v := m[k] … }` after sort.Strings(keys).
unfoldable pub by_key {ℓ} : {A : Type ℓ} → Map Str A → Map Str A
by_key m = pick (sort_strings (keys m)) m

module _ {ℓ μ} {A : Type ℓ} (P : Str × A → Type μ) (m : Map Str A) (h : All P m) where
  pick-All : (ks : List Str) → All P (pick ks m)
  unfolding pick
  pick-All [] = tt
  pick-All (k ∷ ks) = elim (Option-cases (Map.get m k)) [
    | inl missing ↦ rw (missing, pick) (pick-All ks)
    | inr (v, found) ↦ rw (found, pick) (All-get P m k v h found, pick-All ks)
  ]

  -- What holds of the entries of a map holds of them in the order of their keys.
  pub by_key-All : All P (by_key m)
  unfolding by_key
  by_key-All = pick-All (sort_strings (keys m))

-- The entries in the order of the keys are entries of the map.
pub pick-get {ℓ} :
    {A : Type ℓ} (ks : List Str) (m : Map Str A) → All (λ p. Map.get m p.0 ≡ some p.1) (pick ks m)
unfolding pick
pick-get [] m = tt
pick-get (k ∷ ks) m = elim (Option-cases (Map.get m k)) [
  | inl missing ↦ rw (missing, pick) (pick-get ks m)
  | inr (v, found) ↦ rw (found, pick) (found, pick-get ks m)
]
