-- ===== src/Base/Map.antt =====
-- Go's maps: association lists, in the order in which a `range` loop meets the entries. Go leaves
-- that order open; a list stands for one run's order. Entries have distinct keys (`IsMap`).
use hawkular_openshift_agent.Base.Tests.{Eq, if◌then◌else◌, is_some, Bool-cases}
use mathlib.Core.Logic.{inl, inr}
use hawkular_openshift_agent.Base.Lists.{length, All}
use Prim.Native.Nat.{suc}
use mathlib.Core.Path.{◌≡◌, refl}
use mathlib.Core.Bool.{Bool, true, false}
use mathlib.Core.List.{List, [], ◌∷◌}
use mathlib.Core.Option.{Option, none, some}
use native.Mathlib.Omega.{arith}

abbrev pub Map {ℓ κ} : Type ℓ → Type κ → Type (ℓ ⊔ κ)
Map K V = List (K × V)

module _ {ℓ κ} {K : Type ℓ} {V : Type κ} ⦃e : Eq K⦄ where
  -- v, ok := m[k]
  unfoldable pub get : Map K V → K → Option V
  get [] k = none
  get ((j, v) ∷ m) k = let rest = get m k in if e.beq j k then some v else rest

  -- m[k] = v
  unfoldable pub put : Map K V → K → V → Map K V
  put [] k v = (k, v) ∷ []
  put ((j, w) ∷ m) k v = let rest = put m k v in if e.beq j k then (k, v) ∷ m else (j, w) ∷ rest

  -- delete(m, k)
  unfoldable pub delete : Map K V → K → Map K V
  delete [] k = []
  delete ((j, w) ∷ m) k = let rest = delete m k in if e.beq j k then rest else (j, w) ∷ rest

  unfoldable pub has : Map K V → K → Bool
  unfolding get
  has m k = is_some (get m k)

  pub get-put :
      (m : Map K V) (k j : K) (v : V) → get (put m k v) j ≡ (if e.beq k j then some v else get m j)
  unfolding get put
  get-put [] k j v = ground arith
  get-put ((i, w) ∷ m) k j v =
      ground (arith, e.beq_iff i k, e.beq_iff i j, e.beq_iff k j, get-put m k j v)

  pub get-delete :
      (m : Map K V) (k j : K) → get (delete m k) j ≡ (if e.beq k j then none else get m j)
  unfolding get delete
  get-delete [] k j = ground arith
  get-delete ((i, w) ∷ m) k j =
      ground (arith, e.beq_iff i k, e.beq_iff i j, e.beq_iff k j, get-delete m k j)

  pub has-put :
      (m : Map K V) (k j : K) (v : V) → has (put m k v) j ≡ (if e.beq k j then true else has m j)
  unfolding has
  has-put m k j v = ground (arith, get-put m k j v)

  pub has-delete :
      (m : Map K V) (k j : K) → has (delete m k) j ≡ (if e.beq k j then false else has m j)
  unfolding has
  has-delete m k j = ground (arith, get-delete m k j)

  pub get-none : (m : Map K V) (k : K) → has m k ≡ false → get m k ≡ none
  unfolding has
  get-none m k h = ground arith

  -- A new key makes the map one entry longer, and an old one leaves its length.
  pub length-put_new :
      (m : Map K V) (k : K) (v : V) → get m k ≡ none → length (put m k v) ≡ suc (length m)
  unfolding put get
  length-put_new [] k v h = refl
  length-put_new ((j, w) ∷ m) k v h = ground (arith, length-put_new m k v)

  pub delete-put : (m : Map K V) (k : K) (v : V) → delete (put m k v) k ≡ delete m k
  unfolding put delete
  delete-put [] k v = ground (arith, e.beq_iff k k)
  delete-put ((j, w) ∷ m) k v = ground (arith, e.beq_iff k k, e.beq_iff j k, delete-put m k v)

  pub get-put_self : (m : Map K V) (k : K) (v : V) → get (put m k v) k ≡ some v
  get-put_self m k v = ground (arith, get-put m k k v, e.beq_iff k k)

  pub get-delete_self : (m : Map K V) (k : K) → get (delete m k) k ≡ none
  get-delete_self m k = ground (arith, get-delete m k k, e.beq_iff k k)

  -- A key stands in one entry only.
  abbrev pub IsMap : Map K V → Type κ
  IsMap [] = Unit
  IsMap ((k, v) ∷ m) = (get m k ≡ none) × IsMap m

  pub put-IsMap : (m : Map K V) (k : K) (v : V) → IsMap m → IsMap (put m k v)
  unfolding put get
  put-IsMap [] k v h = (refl, tt)
  put-IsMap ((j, w) ∷ m) k v (fresh, h) =
      ground (arith, e.beq_iff j k, e.beq_iff k j, get-put m k j v, put-IsMap m k v h)

  pub delete-IsMap : (m : Map K V) (k : K) → IsMap m → IsMap (delete m k)
  unfolding delete get
  delete-IsMap [] k h = tt
  delete-IsMap ((j, w) ∷ m) k (fresh, h) =
      ground (arith, e.beq_iff j k, e.beq_iff k j, get-delete m k j, delete-IsMap m k h)

-- Predicates on the entries of a map.
module _ {ℓ κ μ} {K : Type ℓ} {V : Type κ} ⦃e : Eq K⦄ (P : K × V → Type μ) where
  pub All-put : (m : Map K V) (k : K) (v : V) → All P m → P (k, v) → All P (put m k v)
  unfolding put
  All-put [] k v h p = (p, tt)
  All-put ((j, w) ∷ m) k v h p = elim (Bool-cases (e.beq j k)) [
    | inl same ↦ rw same (p, h.1)
    | inr other ↦ rw other (h.0, All-put m k v h.1 p)
  ]

  pub All-delete : (m : Map K V) (k : K) → All P m → All P (delete m k)
  unfolding delete
  All-delete [] k h = tt
  All-delete ((j, w) ∷ m) k h = elim (Bool-cases (e.beq j k)) [
    | inl same ↦ rw same (All-delete m k h.1)
    | inr other ↦ rw other (h.0, All-delete m k h.1)
  ]

  pub All-get : (m : Map K V) (k : K) (v : V) → All P m → get m k ≡ some v → P (k, v)
  unfolding get
  All-get [] k v h g = cc
  All-get ((j, w) ∷ m) k v h g = elim (Bool-cases (e.beq j k)) [
    | inl same ↦
        let found : ◌≡◌ {A = K × V} (k, v) (j, w) = ground (arith, e.beq_iff j k) in rw found h.0
    | inr other ↦ All-get m k v h.1 (rw other at g)
  ]

module _ {ℓ κ} {K : Type ℓ} {V : Type κ} ⦃e : Eq K⦄ where
  get-tail :
      (k j : K) (v w : V) (m : Map K V)
      → get m k ≡ none
      → get m j ≡ some w
      → get ((k, v) ∷ m) j ≡ some w
  unfolding get
  get-tail k j v w m fresh h = ground (arith, e.beq_iff k j)

  All-tail :
      (k : K) (v : V) (m r : Map K V)
      → get m k ≡ none
      → All (λ p. get m p.0 ≡ some p.1) r
      → All (λ p. get ((k, v) ∷ m) p.0 ≡ some p.1) r
  All-tail k v m [] fresh h = tt
  All-tail k v m ((j, w) ∷ r) fresh h = (get-tail k j v w m fresh h.0, All-tail k v m r fresh h.1)

  -- In a map, a look-up finds each entry.
  pub get-entries : (m : Map K V) → IsMap m → All (λ p. get m p.0 ≡ some p.1) m
  unfolding get
  get-entries [] h = tt
  get-entries ((k, v) ∷ m) (fresh, h) =
      (ground (arith, e.beq_iff k k), All-tail k v m m fresh (get-entries m h))
