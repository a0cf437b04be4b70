-- ===== src/Math/Extreme.antt =====
-- util/math/math.go: Min and Max.
use mathlib.Core.Path.{subst}
use hawkular_openshift_agent.Base.{
  string_eq, Bool, true, false, ◌||◌, ◌≡◌, inl, inr, refl, sym, List, [], ◌∷◌, All, In, arith,
  Bool-cases,
}
use hawkular_openshift_agent.Values.{Floats}
use hawkular_openshift_agent.Math.{extreme, min, max}

-- What IEEE 754 says of an order of numbers: NaN is in no relation, and the others are in order.
pub record IsOrder (f : Floats) (lt : f.Float → f.Float → Bool) : Type 0 where
  pub numbers : (a b : f.Float) → lt a b ≡ true → (f.is_nan a ≡ false) × (f.is_nan b ≡ false)
  pub asym : (a b : f.Float) → lt a b ≡ true → lt b a ≡ false
  pub trans :
      (a b c : f.Float) → f.is_nan b ≡ false → lt a b ≡ false → lt b c ≡ false → lt a c ≡ false

skip_second : {A : Type 0} (r m n : A) (ns : List A) → In r (m ∷ ns) → In r (m ∷ n ∷ ns)
skip_second r m n ns (inl is) = inl is
skip_second r m n ns (inr i) = inr (inr i)

module _ (f : Floats) (lt : f.Float → f.Float → Bool) (o : IsOrder f lt) where
  -- No number of the list is before r.
  abbrev IsBound : f.Float → List f.Float → Type 0
  IsBound r ns = (f.is_nan r ≡ false) × All (λ n. lt n r ≡ false) ns

  extreme-replaced :
      (m n : f.Float) (ns : List f.Float)
      → (f.is_nan m || lt n m) ≡ true
      → extreme f lt m (n ∷ ns) ≡ extreme f lt n ns
  unfolding extreme
  extreme-replaced m n ns h = rw h refl

  extreme-kept :
      (m n : f.Float) (ns : List f.Float)
      → (f.is_nan m || lt n m) ≡ false
      → extreme f lt m (n ∷ ns) ≡ extreme f lt m ns
  unfolding extreme
  extreme-kept m n ns h = rw h refl

  replaced :
      (m n : f.Float) (ns : List f.Float)
      → f.is_nan m ≡ false
      → lt n m ≡ true
      → IsBound (extreme f lt n ns) (n ∷ ns)
      → IsBound (extreme f lt m (n ∷ ns)) (m ∷ n ∷ ns)
  replaced m n ns h less (number, (first, rest)) =
      subst (λ r. IsBound r (m ∷ n ∷ ns)) (sym (extreme-replaced m n ns (ground arith)))
        (
          number,
          (
            o.trans m n (extreme f lt n ns) (o.numbers n m less).0 (o.asym n m less) first,
            (first, rest),
          ),
        )

  kept :
      (m n : f.Float) (ns : List f.Float)
      → f.is_nan m ≡ false
      → lt n m ≡ false
      → IsBound (extreme f lt m ns) (m ∷ ns)
      → IsBound (extreme f lt m (n ∷ ns)) (m ∷ n ∷ ns)
  kept m n ns h more (number, (first, rest)) =
      subst (λ r. IsBound r (m ∷ n ∷ ns)) (sym (extreme-kept m n ns (ground arith)))
        (number, (first, (o.trans n m (extreme f lt m ns) h more first, rest)))

  extreme-number :
      (m : f.Float) (ns : List f.Float) → f.is_nan m ≡ false → IsBound (extreme f lt m ns) (m ∷ ns)
  unfolding extreme
  extreme-number m [] h = (h, (ground (arith, o.asym m m), tt))
  extreme-number m (n ∷ ns) h = elim (Bool-cases (lt n m)) [
    | inl less ↦ replaced m n ns h less (extreme-number n ns (o.numbers n m less).0)
    | inr more ↦ kept m n ns h more (extreme-number m ns h)
  ]

  -- What is found is in the list: the first number, or one that replaced it.
  extreme-In : (m : f.Float) (ns : List f.Float) → In (extreme f lt m ns) (m ∷ ns)
  unfolding extreme
  extreme-In m [] = inl refl
  extreme-In m (n ∷ ns) = elim (Bool-cases (f.is_nan m || lt n m)) [
    | inl better ↦
        subst (λ r. In r (m ∷ n ∷ ns)) (sym (extreme-replaced m n ns better))
          (inr (extreme-In n ns))
    | inr worse ↦
        subst (λ r. In r (m ∷ n ∷ ns)) (sym (extreme-kept m n ns worse))
          (skip_second (extreme f lt m ns) m n ns (extreme-In m ns))
  ]

  -- From a NaN on, it is one of the further numbers.
  extreme_nan-In :
      (m n : f.Float) (ns : List f.Float)
      → f.is_nan m ≡ true
      → In (extreme f lt m (n ∷ ns)) (n ∷ ns)
  extreme_nan-In m n ns h =
      subst (λ r. In r (n ∷ ns)) (sym (extreme-replaced m n ns (ground arith))) (extreme-In n ns)

  nan-before : (a b : f.Float) → f.is_nan a ≡ true → lt a b ≡ false
  nan-before a b h = ground (arith, o.numbers a b)

  extreme-nan :
      (m : f.Float) (ns : List f.Float) (x : f.Float)
      → f.is_nan m ≡ true
      → In x ns
      → f.is_nan x ≡ false
      → IsBound (extreme f lt m ns) ns
  extreme-nan m [] x h i number = elim i [ ]
  extreme-nan m (n ∷ ns) x h i number =
      subst (λ r. IsBound r (n ∷ ns)) (sym (extreme-replaced m n ns (ground arith)))
        (elim (Bool-cases (f.is_nan n)) [
          | inr is ↦ extreme-number n ns is
          | inl nan ↦
              let later : In x ns = ground arith in
              let (bound, rest) = extreme-nan n ns x nan later number in
              (bound, (nan-before n (extreme f lt n ns) nan, rest))
        ])

module _ (f : Floats) (up : IsOrder f (λ a b. f.lt a b)) (down : IsOrder f (λ a b. f.lt b a)) where
  -- Of a list that has a number, Min gives a number of the list of which no other there is less, and
  -- Max one of which no other there is greater; NaNs in the list do not count. `up` and `down` are what IEEE 754 says of
  -- the comparison.
  pub min-max :
      (ns : List f.Float) (x : f.Float)
      → f.is_nan f.nan ≡ true
      → In x ns
      → f.is_nan x ≡ false
      → (In (min f ns) ns × (f.is_nan (min f ns) ≡ false) × All (λ n. f.lt n (min f ns) ≡ false) ns)
        × (In (max f ns) ns
            × (f.is_nan (max f ns) ≡ false)
            × All (λ n. f.lt (max f ns) n ≡ false) ns)
  unfolding min max
  min-max [] x nan i number = elim i [ ]
  min-max (n ∷ ns) x nan i number =
      let (is_min, least) = extreme-nan f (λ a b. f.lt a b) up f.nan (n ∷ ns) x nan i number in
      let (is_max, most) = extreme-nan f (λ a b. f.lt b a) down f.nan (n ∷ ns) x nan i number in
      (
        (extreme_nan-In f (λ a b. f.lt a b) up f.nan n ns nan, is_min, least),
        (extreme_nan-In f (λ a b. f.lt b a) down f.nan n ns nan, is_max, most),
      )
