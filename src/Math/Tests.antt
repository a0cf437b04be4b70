-- ===== src/Math/Tests.antt =====
-- Statistics of a few numbers.
use hawkular_openshift_agent.Base.{
  In, string_eq, ℕ, false, ◌≡◌, inl, refl, Option, none, some, List, [], ◌∷◌, All, arith,
}
use hawkular_openshift_agent.Values.Counting.{counting}
use hawkular_openshift_agent.Math.{extreme, min, max, avg, sum, add_all}
use hawkular_openshift_agent.Math.Extreme.{IsOrder, min-max}

abbrev numbers : List (Option ℕ)
numbers = some 4 ∷ none ∷ some 2 ∷ some 9 ∷ []

min_test : min counting numbers ≡ some 2
unfolding min extreme
min_test = refl

max_test : max counting numbers ≡ some 9
unfolding max extreme
max_test = refl

avg_test : avg counting (some 4 ∷ some 2 ∷ some 9 ∷ []) ≡ some 5
unfolding avg sum add_all
avg_test = refl

less-IsOrder : IsOrder counting (λ a b. counting.lt a b)
less-IsOrder = record {
  numbers = λ a b h. ground arith;
  asym = λ a b h. ground arith;
  trans = λ a b c n h k. ground arith;
}

more-IsOrder : IsOrder counting (λ a b. counting.lt b a)
more-IsOrder = record {
  numbers = λ a b h. ground arith;
  asym = λ a b h. ground arith;
  trans = λ a b c n h k. ground arith;
}

min-max_example :
    (In (min counting numbers) numbers
      × (counting.is_nan (min counting numbers) ≡ false)
      × All (λ n. counting.lt n (min counting numbers) ≡ false) numbers)
    × (In (max counting numbers) numbers
        × (counting.is_nan (max counting numbers) ≡ false)
        × All (λ n. counting.lt (max counting numbers) n ≡ false) numbers)
min-max_example = min-max counting less-IsOrder more-IsOrder numbers (some 4) refl (inl refl) refl
