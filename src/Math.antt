-- ===== src/Math.antt =====
-- util/math/math.go: statistics of a list of numbers.
pub mod Extreme
mod Tests
use hawkular_openshift_agent.Base.{
  Str, String, codes, str_eq, str_eq_iff, str_eq_refl, string_eq, ℕ, zero, suc, ◌+◌, ◌-◌, ◌≤◌, ◌<◌,
  ◌==◌, ==_iff, ltb, leb, ℤ, pos, Bool, true, false, not, ◌&&◌, ◌||◌, ◌≡◌, ◌≢◌, ◌↔◌, ◌⊎◌, inl, inr,
  refl, sym, ap, ◌∙◌, Option, Option-cases, none, some, is_some, List, [], ◌∷◌, ◌++◌, append_assoc,
  append-nil, map, length, All, All-append, In, arith, Bool-cases, if◌then◌else◌, Result, ok, err,
  ◌>>=◌,
}
use hawkular_openshift_agent.Base.Map
use hawkular_openshift_agent.Base.Map.{Map}
use hawkular_openshift_agent.Values.{Floats}

module _ (f : Floats) where
  -- The loop of Min and of Max, by the test that replaces m.
  unfoldable pub extreme : (f.Float → f.Float → Bool) → f.Float → List f.Float → f.Float
  extreme better m [] = m
  extreme better m (n ∷ ns) = extreme better (if f.is_nan m || better n m then n else m) ns

  unfoldable pub min : List f.Float → f.Float
  min [] = f.zero
  min (n ∷ ns) = extreme (λ a b. f.lt a b) f.nan (n ∷ ns)

  unfoldable pub max : List f.Float → f.Float
  max [] = f.zero
  max (n ∷ ns) = extreme (λ a b. f.lt b a) f.nan (n ∷ ns)

  unfoldable pub add_all : f.Float → List f.Float → f.Float
  add_all total [] = total
  add_all total (n ∷ ns) = add_all (f.add total n) ns

  unfoldable pub sum : List f.Float → f.Float
  sum ns = add_all f.zero ns

  unfoldable pub avg : List f.Float → f.Float
  avg [] = f.zero
  avg (n ∷ ns) = f.div (sum (n ∷ ns)) (f.of_count (length (n ∷ ns)))

  add_squares : f.Float → f.Float → List f.Float → f.Float
  add_squares mean total [] = total
  add_squares mean total (n ∷ ns) = add_squares mean (f.add total (f.square (f.sub n mean))) ns

  unfoldable pub stddev : List f.Float → f.Float → f.Float
  unfolding add_squares
  stddev [] mean = f.zero
  stddev (n ∷ ns) mean =
      f.sqrt (f.div (add_squares mean f.zero (n ∷ ns)) (f.of_count (length (n ∷ ns))))
