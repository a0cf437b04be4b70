-- ===== src/Values/Counting.antt =====
-- Numbers for examples: the natural numbers and a NaN, with the operations cut off at zero.
use hawkular_openshift_agent.Base.{
  Str, string_eq, ℕ, ◌+◌, ◌-◌, ltb, Bool, false, not, Option, none, some, is_some, [], ◌∷◌,
}
use Prim.Native.Nat.{◌*◌, ◌/◌}
use hawkular_openshift_agent.Values.{Floats}

abbrev less : Option ℕ → Option ℕ → Bool
less none b = false
less (some a) none = false
less (some a) (some b) = ltb a b

abbrev lift : (ℕ → ℕ → ℕ) → Option ℕ → Option ℕ → Option ℕ
lift f none b = none
lift f (some a) none = none
lift f (some a) (some b) = some (f a b)

abbrev digits : ℕ → Str → Option ℕ
digits n [] = some n
digits n (c ∷ s) = digits (10 * n + (c - 48)) s

abbrev pub counting : Floats
counting = record {
  Float = Option ℕ;
  zero = some 0;
  one = some 1;
  nan = none;
  is_nan = λ a. not (is_some a);
  lt = less;
  add = lift (λ a b. a + b);
  sub = lift (λ a b. a - b);
  div = lift (λ a b. a / b);
  square = λ a. lift (λ x y. x * y) a a;
  sqrt = λ a. a;
  of_count = λ n. some n;
  parse = λ s. some (digits 0 s);
}
