-- ===== src/Base/Text.antt =====
-- Go's strings as lists of bytes, with the functions of package `strings` that the program uses.
use Prim.Native.Nat.{ℕ}
use Prim.Native.Char.{code}
use Prim.Native.String.{String}
use mathlib.Core.Path.{◌≡◌, refl}
use mathlib.Core.Logic.{◌↔◌, ◌≢◌}
use mathlib.Core.Bool.{Bool, true, false, ◌&&◌, ◌||◌}
use mathlib.Core.List.{List, [], ◌∷◌, ◌++◌}
use mathlib.Core.Option.{Option, none, some}
use native.Mathlib.Omega.{arith}
use hawkular_openshift_agent.Base.Tests.{Eq, ltb, ◌==◌, if◌then◌else◌}

abbrev pub Str : Type 0
Str = List ℕ

-- The bytes of an ASCII literal.
abbrev pub codes : String → Str
codes String.[] = []
codes (String.◌∷◌ c s) = code c ∷ codes s

unfoldable pub str_eq : Str → Str → Bool
str_eq [] [] = true
str_eq [] (b ∷ t) = false
str_eq (a ∷ s) [] = false
str_eq (a ∷ s) (b ∷ t) = a == b && str_eq s t

pub str_eq_refl : (s : Str) → str_eq s s ≡ true
unfolding str_eq
str_eq_refl [] = refl
str_eq_refl (a ∷ s) = ground (arith, str_eq_refl s)

str_eq_sound : (s t : Str) → str_eq s t ≡ true → s ≡ t
unfolding str_eq
str_eq_sound [] [] h = refl
str_eq_sound [] (b ∷ t) h = cc
str_eq_sound (a ∷ s) [] h = cc
str_eq_sound (a ∷ s) (b ∷ t) h = ground (arith, str_eq_sound s t)

pub str_eq_iff : (s t : Str) → (str_eq s t ≡ true) ↔ (s ≡ t)
str_eq_iff s t = (str_eq_sound s t, λ e. rw e (str_eq_refl t))

pub str_ne_lem : (s t : Str) → s ≢ t → str_eq s t ≡ false
str_ne_lem s t h = ground (arith, str_eq_iff s t)

instance abbrev pub string_eq : Eq Str
string_eq = record { beq = str_eq; beq_iff = str_eq_iff }

-- strings.HasPrefix(s, p), with what is left of s.
unfoldable pub drop_prefix : Str → Str → Option Str
drop_prefix s [] = some s
drop_prefix [] (p ∷ ps) = none
drop_prefix (c ∷ s) (p ∷ ps) = let rest = drop_prefix s ps in if c == p then rest else none

unfoldable pub starts_with : Str → Str → Bool
unfolding drop_prefix
starts_with s p = elim (drop_prefix s p) [ none ↦ false | some rest ↦ true ]

pub drop_prefix-some : (s p r : Str) → drop_prefix s p ≡ some r → s ≡ p ++ r
unfolding drop_prefix
drop_prefix-some s [] r h = ground arith
drop_prefix-some [] (p ∷ ps) r h = cc
drop_prefix-some (c ∷ s) (p ∷ ps) r h = ground (arith, drop_prefix-some s ps r)

pub drop_prefix-append : (p r : Str) → drop_prefix (p ++ r) p ≡ some r
unfolding drop_prefix
drop_prefix-append [] r = refl
drop_prefix-append (p ∷ ps) r = ground (arith, drop_prefix-append ps r)

-- strings.TrimPrefix
unfoldable pub trim_prefix : Str → Str → Str
unfolding drop_prefix
trim_prefix s p = elim (drop_prefix s p) [ none ↦ s | some rest ↦ rest ]

-- strings.Contains(s, p)
unfoldable pub contains : Str → Str → Bool
unfolding starts_with
contains [] p = starts_with [] p
contains (c ∷ s) p = let rest = contains s p in starts_with (c ∷ s) p || rest

-- The order of `sort.Strings`: by bytes.
unfoldable pub str_leb : Str → Str → Bool
str_leb [] t = true
str_leb (a ∷ s) [] = false
str_leb (a ∷ s) (b ∷ t) = let rest = str_leb s t in ltb a b || (a == b && rest)
