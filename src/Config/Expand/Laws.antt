-- ===== src/Config/Expand/Laws.antt =====
-- What expansion does to a text, whatever the mapping function, and what the mapping function reads.
use hawkular_openshift_agent.Base.{
  Str, codes, str_eq, string_eq, ℕ, suc, ◌+◌, ◌≡◌, refl, ◌≢◌, true, false, Option, none, some, [],
  ◌∷◌, ◌++◌, length, All, arith, append_assoc, or_else, ap, if◌then◌else◌,
}
use mathlib.Core.Path.{fun_ext}
use hawkular_openshift_agent.Config.Expand.{
  shell_name, until_brace, expand_from, expand, MappingFuncConfig, mapping_func, split_default,
  look_up, lookup_of,
}

-- A text with no `$` is left as it is.
pub expand_plain : (s : Str) (mapping : Str → Str) → All (λ c. c ≢ b'$') s → expand s mapping ≡ s
unfolding expand
expand_plain [] mapping h = refl
expand_plain (c ∷ []) mapping h = refl
expand_plain (c ∷ d ∷ s) mapping (hc, h) = ground (arith, expand_plain (d ∷ s) mapping h)

skip :
    (mapping : Str → Str) (name : Str) (b : ℕ) (rest : Str)
    → expand_from mapping (suc (length name)) (name ++ b ∷ rest) ≡ expand_from mapping 0 rest
unfolding expand_from
skip mapping [] b rest = refl
skip mapping (c ∷ name) b rest = skip mapping name b rest

add-two : (n : ℕ) → n + 2 ≡ suc (suc n)
add-two n = omega arith

until_brace-append :
    (name rest : Str) → All (λ c. c ≢ b'}') name → until_brace (name ++ b'}' ∷ rest) ≡ some name
unfolding until_brace
until_brace-append [] rest h = refl
until_brace-append (c ∷ name) rest (hc, h) = ground (arith, until_brace-append name rest h)

shell_name-braced :
    (name rest : Str)
    → All (λ c. c ≢ b'}') name
    → shell_name (b'{' ∷ (name ++ b'}' ∷ rest)) ≡ (name, length name + 2)
unfolding shell_name
shell_name-braced [] [] h = refl
shell_name-braced [] (y ∷ rest) h = refl
shell_name-braced (c ∷ []) rest h = ground arith
shell_name-braced (c ∷ d ∷ name) rest h = ground (arith, until_brace-append name rest)

-- A token `${name}` is replaced by what the mapping function gives for its name, whatever stands
-- in the name but a closing brace, and the rest of the text is expanded by itself.
pub expand-token :
    (name rest : Str) (mapping : Str → Str)
    → All (λ c. c ≢ b'}') name
    → expand (codes "${" ++ (name ++ b'}' ∷ rest)) mapping ≡ mapping name ++ expand rest mapping
unfolding expand
expand-token name rest mapping h =
    rw (shell_name-braced name rest h, expand_from)
      (rw (add-two (length name)) (rw (skip mapping name b'}' rest)))

look_up-isolated :
    (os os' : Str → Option Str) (config : MappingFuncConfig) (name : Str)
    → config.use_os_env ≡ false
    → look_up os config name ≡ look_up os' config name
unfolding look_up
look_up-isolated os os' config name h = ground arith

mapping_func-isolated :
    (os os' : Str → Option Str) (config : MappingFuncConfig) (s : Str)
    → config.use_os_env ≡ false
    → mapping_func os config s ≡ mapping_func os' config s
unfolding mapping_func
mapping_func-isolated os os' config s h =
    ap
      (λ f.
        if str_eq s (codes "$")
        then codes "$"
        else or_else (f (lookup_of config.do_not_expand_if_not_found s (split_default s)).name)
            (lookup_of config.do_not_expand_if_not_found s (split_default s)).default)
      (fun_ext (λ t. look_up-isolated os os' config t h))

-- An expansion that must not use the agent's environment gives the same text in every environment.
pub expand-isolated :
    (os os' : Str → Option Str) (config : MappingFuncConfig) (s : Str)
    → config.use_os_env ≡ false
    → expand s (mapping_func os config) ≡ expand s (mapping_func os' config)
expand-isolated os os' config s h = rw (fun_ext (λ t. mapping_func-isolated os os' config t h))

split_default-none : (s : Str) → All (λ c. c ≢ b'=') s → split_default s ≡ none
unfolding split_default
split_default-none [] h = refl
split_default-none (c ∷ s) (hc, h) = ground (arith, split_default-none s h)

split_default-some :
    (name default : Str)
    → All (λ c. c ≢ b'=') name
    → split_default (name ++ b'=' ∷ default) ≡ some (name, default)
unfolding split_default
split_default-some [] default h = refl
split_default-some (c ∷ name) default (hc, h) = ground (arith, split_default-some name default h)

dollar_free : (name default : Str) → str_eq (name ++ b'=' ∷ default) (codes "$") ≡ false
unfolding str_eq
dollar_free [] default = refl
dollar_free (c ∷ []) default = ground arith
dollar_free (c ∷ d ∷ name) default = ground arith

-- `${name=default}` gives the value of the name, from the additional environment or else from the
-- agent's if that may be used, and the default of the token if there is none, whatever the
-- configuration says of names that are not found.
pub mapping_func_with_default :
    (os : Str → Option Str) (config : MappingFuncConfig) (name default : Str)
    → All (λ c. c ≢ b'=') name
    → mapping_func os config (name ++ b'=' ∷ default) ≡ or_else (look_up os config name) default
unfolding mapping_func
mapping_func_with_default os config name default h =
    rw (dollar_free name default, split_default-some name default h)

no_brace : (name : Str) → All (λ c. (c ≢ b'}') × (c ≢ b'=')) name → All (λ c. c ≢ b'}') name
no_brace [] h = tt
no_brace (c ∷ name) h = (h.0.0, no_brace name h.1)

no_equals : (name : Str) → All (λ c. (c ≢ b'}') × (c ≢ b'=')) name → All (λ c. c ≢ b'=') name
no_equals [] h = tt
no_equals (c ∷ name) h = (h.0.1, no_equals name h.1)

put_back :
    (os : Str → Option Str) (config : MappingFuncConfig) (name : Str)
    → config.do_not_expand_if_not_found ≡ true
    → All (λ c. c ≢ b'=') name
    → str_eq name (codes "$") ≡ false
    → look_up os config name ≡ none
    → mapping_func os config name ≡ codes "${" ++ (name ++ b'}' ∷ [])
unfolding mapping_func
put_back os config name keep h d missing =
    rw (d, split_default-none name h, missing, keep, mapping_func)

-- With do_not_expand_if_not_found, a token whose name is found in neither environment is put
-- back as it was.
pub unknown_token_stays :
    (os : Str → Option Str) (config : MappingFuncConfig) (name rest : Str)
    → config.do_not_expand_if_not_found ≡ true
    → All (λ c. (c ≢ b'}') × (c ≢ b'=')) name
    → str_eq name (codes "$") ≡ false
    → look_up os config name ≡ none
    → expand (codes "${" ++ (name ++ b'}' ∷ rest)) (mapping_func os config)
      ≡ codes "${" ++ (name ++ b'}' ∷ expand rest (mapping_func os config))
unknown_token_stays os config name rest keep h d missing =
    rw (expand-token name rest (mapping_func os config) (no_brace name h)) (
      rw (put_back os config name keep (no_equals name h) d missing) (
        ap (λ t. codes "${" ++ t)
          (append_assoc name (b'}' ∷ []) (expand rest (mapping_func os config)))))
