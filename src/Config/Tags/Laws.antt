-- ===== src/Config/Tags/Laws.antt =====
-- What appended and expanded tags are, key by key.
use hawkular_openshift_agent.Base.{
  Str, str_eq_iff, string_eq, ◌≡◌, refl, false, Option, none, some, [], ◌∷◌, arith,
}
use hawkular_openshift_agent.Base.Map
use mathlib.Core.Option
use hawkular_openshift_agent.Base.Map.{IsMap, get-put, put-IsMap}
use hawkular_openshift_agent.Collector.{Tags}
use hawkular_openshift_agent.Config.Expand.{MappingFuncConfig, mapping_func, expand}
use hawkular_openshift_agent.Config.Expand.Laws.{expand-isolated}
use hawkular_openshift_agent.Config.Tags.{append_tags, expand_tokens}

abbrev pub or_other : Option Str → Option Str → Option Str
or_other none b = b
or_other (some v) b = some v

-- Appended tags override: a key that is among the new tags has its new value, every other key
-- keeps what it had. The new tags form a map, with each key once.
pub get-append_tags :
    (t more : Tags) (k : Str)
    → IsMap more
    → Map.get (append_tags t more) k ≡ or_other (Map.get more k) (Map.get t k)
unfolding append_tags Map.get
get-append_tags t [] k h = refl
get-append_tags t ((j, v) ∷ more) k h =
    ground (arith, str_eq_iff j k, get-append_tags (Map.put t j v) more k, get-put t j k v)

pub append_tags-IsMap : (t more : Tags) → IsMap t → IsMap (append_tags t more)
unfolding append_tags
append_tags-IsMap t [] h = h
append_tags-IsMap t ((j, v) ∷ more) h = append_tags-IsMap (Map.put t j v) more (put-IsMap t j v h)

pub get-expand_tokens :
    (os : Str → Option Str) (t : Tags) (config : MappingFuncConfig) (k : Str)
    → Map.get (expand_tokens os t config) k
      ≡ Option.map (λ v. expand v (mapping_func os config)) (Map.get t k)
unfolding expand_tokens Map.get
get-expand_tokens os [] config k = refl
get-expand_tokens os ((j, v) ∷ t) config k = ground (arith, get-expand_tokens os t config k)

-- Tags expanded without the agent's environment are the same in every environment.
pub expand_tokens-isolated :
    (os os' : Str → Option Str) (t : Tags) (config : MappingFuncConfig)
    → config.use_os_env ≡ false
    → expand_tokens os t config ≡ expand_tokens os' t config
unfolding expand_tokens
expand_tokens-isolated os os' [] config h = refl
expand_tokens-isolated os os' ((k, v) ∷ t) config h =
    cc (expand-isolated os os' config v h, expand_tokens-isolated os os' t config h)
