-- ===== src/Config/Tags.antt =====
-- config/tags/config_tags.go: tags, and their values with the tokens expanded.
pub mod Laws
use hawkular_openshift_agent.Base.{Str, string_eq, Option, none, some, List, [], ◌∷◌}
use hawkular_openshift_agent.Base.Map
use hawkular_openshift_agent.Collector.{Tags}
use hawkular_openshift_agent.Config.Expand.{MappingFuncConfig, mapping_func, expand}

-- AppendTags. A nil map and an empty one are the same here: nothing is added.
unfoldable pub append_tags : Tags → Tags → Tags
append_tags t [] = t
append_tags t ((k, v) ∷ more) = append_tags (Map.put t k v) more

-- ExpandTokens, of a receiver that is not nil.
unfoldable pub expand_tokens : (Str → Option Str) → Tags → MappingFuncConfig → Tags
expand_tokens os [] config = []
expand_tokens os ((k, v) ∷ t) config =
    (k, expand v (mapping_func os config)) ∷ expand_tokens os t config
