-- ===== src/Config/Expand/Tests.antt =====
-- The theorems on expansion at concrete inputs, and runs of the examples in the source's comments.
use hawkular_openshift_agent.Base.{
  Str, codes, str_eq, ◌≡◌, refl, true, false, Option, none, some, [], ◌∷◌, arith,
}
use hawkular_openshift_agent.Base.Map
use hawkular_openshift_agent.Config.Expand.{
  MappingFuncConfig, mapping_func, expand, split_default, look_up,
}
use hawkular_openshift_agent.Config.Expand.Laws.{expand_plain, expand-isolated}

abbrev agent : Str → Option Str
agent name = some (codes "secret")

abbrev no_agent : Str → Option Str
no_agent name = none

abbrev pod_config : MappingFuncConfig
pod_config = record {
  env = (codes "POD:name", codes "web") ∷ [];
  use_os_env = false;
  do_not_expand_if_not_found = true;
}

expand_plain_example : expand (codes "plain") (λ s. s) ≡ codes "plain"
expand_plain_example = expand_plain (codes "plain") (λ s. s) (omega arith)

expand-isolated_example :
    expand (codes "${PASSWORD}") (mapping_func agent pod_config)
    ≡ expand (codes "${PASSWORD}") (mapping_func no_agent pod_config)
expand-isolated_example = expand-isolated agent no_agent pod_config (codes "${PASSWORD}") refl

expand_pod_name :
    expand (codes "$$a_${POD:name}_$x") (mapping_func agent pod_config) ≡ codes "$a_web_${x}"
unfolding expand mapping_func split_default look_up Map.get str_eq
expand_pod_name = refl
