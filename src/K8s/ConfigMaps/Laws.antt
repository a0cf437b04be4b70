-- ===== src/K8s/ConfigMaps/Laws.antt =====
-- The cache of config maps as a function of namespace and name, and the entries that are usable.
use hawkular_openshift_agent.Base.{
  Str, codes, str_eq, str_eq_iff, string_eq, ℤ, ◌≡◌, refl, ap, ◌∙◌, ◌⊎◌, inl, inr, Bool, true, ◌&&◌,
  Option, Option-cases, none, some, is_some, List, [], ◌∷◌, All, arith, if◌then◌else◌,
}
use hawkular_openshift_agent.Base.Map
use mathlib.Core.Path.{fun_ext}
use hawkular_openshift_agent.Base.Map.{get-put, get-delete, get-put_self}
use hawkular_openshift_agent.K8s.ConfigMaps.{
  ConfigMap, ConfigMaps, ConfigMapEntry, K8sEndpoint, EntryError, of_namespace, add_entry,
  get_entry, remove_entry, clear_namespace, fix_endpoints, fix_enabled, fix_interval,
  unmarshal_config_map_entry,
}

-- Two names of config maps, each in a namespace, are the same.
abbrev pub same : Str → Str → Str → Str → Bool
same ns name ns' name' = str_eq ns ns' && str_eq name name'

pub get_entry-add_entry :
    (cms : ConfigMaps) (cm : ConfigMap) (ns name : Str)
    → get_entry (add_entry cms cm) ns name
      ≡ (if same cm.namespace cm.name ns name then some cm else get_entry cms ns name)
unfolding get_entry add_entry Map.get
get_entry-add_entry cms cm ns name =
    let maps = of_namespace (Map.get cms cm.namespace) in
    ground (
      arith,
      str_eq_iff cm.namespace ns,
      get-put cms cm.namespace ns (Map.put maps cm.name cm),
      get-put maps cm.name name cm,
    )

pub get_entry-remove_entry :
    (cms : ConfigMaps) (ns name ns' name' : Str)
    → get_entry (remove_entry cms ns name) ns' name'
      ≡ (if same ns name ns' name' then none else get_entry cms ns' name')
unfolding get_entry remove_entry
get_entry-remove_entry cms ns name ns' name' = elim (Option-cases (Map.get cms ns)) [
  | inl missing ↦ ground (arith, str_eq_iff ns ns')
  | inr (maps, found) ↦ ground (
    arith,
    str_eq_iff ns ns',
    get-put cms ns ns' (Map.delete maps name),
    get-delete maps name name',
  )
]

pub get_entry-clear_namespace :
    (cms : ConfigMaps) (ns ns' name : Str)
    → get_entry (clear_namespace cms ns) ns' name
      ≡ (if str_eq ns ns' then none else get_entry cms ns' name)
unfolding get_entry clear_namespace
get_entry-clear_namespace cms ns ns' name = ground (arith, get-delete cms ns ns')

-- The operations on the cache of config maps, as a client sees them.
pub data Change : Type 0 where
  added : ConfigMap → Change
  removed : Str → Str → Change
  cleared : Str → Change

pub apply : ConfigMaps → Change → ConfigMaps
apply cms (added cm) = add_entry cms cm
apply cms (removed ns name) = remove_entry cms ns name
apply cms (cleared ns) = clear_namespace cms ns

pub applies : ConfigMaps → List Change → ConfigMaps
unfolding apply
applies cms [] = cms
applies cms (c ∷ cs) = applies (apply cms c) cs

-- The specification: a function of namespace and name, changed at one point or in one namespace.
abbrev pub change : (Str → Str → Option ConfigMap) → Change → Str → Str → Option ConfigMap
change f (added cm) ns name = if same cm.namespace cm.name ns name then some cm else f ns name
change f (removed ns' name') ns name = if same ns' name' ns name then none else f ns name
change f (cleared ns') ns name = if str_eq ns' ns then none else f ns name

abbrev pub changes : (Str → Str → Option ConfigMap) → List Change → Str → Str → Option ConfigMap
changes f [] = f
changes f (c ∷ cs) = changes (change f c) cs

get_entry-apply :
    (cms : ConfigMaps) (c : Change) (ns name : Str)
    → get_entry (apply cms c) ns name ≡ change (get_entry cms) c ns name
unfolding apply
get_entry-apply cms (added cm) ns name = get_entry-add_entry cms cm ns name
get_entry-apply cms (removed ns' name') ns name = get_entry-remove_entry cms ns' name' ns name
get_entry-apply cms (cleared ns') ns name = get_entry-clear_namespace cms ns' ns name

-- After any changes, GetEntry answers as the function that the changes make of what it answered
-- before.
pub get_entry-applies :
    (cms : ConfigMaps) (cs : List Change) → get_entry (applies cms cs) ≡ changes (get_entry cms) cs
unfolding applies
get_entry-applies cms [] = refl
get_entry-applies cms (c ∷ cs) =
    get_entry-applies (apply cms c) cs
    ∙ ap (λ f. changes f cs) (fun_ext (λ ns. fun_ext (λ name. get_entry-apply cms c ns name)))

-- An endpoint that the agent can use: the flag is one of two words, and the interval is empty or
-- a duration.
abbrev pub IsUsable : (Str → Option ℤ) → K8sEndpoint → Type 0
IsUsable parse_duration e =
    ((e.enabled ≡ codes "true") ⊎ (e.enabled ≡ codes "false"))
    × ((e.collection_interval ≡ []) ⊎ (is_some (parse_duration e.collection_interval) ≡ true))

module _ (parse_duration : Str → Option ℤ) where
  fixed-IsUsable :
      (e : K8sEndpoint)
      → IsUsable parse_duration (fix_interval parse_duration (fix_enabled parse_duration e).0).0
  unfolding fix_interval fix_enabled
  fixed-IsUsable e = ground (
    arith,
    str_eq_iff e.enabled (codes "true"),
    str_eq_iff e.enabled (codes "false"),
    str_eq_iff e.collection_interval [],
  )

  fix_endpoints-IsUsable :
      (es : List K8sEndpoint) (err : Option EntryError)
      → All (IsUsable parse_duration) (fix_endpoints parse_duration es err).0
  unfolding fix_endpoints
  fix_endpoints-IsUsable [] err = tt
  fix_endpoints-IsUsable (e ∷ es) err = (fixed-IsUsable e, fix_endpoints-IsUsable es _)

  -- Whatever a config map's text holds, and whether or not an error is returned, every endpoint
  -- of the entry that UnmarshalConfigMapEntry returns has a flag that is `true` or `false` and an
  -- interval that is empty or a duration.
  pub unmarshal-IsUsable :
      (unmarshal : Str → ConfigMapEntry × Bool) (yaml : Str)
      → All
          (IsUsable parse_duration)
          (unmarshal_config_map_entry parse_duration unmarshal yaml).0.endpoints
  unfolding unmarshal_config_map_entry
  unmarshal-IsUsable unmarshal yaml = fix_endpoints-IsUsable (unmarshal yaml).0.endpoints _
