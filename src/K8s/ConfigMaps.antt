-- ===== src/K8s/ConfigMaps.antt =====
-- k8s/configmap.go, k8s/configmaps.go and k8s/configmap_entry.go: the config maps that the agent
-- has cached, by namespace and name, and what their entry says of a pod's endpoints.
pub mod Laws
mod Tests
use hawkular_openshift_agent.Base.{
  Str, codes, str_eq, string_eq, ℕ, ◌==◌, ℤ, Bool, true, false, not, ◌&&◌, ◌||◌, Option, none, some,
  is_some, List, [], ◌∷◌, ◌++◌, if◌then◌else◌,
}
use hawkular_openshift_agent.Base.Map
use hawkular_openshift_agent.Base.Map.{Map}
use hawkular_openshift_agent.Collector.{Credentials, MonitoredMetric, Tags}

pub record K8sEndpoint : Type 0 where
  pub type : Str
  pub enabled : Str
  pub protocol : Str
  pub port : ℤ
  pub path : Str
  pub skip_certificate_validation : Bool
  pub credentials : Credentials
  pub collection_interval : Str
  pub tags : Tags
  pub metrics : List MonitoredMetric

pub record ConfigMapEntry : Type 0 where
  pub endpoints : List K8sEndpoint

unfoldable pub k8s_is_enabled : K8sEndpoint → Bool
k8s_is_enabled e = str_eq e.enabled [] || str_eq e.enabled (codes "true")

leading_slash : Str → Str
leading_slash [] = codes "/"
leading_slash (c ∷ path) = if c == b'/' then [] else codes "/"

pub record ConfigMap : Type 0 where
  pub namespace : Str
  pub name : Str
  pub entry : ConfigMapEntry

-- Entries: the first key is the namespace, the second the name of the config map.
abbrev pub ConfigMaps : Type 0
ConfigMaps = Map Str (Map Str ConfigMap)

abbrev pub of_namespace : Option (Map Str ConfigMap) → Map Str ConfigMap
of_namespace none = []
of_namespace (some maps) = maps

unfoldable pub add_entry : ConfigMaps → ConfigMap → ConfigMaps
add_entry cms cm =
    Map.put cms cm.namespace (Map.put (of_namespace (Map.get cms cm.namespace)) cm.name cm)

unfoldable pub get_entry : ConfigMaps → Str → Str → Option ConfigMap
get_entry cms namespace name = elim (Map.get cms namespace) [
  | none ↦ none
  | some maps ↦ Map.get maps name
]

unfoldable pub remove_entry : ConfigMaps → Str → Str → ConfigMaps
remove_entry cms namespace name = elim (Map.get cms namespace) [
  | none ↦ cms
  | some maps ↦ Map.put cms namespace (Map.delete maps name)
]

unfoldable pub clear_namespace : ConfigMaps → Str → ConfigMaps
clear_namespace cms namespace = Map.delete cms namespace

unfoldable pub clear_all : ConfigMaps → ConfigMaps
clear_all cms = []

pub data EntryError : Type 0 where
  bad_yaml bad_enabled bad_interval : EntryError

-- `show_port` is the decimal text of an int and `parse_url` is url.Parse followed by String().
module _ (show_port : ℤ → Str) (parse_url : Str → Option Str) where
  unfoldable pub get_url : K8sEndpoint → Str → Option Str
  unfolding leading_slash
  get_url e host =
      if str_eq host []
      then none
      else parse_url (
          e.protocol
          ++ (codes "://"
              ++ (host ++ b':' ∷ (show_port e.port ++ (leading_slash e.path ++ e.path)))))

-- The loop of UnmarshalConfigMapEntry over the endpoints. An endpoint's flag and interval are
-- replaced where they are wrong, and the last error is kept. `parse_duration` is
-- time.ParseDuration.
module _ (parse_duration : Str → Option ℤ) where
  fix_enabled : K8sEndpoint → K8sEndpoint × Option EntryError
  fix_enabled e =
      if str_eq e.enabled []
      then (record e { enabled = codes "true" }, none)
      else if not (str_eq e.enabled (codes "true")) && not (str_eq e.enabled (codes "false"))
      then (record e { enabled = codes "false" }, some bad_enabled)
      else (e, none)

  fix_interval : K8sEndpoint → K8sEndpoint × Option EntryError
  fix_interval e =
      if not (str_eq e.collection_interval [])
        && not (is_some (parse_duration e.collection_interval))
      then (record e { collection_interval = [] }, some bad_interval)
      else (e, none)

  abbrev later : Option EntryError → Option EntryError → Option EntryError
  later first none = first
  later first (some e) = some e

  fix_endpoints : List K8sEndpoint → Option EntryError → List K8sEndpoint × Option EntryError
  unfolding fix_enabled fix_interval
  fix_endpoints [] err = ([], err)
  fix_endpoints (e ∷ es) err =
      let (e1, err1) = fix_enabled e in
      let (e2, err2) = fix_interval e1 in
      let rest = fix_endpoints es (later (later err err1) err2) in (e2 ∷ rest.0, rest.1)

  -- `unmarshal` is yaml.Unmarshal into an empty entry: what it could read, and whether it failed.
  unfoldable pub unmarshal_config_map_entry :
      (Str → ConfigMapEntry × Bool) → Str → ConfigMapEntry × Option EntryError
  unfolding fix_endpoints
  unmarshal_config_map_entry unmarshal yaml =
      let (read, failed) = unmarshal yaml in
      let fixed = fix_endpoints read.endpoints (if failed then some bad_yaml else none) in
      (record { endpoints = fixed.0 }, fixed.1)
