-- ===== src/K8s/ConfigMaps/Tests.antt =====
-- The cache of config maps at concrete changes, and an entry with endpoints that are not usable.
use hawkular_openshift_agent.Base.{
  String, Str, codes, str_eq, ℤ, pos, ◌≡◌, refl, Bool, false, Option, none, some, List, [], ◌∷◌,
}
use hawkular_openshift_agent.K8s.ConfigMaps.{
  ConfigMap, ConfigMapEntry, K8sEndpoint, bad_interval, get_entry, unmarshal_config_map_entry,
}
use hawkular_openshift_agent.K8s.ConfigMaps.Laws.{
  Change, added, removed, cleared, applies, changes, get_entry-applies,
}

abbrev endpoint : String → String → K8sEndpoint
endpoint enabled interval = record {
  type = codes "jolokia";
  enabled = codes enabled;
  protocol = codes "http";
  port = pos 8778;
  path = codes "jolokia";
  skip_certificate_validation = false;
  credentials = record { username = []; password = []; token = [] };
  collection_interval = codes interval;
  tags = [];
  metrics = [];
}

abbrev entry : ConfigMapEntry
entry = record { endpoints = endpoint "maybe" "" ∷ endpoint "" "soon" ∷ [] }

abbrev config_map : ConfigMap
config_map = record { namespace = codes "shop"; name = codes "agent"; entry = entry }

abbrev some_changes : List Change
some_changes =
    added config_map ∷ removed (codes "shop") (codes "other") ∷ cleared (codes "bank") ∷ []

get_entry-applies_example :
    get_entry (applies [] some_changes) ≡ changes (get_entry []) some_changes
get_entry-applies_example = get_entry-applies [] some_changes

abbrev no_duration : Str → Option ℤ
no_duration s = none

abbrev read : Str → ConfigMapEntry × Bool
read yaml = (entry, false)

unmarshal_errors : (unmarshal_config_map_entry no_duration read []).1 ≡ some bad_interval
unfolding unmarshal_config_map_entry str_eq
unmarshal_errors = refl
