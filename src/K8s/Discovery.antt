-- ===== src/K8s/Discovery.antt =====
-- k8s/discovery.go and k8s/node_event.go: how events on pods and config maps change the inventory
-- and the set of namespaces whose config maps are watched, and which node events they send. One
-- pass of a watcher's loop is one step; the events that it puts on the channel are its result.
pub mod Watching
pub mod Affected
mod Tests
use hawkular_openshift_agent.Base.{
  Str, codes, str_eq, string_eq, ℕ, ℤ, Bool, true, false, not, ◌&&◌, Option, none, some, List, [],
  ◌∷◌, ◌++◌, if◌then◌else◌,
}
use hawkular_openshift_agent.Base.Map
use hawkular_openshift_agent.Base.Map.{Map}
use hawkular_openshift_agent.K8s.Pod.{
  Node, Namespace, Pod, PodInventory, add_pod, remove_pod, replace_pod, for_each_pod,
}
use hawkular_openshift_agent.K8s.ConfigMaps.{
  ConfigMap, ConfigMaps, ConfigMapEntry, EntryError, add_entry, get_entry, remove_entry,
  clear_namespace, unmarshal_config_map_entry,
}

pub data Trigger : Type 0 where
  pod_added pod_modified pod_deleted : Trigger
  config_map_added config_map_modified config_map_deleted : Trigger

pub record NodeEvent : Type 0 where
  pub trigger : Trigger
  pub pod : Pod
  pub config_map_entry : Option ConfigMapEntry

abbrev pub volume_name : Str
volume_name = codes "hawkular-openshift-agent"

abbrev pub config_map_entry_name : Str
config_map_entry_name = codes "hawkular-openshift-agent"

-- The type of a watch event; `ignored` is any text but the three, where the object is of the kind
-- that is watched.
pub data EventType : Type 0 where
  added deleted modified ignored : EventType

-- What the agent reads of the pod that an event carries. A volume has its name and, if it is a
-- config map's, that config map's name. The namespace's uid is what a look-up of the namespace
-- gave.
pub record PodFromEvent : Type 0 where
  pub namespace : Str
  pub namespace_uid : Option Str
  pub name : Str
  pub uid : Str
  pub pod_ip : Str
  pub host_ip : Str
  pub hostname : Str
  pub subdomain : Str
  pub labels : Map Str Str
  pub annotations : Map Str Str
  pub volumes : List (Str × Option Str)
  pub cluster_name : Str
  pub resource_version : Str
  pub self_link : Str

pub record ConfigMapFromEvent : Type 0 where
  pub name : Str
  pub data_of : Map Str Str

-- `config_map_watchers` has the namespaces whose config maps are being watched.
pub record Discovery : Type 0 where
  pub node : Node
  pub pods : PodInventory
  pub config_maps : ConfigMaps
  pub config_map_watchers : Map Str (Unit {0})

unfoldable pub new_discovery : Node → Discovery
new_discovery node = record { node = node; pods = []; config_maps = []; config_map_watchers = [] }

-- The loop over the volumes.
cm_vols : Map Str Str → List (Str × Option Str) → Map Str Str
cm_vols vols [] = vols
cm_vols vols ((name, none) ∷ more) = cm_vols vols more
cm_vols vols ((name, some config_map) ∷ more) = cm_vols (Map.put vols name config_map) more

uid_or_empty : Option Str → Str
uid_or_empty none = []
uid_or_empty (some uid) = uid

unfoldable pub pod_of_event : Node → PodFromEvent → Pod
unfolding cm_vols uid_or_empty
pod_of_event node p = record {
  node = node;
  namespace = record { name = p.namespace; uid = uid_or_empty p.namespace_uid };
  name = p.name;
  uid = p.uid;
  pod_ip = p.pod_ip;
  host_ip = p.host_ip;
  hostname = p.hostname;
  subdomain = p.subdomain;
  labels = p.labels;
  annotations = p.annotations;
  config_map_volumes = cm_vols [] p.volumes;
  cluster_name = p.cluster_name;
  resource_version = p.resource_version;
  self_link = p.self_link;
}

unfoldable pub entry_of_pod : ConfigMaps → Pod → Option ConfigMapEntry
entry_of_pod cms pod = elim (Map.get pod.config_map_volumes volume_name) [
  | none ↦ none
  | some name ↦ elim (get_entry cms pod.namespace.name name) [
    | none ↦ none
    | some cm ↦ some cm.entry
  ]
]

unfoldable pub send_node_event_due_to_changed_pod : Discovery → Pod → Trigger → List NodeEvent
send_node_event_due_to_changed_pod d pod trigger =
    record { trigger = trigger; pod = pod; config_map_entry = entry_of_pod d.config_maps pod } ∷ []

-- hasVol == true && configMapName == name
mounts : Pod → Str → Bool
mounts p name = elim (Map.get p.config_map_volumes volume_name) [
  | none ↦ false
  | some volume ↦ str_eq volume name
]

-- The function that is called for each pod, with the events sent so far. A config map that is not
-- nil gives its own name and entry; after a deletion there is no entry.
on_changed_config_map :
    Str → Str → Option ConfigMap → Trigger → Pod → List NodeEvent → List NodeEvent × Bool
unfolding mounts
on_changed_config_map namespace name cm trigger p sent =
    let name' : Str = elim cm [ none ↦ name | some c ↦ c.name ] in
    let entry : Option ConfigMapEntry = elim cm [ none ↦ none | some c ↦ some c.entry ] in
    let event : NodeEvent = record { trigger = trigger; pod = p; config_map_entry = entry } in
    if not (str_eq p.namespace.name namespace)
    then (sent, true)
    else if mounts p name'
    then (sent ++ event ∷ [], true)
    else (sent, true)

unfoldable pub send_node_event_due_to_changed_config_map :
    Discovery → Str → Str → Option ConfigMap → Trigger → List NodeEvent
unfolding on_changed_config_map
send_node_event_due_to_changed_config_map d namespace name cm trigger =
    for_each_pod d.pods (on_changed_config_map namespace name cm trigger) []

unfoldable pub watch_config_map : Discovery → Str → Discovery
watch_config_map d namespace =
    if Map.has d.config_map_watchers namespace
    then d
    else record d { config_map_watchers = Map.put d.config_map_watchers namespace tt }

unfoldable pub unwatch_config_map : Discovery → Str → Discovery
unwatch_config_map d namespace = record d {
  config_map_watchers = Map.delete d.config_map_watchers namespace;
  config_maps = clear_namespace d.config_maps namespace;
}

-- The function that is called for each pod to see whether the watcher can be stopped.
stop_watcher : Str → Pod → Bool → Bool × Bool
stop_watcher namespace p stop =
    let stop' = if str_eq namespace p.namespace.name then false else stop in (stop', stop')

-- No pod is left in the namespace.
unfoldable pub can_stop_watcher : PodInventory → Str → Bool
unfolding stop_watcher
can_stop_watcher pods namespace = for_each_pod pods (stop_watcher namespace) true

-- The object of the event is a pod. An event of the type Error has another object, for which the
-- assertion event.Object.(*v1.Pod) panics; such events are left out.
unfoldable pub pod_event : Discovery → EventType → PodFromEvent → Discovery × List NodeEvent
pod_event d type p =
    let pod = pod_of_event d.node p in
    let namespace = pod.namespace.name in
    elim type [
      | added ↦
          let d1 = record d { pods = add_pod d.pods pod } in
          let sent = send_node_event_due_to_changed_pod d1 pod pod_added in
          (watch_config_map d1 namespace, sent)
      | deleted ↦
          let d1 = record d { pods = remove_pod d.pods pod } in
          let sent = send_node_event_due_to_changed_pod d1 pod pod_deleted in
          if can_stop_watcher d1.pods namespace
          then (unwatch_config_map d1 namespace, sent)
          else (d1, sent)
      | modified ↦
          let d1 = record d { pods = replace_pod d.pods pod } in
          let sent = send_node_event_due_to_changed_pod d1 pod pod_modified in
          (watch_config_map d1 namespace, sent)
      | ignored ↦ (d, [])
    ]

-- A watcher of a namespace's config maps. `parse_duration` is time.ParseDuration and `unmarshal`
-- is yaml.Unmarshal.
module _ (parse_duration : Str → Option ℤ) (unmarshal : Str → ConfigMapEntry × Bool) where
  -- Added and Modified, of a config map with an entry; `modified` drops the old entry first.
  store_entry : Discovery → Str → Str → Str → Bool → Trigger → Discovery × List NodeEvent
  store_entry d namespace name yaml replace trigger =
      let (entry, err) = unmarshal_config_map_entry parse_duration unmarshal yaml in
      let cm : ConfigMap = record { namespace = namespace; name = name; entry = entry } in
      let cms = if replace then remove_entry d.config_maps namespace name else d.config_maps in
      let d1 = record d { config_maps = add_entry cms cm } in
      elim err [
        | none ↦ (d1, send_node_event_due_to_changed_config_map d1 namespace name (some cm) trigger)
        | some e ↦ (d, [])
      ]

  -- The object of the event is a config map, as above.
  unfoldable pub config_map_event :
      Discovery → Str → EventType → ConfigMapFromEvent → Discovery × List NodeEvent
  unfolding store_entry
  config_map_event d namespace type cm =
      let d1 = record d { config_maps = remove_entry d.config_maps namespace cm.name } in
      elim (Map.get cm.data_of config_map_entry_name) [
        | none ↦ (d, [])
        | some yaml ↦ elim type [
          | added ↦ store_entry d namespace cm.name yaml false config_map_added
          | deleted ↦ (
            d1,
            send_node_event_due_to_changed_config_map d1 namespace cm.name none config_map_deleted,
          )
          | modified ↦ store_entry d namespace cm.name yaml true config_map_modified
          | ignored ↦ (d, [])
        ]
      ]
