-- ===== src/K8s/Discovery/Watching.antt =====
-- Which namespaces have their config maps watched.
mod Pods
use hawkular_openshift_agent.Base.{
  Str, str_eq, str_eq_iff, string_eq, ℤ, Bool, true, false, not, ◌||◌, ◌≡◌, refl, inl, inr,
  Bool-cases, Option, List, [], ◌∷◌, All, arith, if◌then◌else◌, ◌∙◌,
}
use hawkular_openshift_agent.Base.Map
use hawkular_openshift_agent.Base.Map.{Map, has-put, has-delete, All-put, All-delete}
use hawkular_openshift_agent.K8s.Pod.{
  Node, Pod, PodInventory, IsNamed, NoSlash, get_identifier, get_identifier_inj, add_pod,
  remove_pod, replace_pod, for_each_pod,
}
use hawkular_openshift_agent.K8s.ConfigMaps.{ConfigMapEntry}
use hawkular_openshift_agent.K8s.Discovery.{
  Discovery, NodeEvent, EventType, added, deleted, modified, ignored, PodFromEvent,
  ConfigMapFromEvent, new_discovery, pod_of_event, stop_watcher, can_stop_watcher, watch_config_map,
  unwatch_config_map, pod_event, config_map_event, store_entry,
}
pub use hawkular_openshift_agent.K8s.Discovery.Watching.Pods.{IsWatching}
use hawkular_openshift_agent.K8s.Discovery.Watching.Pods.{
  any_in, str_eq_sym, IsKeyed, same_namespace, any_in-add_pod, any_in-remove_pod, remove_pod_le,
  watch_lem, watch_config_map-pods, add-IsWatching, can_stop_watcher_lem, unwatch_lem,
  unwatch_config_map-pods, remove_pod-watched, remove-IsWatching,
}

-- An event on a pod whose names hold no slash.
pub record IsNamedEvent (p : PodFromEvent) : Type 0 where
  pub namespace : NoSlash p.namespace
  pub name : NoSlash p.name

pod_of_event-IsNamed :
    (node : Node) (p : PodFromEvent)
    → NoSlash node.name
    → IsNamedEvent p
    → IsNamed (pod_of_event node p)
unfolding pod_of_event
pod_of_event-IsNamed node p hn h = record { node = hn; namespace = h.namespace; name = h.name }

-- An event on a pod or on a config map of a namespace, as a watcher hands it on.
pub data Event : Type 0 where
  on_pod : EventType → PodFromEvent → Event
  on_config_map : Str → EventType → ConfigMapFromEvent → Event

abbrev pub IsNamedOne : Event → Type 0
IsNamedOne (on_pod type p) = IsNamedEvent p
IsNamedOne (on_config_map ns type cm) = Unit

module _ (parse_duration : Str → Option ℤ) (unmarshal : Str → ConfigMapEntry × Bool) where
  pub process : Discovery → Event → Discovery × List NodeEvent
  process d (on_pod type p) = pod_event d type p
  process d (on_config_map ns type cm) = config_map_event parse_duration unmarshal d ns type cm

  -- The state after some events.
  pub processes : Discovery → List Event → Discovery
  unfolding process
  processes d [] = d
  processes d (e ∷ es) = processes (process d e).0 es

  -- Config-map events leave the pods and the watchers.
  config_map_event-pods :
      (d : Discovery) (ns : Str) (type : EventType) (cm : ConfigMapFromEvent)
      → let d' = (config_map_event parse_duration unmarshal d ns type cm).0 in
        (d'.pods ≡ d.pods) × (d'.config_map_watchers ≡ d.config_map_watchers) × (d'.node ≡ d.node)
  unfolding config_map_event store_entry
  config_map_event-pods d ns type cm = ground arith

  pod_event-deleted :
      (d : Discovery) (p : PodFromEvent)
      → let pod = pod_of_event d.node p in
        let d1 = record d { pods = remove_pod d.pods pod } in
        (pod_event d deleted p).0 ≡ (
          if can_stop_watcher d1.pods pod.namespace.name
          then unwatch_config_map d1 pod.namespace.name
          else d1)
  unfolding pod_event
  pod_event-deleted d p = ground arith

  pod_event-IsWatching :
      (d : Discovery) (type : EventType) (p : PodFromEvent)
      → NoSlash d.node.name
      → IsNamedEvent p
      → IsWatching d
      → IsWatching (pod_event d type p).0
  unfolding pod_event replace_pod
  pod_event-IsWatching d added p hn h w =
      add-IsWatching d (pod_of_event d.node p) (pod_of_event-IsNamed d.node p hn h) w
  pod_event-IsWatching d modified p hn h w =
      add-IsWatching d (pod_of_event d.node p) (pod_of_event-IsNamed d.node p hn h) w
  pod_event-IsWatching d deleted p hn h w =
      rw (pod_event-deleted d p)
        (remove-IsWatching d (pod_of_event d.node p) (pod_of_event-IsNamed d.node p hn h) w)
  pod_event-IsWatching d ignored p hn h w = w

  process-IsWatching :
      (d : Discovery) (e : Event)
      → NoSlash d.node.name
      → IsNamedOne e
      → IsWatching d
      → IsWatching (process d e).0
  unfolding process
  process-IsWatching d (on_pod type p) hn h w = pod_event-IsWatching d type p hn h w
  process-IsWatching d (on_config_map ns type cm) hn h w =
      let (pods, watchers, node) = config_map_event-pods d ns type cm in
      record { keyed = rw pods w.keyed; watched = λ ns'. rw (pods, watchers) (w.watched ns') }

  process-node : (d : Discovery) (e : Event) → (process d e).0.node ≡ d.node
  unfolding process pod_event watch_config_map unwatch_config_map
  process-node d (on_pod type p) = ground arith
  process-node d (on_config_map ns type cm) = (config_map_event-pods d ns type cm).2

  processes-IsWatching :
      (d : Discovery) (es : List Event)
      → NoSlash d.node.name
      → All IsNamedOne es
      → IsWatching d
      → IsWatching (processes d es)
  unfolding processes
  processes-IsWatching d [] hn h w = w
  processes-IsWatching d (e ∷ es) hn h w =
      processes-IsWatching (process d e).0 es (rw (process-node d e) hn) h.1
        (process-IsWatching d e hn h.0 w)

  -- After any events on pods and config maps whose names hold no slash, from the start of the
  -- discovery, each pod of the inventory stands under its identifier, and the config maps of a
  -- namespace are watched exactly if some pod of the inventory is in that namespace.
  pub processes_new-IsWatching :
      (node : Node) (es : List Event)
      → NoSlash node.name
      → All IsNamedOne es
      → IsWatching (processes (new_discovery node) es)
  unfolding new_discovery Map.has Map.get any_in
  processes_new-IsWatching node es hn h =
      processes-IsWatching (new_discovery node) es hn h
        (record { keyed = tt; watched = λ ns. refl })
