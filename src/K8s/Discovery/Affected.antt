-- ===== src/K8s/Discovery/Affected.antt =====
-- Which pods a change of a config map is sent for, and what each event on a config map does to the
-- cache and sends.
use hawkular_openshift_agent.Base.{
  Str, str_eq, str_eq_iff, string_eq, ℤ, Bool, true, false, ◌&&◌, ◌≡◌, sym, Option, Option-cases,
  inl, inr, none, some, List, [], ◌∷◌, ◌++◌, append_assoc, append-nil, arith, if◌then◌else◌,
}
use hawkular_openshift_agent.Base.Map
use hawkular_openshift_agent.K8s.Pod.{Pod, PodInventory, for_each_pod}
use hawkular_openshift_agent.K8s.ConfigMaps.{
  ConfigMap, ConfigMapEntry, get_entry, remove_entry, unmarshal_config_map_entry,
}
use hawkular_openshift_agent.K8s.ConfigMaps.Laws.{same, get_entry-add_entry, get_entry-remove_entry}
use hawkular_openshift_agent.K8s.Discovery.{
  Discovery, NodeEvent, config_map_added, config_map_modified, Trigger, EventType, added, deleted,
  modified, ignored, ConfigMapFromEvent, config_map_entry_name, mounts, on_changed_config_map,
  config_map_event, store_entry, send_node_event_due_to_changed_config_map,
}

-- The pods of the namespace that have the config map in their volume for the agent.
pub affected : PodInventory → Str → Str → List Pod
affected [] ns name = []
affected ((k, p) ∷ pods) ns name =
    let rest = affected pods ns name in
    if str_eq p.namespace.name ns && mounts p name then p ∷ rest else rest

abbrev pub event : Trigger → Option ConfigMapEntry → Pod → NodeEvent
event trigger entry p = record { trigger = trigger; pod = p; config_map_entry = entry }

abbrev pub events : Trigger → Option ConfigMapEntry → List Pod → List NodeEvent
events trigger entry [] = []
events trigger entry (p ∷ ps) = event trigger entry p ∷ events trigger entry ps

-- The name and the entry that the events are about.
abbrev pub changed_name : Str → Option ConfigMap → Str
changed_name name none = name
changed_name name (some cm) = cm.name

abbrev pub changed_entry : Option ConfigMap → Option ConfigMapEntry
changed_entry none = none
changed_entry (some cm) = some cm.entry

for_each_pod-on_changed :
    (pods : PodInventory) (ns name : Str) (cm : Option ConfigMap) (trigger : Trigger)
    (sent : List NodeEvent)
    → for_each_pod pods (on_changed_config_map ns name cm trigger) sent
      ≡ sent ++ events trigger (changed_entry cm) (affected pods ns (changed_name name cm))
unfolding for_each_pod on_changed_config_map affected
for_each_pod-on_changed [] ns name cm trigger sent = sym (append-nil sent)
for_each_pod-on_changed ((k, p) ∷ pods) ns name none trigger sent =
    let e = event trigger none p in
    ground (
      arith,
      for_each_pod-on_changed pods ns name none trigger sent,
      for_each_pod-on_changed pods ns name none trigger (sent ++ e ∷ []),
      append_assoc sent (e ∷ []) (events trigger none (affected pods ns name)),
    )
for_each_pod-on_changed ((k, p) ∷ pods) ns name (some cm) trigger sent =
    let e = event trigger (some cm.entry) p in
    ground (
      arith,
      for_each_pod-on_changed pods ns name (some cm) trigger sent,
      for_each_pod-on_changed pods ns name (some cm) trigger (sent ++ e ∷ []),
      append_assoc sent (e ∷ []) (events trigger (some cm.entry) (affected pods ns cm.name)),
    )

-- A changed or deleted config map sends one event for each pod of its namespace that has it in
-- its volume for the agent, in the order of the inventory, with the config map's entry or, after
-- a deletion, none; and no other.
pub send_changed-affected :
    (d : Discovery) (ns name : Str) (cm : Option ConfigMap) (trigger : Trigger)
    → send_node_event_due_to_changed_config_map d ns name cm trigger
      ≡ events trigger (changed_entry cm) (affected d.pods ns (changed_name name cm))
unfolding send_node_event_due_to_changed_config_map
send_changed-affected d ns name cm trigger = for_each_pod-on_changed d.pods ns name cm trigger []

-- What the cache answers for a config map after an event on it whose yaml text is this, if the
-- cache answered `before`.
module _ (parse_duration : Str → Option ℤ) (unmarshal : Str → ConfigMapEntry × Bool) where
  abbrev pub usable_entry : Str → Option ConfigMapEntry
  usable_entry yaml =
      let (entry, err) = unmarshal_config_map_entry parse_duration unmarshal yaml in
      elim err [ none ↦ some entry | some e ↦ none ]

  abbrev pub stored : Str → Str → Option ConfigMapEntry → Option ConfigMap → Option ConfigMap
  stored ns name none before = before
  stored ns name (some entry) before = some (record { namespace = ns; name = name; entry = entry })

  abbrev pub after : Str → Str → EventType → Option Str → Option ConfigMap → Option ConfigMap
  after ns name type none before = before
  after ns name added (some yaml) before = stored ns name (usable_entry yaml) before
  after ns name modified (some yaml) before = stored ns name (usable_entry yaml) before
  after ns name deleted (some yaml) before = none
  after ns name ignored (some yaml) before = before

  get_entry-store_entry :
      (d : Discovery) (ns name yaml : Str) (replace : Bool) (trigger : Trigger) (ns' name' : Str)
      → get_entry
          (store_entry parse_duration unmarshal d ns name yaml replace trigger).0.config_maps
          ns'
          name'
        ≡ (if same ns name ns' name'
            then stored ns name (usable_entry yaml) (get_entry d.config_maps ns name)
            else get_entry d.config_maps ns' name')
  unfolding store_entry
  get_entry-store_entry d ns name yaml replace trigger ns' name' =
      let (entry, err) = unmarshal_config_map_entry parse_duration unmarshal yaml in
      let cms = if replace then remove_entry d.config_maps ns name else d.config_maps in
      let cm : ConfigMap = record { namespace = ns; name = name; entry = entry } in
      elim (Option-cases err) [
        | inl fine ↦
            rw (fine, store_entry)
              (ground (
                arith,
                get_entry-add_entry cms cm ns' name',
                get_entry-remove_entry d.config_maps ns name ns' name',
              ))
        | inr (e, failed) ↦
            rw (failed, store_entry) (ground (arith, str_eq_iff ns ns', str_eq_iff name name'))
      ]

  get_entry-present :
      (d : Discovery) (ns : Str) (type : EventType) (cm : ConfigMapFromEvent) (yaml : Str)
      (ns' name' : Str)
      → Map.get cm.data_of config_map_entry_name ≡ some yaml
      → get_entry (config_map_event parse_duration unmarshal d ns type cm).0.config_maps ns' name'
        ≡ (if same ns cm.name ns' name'
            then after ns cm.name type (some yaml) (get_entry d.config_maps ns cm.name)
            else get_entry d.config_maps ns' name')
  unfolding config_map_event
  get_entry-present d ns added cm yaml ns' name' h =
      rw (h, config_map_event)
        (get_entry-store_entry d ns cm.name yaml false config_map_added ns' name')
  get_entry-present d ns deleted cm yaml ns' name' h =
      rw (h, config_map_event) (get_entry-remove_entry d.config_maps ns cm.name ns' name')
  get_entry-present d ns modified cm yaml ns' name' h =
      rw (h, config_map_event)
        (get_entry-store_entry d ns cm.name yaml true config_map_modified ns' name')
  get_entry-present d ns ignored cm yaml ns' name' h =
      rw (h, config_map_event) (ground (arith, str_eq_iff ns ns', str_eq_iff cm.name name'))

  -- An event on a config map changes what the cache answers for that config map only, and only if
  -- the config map has an entry for the agent: an added or modified one is cached if its text can
  -- be used and leaves the cache as it was if not, and a deleted one is forgotten.
  pub get_entry-config_map_event :
      (d : Discovery) (ns : Str) (type : EventType) (cm : ConfigMapFromEvent) (ns' name' : Str)
      → get_entry (config_map_event parse_duration unmarshal d ns type cm).0.config_maps ns' name'
        ≡ (if same ns cm.name ns' name'
            then after ns cm.name type
                (Map.get cm.data_of config_map_entry_name)
                (get_entry d.config_maps ns cm.name)
            else get_entry d.config_maps ns' name')
  unfolding config_map_event store_entry
  get_entry-config_map_event d ns type cm ns' name' =
      elim (Option-cases (Map.get cm.data_of config_map_entry_name)) [
        | inl missing ↦
            rw (missing, config_map_event)
              (ground (arith, str_eq_iff ns ns', str_eq_iff cm.name name'))
        | inr (yaml, found) ↦ rw (found) (get_entry-present d ns type cm yaml ns' name' found)
      ]
