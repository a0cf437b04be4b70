-- ===== src/K8s/Consumer/Running.antt =====
-- What holds of the consumer after any node events, and what each does to the tickers.
mod Stopping
use hawkular_openshift_agent.Base.{
  Str, ℕ, str_eq, str_eq_iff, string_eq, Bool, true, false, ◌||◌, ◌≡◌, refl, inl, inr, Option,
  Option-cases, none, some, List, [], ◌∷◌, ◌++◌, arith, if◌then◌else◌,
}
use hawkular_openshift_agent.Base.Map
use hawkular_openshift_agent.Base.Map.{Map, get-put, get-delete, has-put, has-delete}
use hawkular_openshift_agent.Collector.{CollectorId, id_key, Endpoint}
use hawkular_openshift_agent.Manager.{
  Manager, Gauges, Collector, new_metrics_collector_manager, not_collecting,
}
use hawkular_openshift_agent.Manager.Creator.{
  start_or_not, endpoint_collector_id, start_collecting_endpoints, create_metrics_collector,
}
use hawkular_openshift_agent.Manager.Running.{start_collecting_lem}
use hawkular_openshift_agent.K8s.Pod.{slash, Pod, get_identifier}
use hawkular_openshift_agent.K8s.ConfigMaps.{ConfigMapEntry, K8sEndpoint, get_url}
use hawkular_openshift_agent.K8s.Discovery.{
  NodeEvent, Trigger, pod_added, pod_modified, pod_deleted, config_map_added, config_map_modified,
  config_map_deleted,
}
use hawkular_openshift_agent.K8s.Consumer.{
  Consumer, Setting, decide, get_id_for_endpoint, start_endpoint, nec_start_collecting,
  nec_stop_collecting, start_if_configured, consume_node_event, new_node_event_consumer,
}
use hawkular_openshift_agent.K8s.Consumer.Listed.{
  running, listed, IsKeyed, listed-keep_track, keep_track-IsKeyed, stop_each-running, wanted,
  wanted-pod, act-running, nec_start_collecting-running,
}
use hawkular_openshift_agent.Status.{StatusReport}
pub use hawkular_openshift_agent.K8s.Consumer.Running.Stopping.{IsTracked}
use hawkular_openshift_agent.K8s.Consumer.Running.Stopping.{
  stop-running, ne-nil, get_identifier-ne, stop-listed, stop-IsKeyed, stop-IsTracked,
}

abbrev pub event : Trigger → Option ConfigMapEntry → Pod → NodeEvent
event trigger entry p = record { trigger = trigger; pod = p; config_map_entry = entry }

module _ (s : Setting) where
  start_endpoint-IsTracked :
      (now : Str) (nec : Consumer) (p : Pod) (e : K8sEndpoint)
      → IsTracked nec
      → IsTracked (start_endpoint s now nec p e)
  unfolding start_endpoint
  start_endpoint-IsTracked now nec p e t =
      elim (Option-cases (get_url s.show_port s.parse_url e p.pod_ip)) [
        | inl no_url ↦ rw (no_url, start_endpoint) t
        | inr (url, has_url) ↦ elim (Option-cases (get_id_for_endpoint s p e)) [
          | inl no_id ↦ rw (has_url, no_id, start_endpoint) t
          | inr (eid, has_id) ↦
              let id : CollectorId = record { pod_id = get_identifier p; endpoint_id = eid } in
              rw (has_url, has_id, start_endpoint)
                (record {
                  every = λ c. ground (
                    arith,
                    act-running s now nec.manager p e url id c (decide s p e url id) refl,
                    listed-keep_track nec.collector_ids id c,
                    t.every c,
                  );
                  keyed = keep_track-IsKeyed nec.collector_ids id t.keyed;
                })
        ]
      ]

  start-IsTracked :
      (now : Str) (nec : Consumer) (p : Pod) (es : List K8sEndpoint)
      → IsTracked nec
      → IsTracked (nec_start_collecting s now nec p es)
  unfolding nec_start_collecting
  start-IsTracked now nec p [] t = t
  start-IsTracked now nec p (e ∷ es) t =
      start-IsTracked now (start_endpoint s now nec p e) p es
        (start_endpoint-IsTracked now nec p e t)

  start_if-IsTracked :
      (now : Str) (nec : Consumer) (p : Pod) (trigger : Trigger) (entry : Option ConfigMapEntry)
      → IsTracked nec
      → IsTracked (start_if_configured s now nec (event trigger entry p))
  unfolding start_if_configured
  start_if-IsTracked now nec p trigger none t = t
  start_if-IsTracked now nec p trigger (some cme) t = start-IsTracked now nec p cme.endpoints t

  -- The endpoints that an event's entry, if it has one, says to collect from.
  abbrev pub wanted_by : Pod → Option ConfigMapEntry → CollectorId → Bool
  wanted_by p none c = false
  wanted_by p (some cme) c = wanted s p cme.endpoints c

  -- Whether a collector of the event's pod runs after it, if `before` says whether it ran before.
  abbrev pub runs_after : Trigger → Pod → Option ConfigMapEntry → CollectorId → Bool → Bool
  runs_after pod_added p entry c before = wanted_by p entry c || before
  runs_after pod_modified p entry c before = wanted_by p entry c
  runs_after pod_deleted p entry c before = false
  runs_after config_map_added p entry c before = wanted_by p entry c || before
  runs_after config_map_modified p entry c before = wanted_by p entry c
  runs_after config_map_deleted p entry c before = false

  wanted_by-pod :
      (p : Pod) (entry : Option ConfigMapEntry) (c : CollectorId)
      → wanted_by p entry c ≡ true
      → c.pod_id ≡ get_identifier p
  wanted_by-pod p none c h = cc
  wanted_by-pod p (some cme) c h = wanted-pod s p cme.endpoints c h

  start_if-running :
      (now : Str) (nec : Consumer) (p : Pod) (trigger : Trigger) (entry : Option ConfigMapEntry)
      (c : CollectorId)
      → running (start_if_configured s now nec (event trigger entry p)).manager c
        ≡ (wanted_by p entry c || running nec.manager c)
  unfolding start_if_configured
  start_if-running now nec p trigger none c = refl
  start_if-running now nec p trigger (some cme) c =
      nec_start_collecting-running s now nec p cme.endpoints c

  -- When every ticker of a pod is in the pod's list, a node event leaves the tickers of other pods
  -- as they were. Of its own pod, afterwards: a deletion leaves no ticker; a modification leaves a
  -- ticker for exactly the endpoints of the new entry that can be collected from; an addition adds
  -- those to the tickers that ran.
  pub consume_node_event_lem :
      (now : Str) (nec : Consumer) (trigger : Trigger) (p : Pod) (entry : Option ConfigMapEntry)
      (c : CollectorId)
      → IsTracked nec
      → running (consume_node_event s now nec (event trigger entry p)).manager c ≡ (
          if str_eq c.pod_id (get_identifier p)
          then runs_after trigger p entry c (running nec.manager c)
          else running nec.manager c)
  unfolding consume_node_event
  consume_node_event_lem now nec trigger p entry c t =
      let stopped = nec_stop_collecting now nec p in
      ground (
        arith,
        start_if-running now nec p trigger entry c,
        start_if-running now stopped p trigger entry c,
        stop-running now nec p c t (get_identifier-ne p),
        wanted_by-pod p entry c,
        str_eq_iff c.pod_id (get_identifier p),
      )

  consume-IsTracked :
      (now : Str) (nec : Consumer) (trigger : Trigger) (p : Pod) (entry : Option ConfigMapEntry)
      → IsTracked nec
      → IsTracked (consume_node_event s now nec (event trigger entry p))
  unfolding consume_node_event
  consume-IsTracked now nec pod_added p entry t = start_if-IsTracked now nec p pod_added entry t
  consume-IsTracked now nec pod_modified p entry t =
      start_if-IsTracked now (nec_stop_collecting now nec p) p pod_modified entry
        (stop-IsTracked now nec p t)
  consume-IsTracked now nec pod_deleted p entry t = stop-IsTracked now nec p t
  consume-IsTracked now nec config_map_added p entry t =
      start_if-IsTracked now nec p config_map_added entry t
  consume-IsTracked now nec config_map_modified p entry t =
      start_if-IsTracked now (nec_stop_collecting now nec p) p config_map_modified entry
        (stop-IsTracked now nec p t)
  consume-IsTracked now nec config_map_deleted p entry t = stop-IsTracked now nec p t

  -- The loop over the events of the channel, each with the time at which it is taken.
  pub consume_node_events : Consumer → List (Str × NodeEvent) → Consumer
  consume_node_events nec [] = nec
  consume_node_events nec ((now, ne) ∷ events) =
      consume_node_events (consume_node_event s now nec ne) events

  consume_node_events-IsTracked :
      (nec : Consumer) (events : List (Str × NodeEvent))
      → IsTracked nec
      → IsTracked (consume_node_events nec events)
  unfolding consume_node_events
  consume_node_events-IsTracked nec [] t = t
  consume_node_events-IsTracked nec ((now, ne) ∷ events) t =
      consume_node_events-IsTracked (consume_node_event s now nec ne) events
        (consume-IsTracked now nec ne.trigger ne.pod ne.config_map_entry t)

  start_or_not-running :
      (now : Str) (m : Manager) (e : Endpoint) (c : CollectorId)
      → ((c : CollectorId) → running m c ≡ true → str_eq c.pod_id [] ≡ true)
      → let id = endpoint_collector_id e in
        running (start_or_not s.os s.collector now m e (create_metrics_collector id e [])) c ≡ true
        → str_eq c.pod_id [] ≡ true
  unfolding start_or_not create_metrics_collector endpoint_collector_id not_collecting Map.has
  start_or_not-running now m e c h r =
      let id = endpoint_collector_id e in
      let new : Collector = record { id = id; endpoint = e; environment = [] } in
      ground (
        arith,
        start_collecting_lem s.os s.collector now m new c,
        h c,
        str_eq_iff c.pod_id [],
        str_eq_iff [] c.pod_id,
      )

  start_endpoints-running :
      (now : Str) (m : Manager) (es : List Endpoint) (c : CollectorId)
      → ((c : CollectorId) → running m c ≡ true → str_eq c.pod_id [] ≡ true)
      → running (start_collecting_endpoints s.os s.collector now m es) c ≡ true
      → str_eq c.pod_id [] ≡ true
  unfolding start_collecting_endpoints
  start_endpoints-running now m [] c h r = h c r
  start_endpoints-running now m (e ∷ es) c h r =
      let id = endpoint_collector_id e in
      start_endpoints-running now
        (start_or_not s.os s.collector now m e (create_metrics_collector id e [])) es c
        (λ c'. start_or_not-running now m e c' h) r

  -- On a new manager that has started the endpoints of the configuration file, after any node
  -- events, every ticker of a pod is in the pod's list of collectors, which are all of that pod: a
  -- later event that stops the pod's collectors stops them all.
  pub consume_new-IsTracked :
      (status : StatusReport) (gauges : Gauges) (now : Str) (endpoints : List Endpoint)
      (events : List (Str × NodeEvent))
      → IsTracked (
          consume_node_events
            (new_node_event_consumer (
              start_collecting_endpoints s.os s.collector now
                (new_metrics_collector_manager s.collector status gauges)
                endpoints))
            events)
  unfolding new_node_event_consumer Map.has Map.get new_metrics_collector_manager
  consume_new-IsTracked status gauges now endpoints events =
      let m = new_metrics_collector_manager s.collector status gauges in
      let started = start_collecting_endpoints s.os s.collector now m endpoints in
      consume_node_events-IsTracked (new_node_event_consumer started) events (record {
        every = λ c. ground (arith, start_endpoints-running now m endpoints c (λ c' r. cc));
        keyed = λ k ids c h a. cc;
      })
