-- ===== src/Manager/Tick.antt =====
-- collector/manager/metrics_collector_manager.go, the goroutine of StartCollecting: one tick, from
-- the collector's result to what goes to the channels of metrics and of metric definitions.
use hawkular_openshift_agent.Base.{
  Str, string_eq, ℕ, ℤ, ◌+◌, leb, Bool, Option, none, some, List, [], ◌∷◌, length, if◌then◌else◌,
  arith,
}
use hawkular_openshift_agent.Base.Map
use hawkular_openshift_agent.Base.Map.{Map}
use hawkular_openshift_agent.Collector.{
  CollectorId, id_key, MetricDefinition, MetricDetails, MetricHeader, MonitoredMetric,
}
use hawkular_openshift_agent.Status.{set_endpoint_message}
use hawkular_openshift_agent.Tracker.{get_counts}
use hawkular_openshift_agent.Tracker.Invariant.{add-IsValid}
use hawkular_openshift_agent.Tracker.Endpoints.{has_endpoint-add}
use hawkular_openshift_agent.Manager.{Manager, Platform, CollectorConfig, set_gauges}
use hawkular_openshift_agent.Manager.Running.{IsRunning}
use hawkular_openshift_agent.Manager.Collect.{Ticking, Gathered, gather, combined, sort_metrics}
use hawkular_openshift_agent.Manager.Definitions.{Defining, create_metric_definition}

-- The messages of the status report, which tell times and numbers of metrics.
pub record Texts : Type 0 where
  pub failed : Str
  pub no_details : Str
  pub over_limit : ℕ → ℕ → Str
  pub fine : ℕ → Str

-- What a tick leaves: the manager, metricDefinitionsDeclared, and what was sent to the channels.
-- Nothing is sent after a failed collection.
pub record Ticked (V : Type 0) : Type 0 where
  pub manager : Manager
  pub declared : Map Str MonitoredMetric
  pub sent : Option (List (MetricHeader V))
  pub definitions : List MetricDefinition

-- metricDefinitionsDeclared[k] = v for the definitions needed.
declare : Map Str MonitoredMetric → Map Str MonitoredMetric → Map Str MonitoredMetric
declare declared [] = declared
declare declared ((k, v) ∷ needed) = declare (Map.put declared k v) needed

module _ {V : Type 0} (t : Ticking) (c : Defining) (texts : Texts)
    (collect_details : List Str → Option (List MetricDetails)) where
  after_gather :
      CollectorId
      → Map Str MonitoredMetric
      → Manager
      → ℕ
      → Gathered V
      → List MetricDefinition × Bool
      → Ticked V
  unfolding declare
  after_gather id declared m count g (definitions, complete) =
      let message =
        if leb (length g.overflow) 0
        then texts.fine count
        else texts.over_limit count (length g.overflow) in
      let told = set_endpoint_message m.status id message in
      let gauges = set_gauges (get_counts g.tracker) m.gauges in
      record {
        manager = record m {
          tracker = g.tracker;
          status = if complete then told else set_endpoint_message told id texts.no_details;
          gauges = record gauges {
            data_points_collected = gauges.data_points_collected + length g.sent;
          };
        };
        declared = if complete then declare declared g.needed else declared;
        sent = some g.sent;
        definitions = definitions;
      }

  -- One tick, with the metrics that CollectMetrics returns, or none after an error.
  unfoldable pub tick :
      CollectorId → Map Str MonitoredMetric → Manager → Option (List (MetricHeader V)) → Ticked V
  unfolding after_gather
  tick id declared m none = record {
    manager = record m { status = set_endpoint_message m.status id texts.failed };
    declared = declared;
    sent = none;
    definitions = [];
  }
  tick id declared m (some collected) =
      let g = gather t declared m.tracker id collected in
      let st =
        sort_metrics t declared collected
          (record { collected = []; all_split = []; needed = [] }) in
      after_gather id declared m (length (combined t declared st)) g
        (create_metric_definition c collect_details g.needed)

  -- A tick, failed or not, keeps what holds of a running manager: no pod is over its limit, the
  -- tracker knows every endpoint that has a ticker, and no ticker ticks faster than the minimum.
  pub tick-IsRunning :
      (os : Platform) (conf : CollectorConfig) (minimum : ℤ) (id : CollectorId)
      (declared : Map Str MonitoredMetric) (m : Manager)
      (collected : Option (List (MetricHeader V)))
      → IsRunning os conf minimum m
      → IsRunning os conf minimum (tick id declared m collected).manager
  unfolding tick gather
  tick-IsRunning os conf minimum id declared m none v = record {
    tracker = v.tracker;
    known = v.known;
    slow = v.slow;
  }
  tick-IsRunning os conf minimum id declared m (some collected) v =
      let st =
        sort_metrics t declared collected
          (record { collected = []; all_split = []; needed = [] }) in
      let all = combined t declared st in
      record {
        tracker = add-IsValid m.tracker id all v.tracker;
        known = λ i h. ground (arith, v.known i h, has_endpoint-add m.tracker id i all);
        slow = v.slow;
      }
