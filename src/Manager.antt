-- ===== src/Manager.antt =====
-- collector/manager/metrics_collector_manager.go: which collectors run, and what happens to the
-- tracker, the status report and the agent's own gauges when one starts or stops. Each operation
-- takes the locks it needs and is one step here. A running ticker is its interval; what happens at
-- a tick is in the module Collect.
pub mod Interval
pub mod Running
pub mod Creator
pub mod Collect
pub mod Definitions
pub mod Tick
mod Tests
use hawkular_openshift_agent.Base.{
  Str, codes, str_eq, string_eq, ℕ, ℤ, pos, int_lt, Bool, true, false, not, Option, or_else, none,
  some, List, [], ◌∷◌, ◌++◌, if◌then◌else◌,
}
use hawkular_openshift_agent.Base.Map
use hawkular_openshift_agent.Base.Map.{Map}
pub use hawkular_openshift_agent.Config.Settings.{CollectorConfig}
use hawkular_openshift_agent.Collector.{
  CollectorId, id_key, Endpoint, MonitoredMetric, MetricHeader, Tags,
}
use hawkular_openshift_agent.Collector.Validation.{is_enabled}
use hawkular_openshift_agent.Tracker.{
  MetricsTracker, new_metrics_tracker, add_metrics_from_collector, get_counts,
  purge_metrics_for_collector_endpoint, purge_all_metrics,
}
use hawkular_openshift_agent.Status.{
  StatusReport, set_endpoint_message, add_log_message, delete_all_endpoint_messages,
}

-- What the manager takes from Go's library and from its surroundings: time.ParseDuration and the
-- text of a duration (signed nanoseconds), the decimal text of a count, and os.LookupEnv.
pub record Platform : Type 0 where
  pub parse_duration : Str → Option ℤ
  pub show_duration : ℤ → Str
  pub show_count : ℕ → Str
  pub lookup_env : Str → Option Str

-- The agent's own metrics.
pub record Gauges : Type 0 where
  pub data_points_collected : ℕ
  pub monitored_pods : ℕ
  pub monitored_endpoints : ℕ
  pub monitored_metrics : ℕ

pub record Manager : Type 0 where
  pub tickers : Map CollectorId ℤ
  pub tracker : MetricsTracker
  pub status : StatusReport
  pub gauges : Gauges

-- The part of the interface MetricsCollector that starting and stopping read.
pub record Collector : Type 0 where
  pub id : CollectorId
  pub endpoint : Endpoint
  pub environment : Tags

unfoldable pub new_metrics_collector_manager : CollectorConfig → StatusReport → Gauges → Manager
new_metrics_collector_manager conf status gauges = record {
  tickers = [];
  tracker = new_metrics_tracker conf.max_metrics_per_pod;
  status = status;
  gauges = gauges;
}

abbrev pub five_minutes : ℤ
five_minutes = pos 300_000_000_000

-- The interval of a collector whose endpoint has this Collection_Interval.
unfoldable pub collection_interval : Platform → CollectorConfig → Str → ℤ
collection_interval os conf interval =
    let text = if str_eq interval [] then conf.default_collection_interval else interval in
    let parsed =
      or_else (os.parse_duration text)
        (or_else (os.parse_duration conf.default_collection_interval) five_minutes) in
    elim (os.parse_duration conf.minimum_collection_interval) [
      | some minimum ↦ if int_lt parsed minimum then minimum else parsed
      | none ↦ parsed
    ]

-- MonitoredPods.Set, MonitoredEndpoints.Set and MonitoredMetrics.Set.
unfoldable pub set_gauges : ℕ × ℕ × ℕ → Gauges → Gauges
set_gauges (pc, ec, mc) g = record g {
  monitored_pods = pc;
  monitored_endpoints = ec;
  monitored_metrics = mc;
}

stop_ticker : Str → CollectorId → Option ℤ → Manager → Manager
stop_ticker now id none m = m
stop_ticker now id (some ticker) m = record m {
  status = add_log_message now m.status (codes "STOP collection: " ++ id.endpoint_id);
  tickers = Map.delete m.tickers id;
}

unfoldable pub stop_collecting : Str → Manager → CollectorId → Manager
unfolding stop_ticker
stop_collecting now m id =
    let stopped = stop_ticker now id (Map.get m.tickers id) m in
    let tracker = purge_metrics_for_collector_endpoint m.tracker id in
    record stopped {
      status = set_endpoint_message stopped.status id [];
      tracker = tracker;
      gauges = set_gauges (get_counts tracker) m.gauges;
    }

unfoldable pub stop_collecting_all : Str → Manager → Manager
stop_collecting_all now m = record {
  tickers = [];
  status =
      delete_all_endpoint_messages
        (add_log_message now m.status (codes "STOP collecting all metrics from all endpoints"));
  tracker = purge_all_metrics m.tracker;
  gauges = set_gauges (0, 0, 0) m.gauges;
}

-- AddMetricsFromCollector(id, nil): the pod and the endpoint are tracked, with no new metric.
unfoldable pub track : MetricsTracker → CollectorId → MetricsTracker
track mt id = (add_metrics_from_collector {V = Unit {0}} mt id []).0

unfoldable pub not_collecting : Manager → CollectorId → Str → Manager
not_collecting m id reason = record m {
  tracker = track m.tracker id;
  status = set_endpoint_message m.status id reason;
}

disabled_message : CollectorId → Str
disabled_message id =
    codes "Will not collect metrics from [" ++ (id.endpoint_id ++ codes "] - it has been disabled.")

start_message : CollectorId → Str → Str
start_message id interval =
    codes "START collection: "
    ++ (id.endpoint_id ++ (codes " (interval=" ++ (interval ++ codes ")")))

-- The interval is positive, as validateConfig makes sure of a minimum: for another one
-- time.NewTicker panics, where the definition keeps a ticker.
unfoldable pub start_collecting : Platform → CollectorConfig → Str → Manager → Collector → Manager
unfolding start_message disabled_message
start_collecting os conf now m c =
    let stopped = stop_collecting now m c.id in
    let tracked = record stopped { tracker = track stopped.tracker c.id } in
    let interval = collection_interval os conf c.endpoint.collection_interval in
    let logged =
      add_log_message now tracked.status (start_message c.id (os.show_duration interval)) in
    if not (is_enabled c.endpoint)
    then record tracked {
      status = set_endpoint_message tracked.status c.id (disabled_message c.id);
    }
    else record tracked {
      status = set_endpoint_message logged c.id (codes "STARTING");
      tickers = Map.put tracked.tickers c.id interval;
    }
