-- ===== src/Manager/Tests.antt =====
-- The manager's theorems at concrete inputs.
use hawkular_openshift_agent.Base.{
  ℕ, Str, List, Option, codes, str_eq, pos, int_lt, ◌≡◌, refl, true, false, none, some, [], ◌∷◌,
  if◌then◌else◌,
}
use hawkular_openshift_agent.Base.Map
use hawkular_openshift_agent.Collector.{id_key, MetricHeader, MetricDetails}
use hawkular_openshift_agent.Collector.Validation.{jolokia, is_enabled}
use hawkular_openshift_agent.Status.{StatusReport, init_status_report}
use hawkular_openshift_agent.Tracker.Endpoints.{has_endpoint}
use hawkular_openshift_agent.Manager.{
  Manager, Platform, CollectorConfig, Collector, Gauges, collection_interval, five_minutes,
  start_collecting, new_metrics_collector_manager,
}
use hawkular_openshift_agent.Manager.Interval.{interval-ge-minimum, interval-fallback}
use hawkular_openshift_agent.Manager.Collect.{Ticking}
use hawkular_openshift_agent.Manager.Definitions.{Defining}
use hawkular_openshift_agent.Manager.Tick.{Texts, tick, tick-IsRunning}
use hawkular_openshift_agent.Manager.Running.{
  start, stop, run, IsRunning, start_collecting_lem, run_new-IsRunning,
}

abbrev os : Platform
os = record {
  parse_duration = λ s.
      if str_eq s (codes "10s")
      then some (pos 10_000_000_000)
      else if str_eq s (codes "1s")
      then some (pos 1_000_000_000)
      else none;
  show_duration = λ d. codes "d";
  show_count = λ n. codes "n";
  lookup_env = λ s. none;
}

abbrev conf : CollectorConfig
conf = record {
  max_metrics_per_pod = pos 50;
  minimum_collection_interval = codes "10s";
  default_collection_interval = codes "5m";
  tags = [];
  pod_label_tags_prefix = [];
  metric_id_prefix = [];
}

abbrev web : Collector
web = record {
  id = record { pod_id = codes "p"; endpoint_id = codes "web" };
  endpoint = record {
    type = jolokia;
    enabled = codes "true";
    url = codes "http://h/jolokia";
    skip_certificate_validation = false;
    credentials = record { username = []; password = []; token = [] };
    collection_interval = codes "1s";
    tenant = [];
    tags = [];
    metrics = [];
  };
  environment = [];
}

abbrev status : StatusReport
status = init_status_report (codes "HOSA") [] [] 10

abbrev gauges : Gauges
gauges = record {
  data_points_collected = 0;
  monitored_pods = 0;
  monitored_endpoints = 0;
  monitored_metrics = 0;
}

abbrev fresh : Manager
fresh = new_metrics_collector_manager conf status gauges

interval-ge-minimum_example :
    int_lt (collection_interval os conf (codes "1s")) (pos 10_000_000_000) ≡ false
unfolding str_eq
interval-ge-minimum_example = interval-ge-minimum os conf (codes "1s") (pos 10_000_000_000) refl

interval-fallback_example : collection_interval os conf (codes "soon") ≡ five_minutes
unfolding str_eq
interval-fallback_example =
    interval-fallback os conf (codes "soon") (pos 10_000_000_000) (cc) refl refl

start_collecting_example :
    (Map.get (start_collecting os conf (codes "t") fresh web).tickers web.id
      ≡ some (collection_interval os conf (codes "1s")))
    × (has_endpoint (start_collecting os conf (codes "t") fresh web).tracker web.id ≡ true)
unfolding str_eq is_enabled
start_collecting_example = start_collecting_lem os conf (codes "t") fresh web web.id

run_new-IsRunning_example :
    IsRunning os conf
      (pos 10_000_000_000)
      (run os conf fresh (start (codes "t") web ∷ stop (codes "u") web.id ∷ []))
unfolding str_eq
run_new-IsRunning_example =
    run_new-IsRunning os conf (pos 10_000_000_000) refl status gauges
      (start (codes "t") web ∷ stop (codes "u") web.id ∷ [])

abbrev heap : MetricHeader ℕ
heap = record {
  tenant = codes "t";
  type = codes "gauge";
  id = codes "heap";
  samples = record { timestamp = 1; value = 7; tags = [] } ∷ [];
}

abbrev ticking : Ticking
ticking = record { os = λ s. none; env = []; metric_id_prefix = codes "p/"; metrics = [] }

abbrev defining : Defining
defining = record { os = λ s. none; global_tags = []; additional_env = []; endpoint = web.endpoint }

abbrev texts : Texts
texts = record {
  failed = codes "failed";
  no_details = codes "no details";
  over_limit = λ n k. codes "limit";
  fine = λ n. codes "OK";
}

abbrev no_details : List Str → Option (List MetricDetails)
no_details names = none

abbrev started : Manager
started = run os conf fresh (start (codes "t") web ∷ [])

tick-IsRunning_example :
    IsRunning os conf
      (pos 10_000_000_000)
      (tick ticking defining texts no_details web.id [] started (some (heap ∷ []))).manager
unfolding str_eq
tick-IsRunning_example =
    tick-IsRunning ticking defining texts no_details os conf (pos 10_000_000_000) web.id [] started
      (some (heap ∷ []))
      (run_new-IsRunning os conf (pos 10_000_000_000) refl status gauges
        (start (codes "t") web ∷ []))
