-- ===== src/Manager/Collect/Tests.antt =====
-- Collections and definitions at concrete metrics.
use hawkular_openshift_agent.Base.{
  string_eq, codes, string_eq, str_eq, ℕ, pos, ◌≡◌, ◌≢◌, ◌↔◌, refl, true, false, none, List, [],
  ◌∷◌, In, arith, contains, starts_with, drop_prefix, keep,
}
use hawkular_openshift_agent.Base.Map
use hawkular_openshift_agent.Base.Sort.{keys, sort_strings}
use hawkular_openshift_agent.Base.Map.{Map, IsMap}
use hawkular_openshift_agent.Collector.{CollectorId, MetricHeader, MonitoredMetric}
use hawkular_openshift_agent.Tracker.{
  MetricsTracker, new_metrics_tracker, scan, add_each, add_one, add_metrics_from_collector,
}
use hawkular_openshift_agent.Tracker.Invariant.{IsValid-new}
use hawkular_openshift_agent.Tracker.Overflow.{tracked}
use hawkular_openshift_agent.Manager.Collect.{
  Ticking, gather, combined, sort_metrics, sort_one, sort_known, need, monitored_metric, full_id,
  default_split, keys_map, put_keys, split_each, delete_all, is_doomed,
}
use hawkular_openshift_agent.Manager.Collect.Sent.{sorted, gather_sent, gather_needed}
use hawkular_openshift_agent.Config.Expand.{expand, expand_from, at_token}
use hawkular_openshift_agent.Manager.Definitions.{
  Defining, all_metric_tags, global_tags_expanded, metric_tags_expanded, endpoint_tags_expanded,
}
use hawkular_openshift_agent.Base.{some}
use hawkular_openshift_agent.Manager.Definitions.{create_metric_definition}
use hawkular_openshift_agent.Manager.Definitions.Isolated.{tag_values, create-isolated}
use hawkular_openshift_agent.Config.Tags.Laws.{or_other}
use hawkular_openshift_agent.Manager.Definitions.Precedence.{all_metric_tags-precedence}

abbrev ticking : Ticking
ticking = record { os = λ s. none; env = []; metric_id_prefix = codes "p/"; metrics = [] }

abbrev web : CollectorId
web = record { pod_id = codes "p"; endpoint_id = codes "web" }

-- Two time series of one metric.
abbrev requests : MetricHeader ℕ
requests = record {
  tenant = codes "t";
  type = codes "counter";
  id = codes "requests";
  samples =
      record { timestamp = 1; value = 5; tags = (codes "verb", codes "GET") ∷ [] }
      ∷ record { timestamp = 1; value = 6; tags = (codes "verb", codes "PUT") ∷ [] }
      ∷ [];
}

abbrev heap : MetricHeader ℕ
heap = record {
  tenant = codes "t";
  type = codes "gauge";
  id = codes "heap";
  samples = record { timestamp = 1; value = 7; tags = [] } ∷ [];
}

abbrev small : MetricsTracker
small = new_metrics_tracker (pos 2)

abbrev collected : List (MetricHeader ℕ)
collected = requests ∷ heap ∷ []

gather_sent_example :
    In (record heap { id = codes "p/heap" }) (gather ticking [] small web collected).sent ↔ (
      In (record heap { id = codes "p/heap" }) (combined ticking [] (sorted ticking [] collected))
      × (tracked (gather ticking [] small web collected).tracker web (codes "p/heap") ≡ true))
gather_sent_example =
    gather_sent ticking [] small web collected (record heap { id = codes "p/heap" })
      (IsValid-new (pos 2))

abbrev one : List (MetricHeader ℕ)
one = heap ∷ []

heap_needed : Map.has (gather ticking [] small web one).needed (codes "p/heap") ≡ true
unfolding gather str_eq Map.has Map.get Map.put Map.delete sort_metrics sort_one sort_known need
    monitored_metric full_id expand expand_from at_token default_split contains starts_with
    drop_prefix keys_map put_keys sort_strings keys split_each combined keep
    add_metrics_from_collector new_metrics_tracker scan add_each add_one delete_all is_doomed
heap_needed = refl

heap-ne : codes "p/heap" ≢ []
heap-ne e = ground arith

gather_needed_example :
    (m : MetricHeader ℕ) × In m (gather ticking [] small web one).sent
    × (m.id ≡ codes "p/heap")
    × (tracked (gather ticking [] small web one).tracker web (codes "p/heap") ≡ true)
gather_needed_example =
    gather_needed ticking [] small web one (codes "p/heap") (IsValid-new (pos 2)) heap-ne
      heap_needed

abbrev defining : Defining
defining = record {
  os = λ s. none;
  global_tags = (codes "env", codes "prod") ∷ [];
  additional_env = [];
  endpoint = record {
    type = codes "json";
    enabled = [];
    url = codes "http://h";
    skip_certificate_validation = false;
    credentials = record { username = []; password = []; token = [] };
    collection_interval = [];
    tenant = codes "t";
    tags = (codes "env", codes "test") ∷ (codes "team", codes "a") ∷ [];
    metrics = [];
  };
}

-- A metric with a token that the agent's environment could give.
abbrev curious : MonitoredMetric
curious = record {
  id = codes "heap";
  name = codes "heap";
  type = [];
  units = codes "B";
  description = codes "of ${TOKEN}";
  tags = (codes "team", codes "${TOKEN}") ∷ [];
}

no_team : Map.get defining.global_tags (codes "team") ≡ none
unfolding Map.get str_eq
no_team = refl

create-isolated_example :
    tag_values
      (codes "team")
      (create_metric_definition defining (λ names. none) ((codes "p/heap", curious) ∷ [])).0
    ≡ tag_values
        (codes "team")
        (create_metric_definition
          (record defining { os = λ s. some (codes "secret") })
          (λ names. none)
          ((codes "p/heap", curious) ∷ [])).0
create-isolated_example =
    create-isolated defining (λ s. some (codes "secret")) (codes "team") no_team (λ names. none)
      ((codes "p/heap", curious) ∷ [])

abbrev metric : MonitoredMetric
metric = record {
  id = codes "heap";
  name = codes "heap";
  type = [];
  units = codes "B";
  description = [];
  tags = (codes "team", codes "b") ∷ [];
}

all_metric_tags-precedence_example :
    Map.get (all_metric_tags defining [] metric.tags (codes "heap") (codes "B")) (codes "team")
    ≡ or_other (Map.get (global_tags_expanded defining []) (codes "team")) (
        or_other
          (Map.get
            (metric_tags_expanded defining [] metric.tags (codes "heap") (codes "B"))
            (codes "team"))
          (Map.get (endpoint_tags_expanded defining []) (codes "team")))
unfolding Map.get str_eq
all_metric_tags-precedence_example =
    all_metric_tags-precedence defining [] metric.tags (codes "heap") (codes "B") (codes "team")
      (refl, (refl, tt)) (refl, tt) (refl, tt)
