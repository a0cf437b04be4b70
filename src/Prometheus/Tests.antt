-- ===== src/Prometheus/Tests.antt =====
-- Two families, of which one is monitored.
use hawkular_openshift_agent.Base.{
  keep, Str, codes, str_eq, string_eq, ℕ, false, ◌≡◌, refl, some, List, [], ◌∷◌,
}
use hawkular_openshift_agent.Base.Map
use mathlib.Core.Option
use hawkular_openshift_agent.Base.Map.{Map}
use hawkular_openshift_agent.Collector.{Endpoint}
use hawkular_openshift_agent.Prometheus.{
  FamilyType, gauge, counter, summary, MetricFamily, put_names, metric_name_map, is_skipped,
  convert_counter, convert, collect_families, collect_metrics, collect_metric_details,
}
use hawkular_openshift_agent.Prometheus.Collected.{
  ids, convert_all, collect_families-monitored, collected_types, detailed_types, details-collected,
  is_monitored,
}

abbrev family : Str → FamilyType → MetricFamily ℕ
family name type = record {
  name = name;
  help = codes "help";
  type = type;
  metrics =
      record { labels = (codes "code", codes "200") ∷ []; gauge_value = 3; counter_value = 5 } ∷ [];
}

abbrev families : List (MetricFamily ℕ)
families =
    family (codes "up") gauge
    ∷ family (codes "requests") counter
    ∷ family (codes "latency") summary
    ∷ []

abbrev only_requests : Endpoint
only_requests = record {
  type = codes "prometheus";
  enabled = codes "true";
  url = codes "http://pod/";
  skip_certificate_validation = false;
  credentials = record { username = []; password = []; token = [] };
  collection_interval = codes "30s";
  tenant = codes "t";
  tags = [];
  metrics =
      record {
        id = [];
        name = codes "requests";
        type = [];
        units = [];
        description = [];
        tags = [];
      }
      ∷ [];
}

collected_test :
    collected_types (collect_families only_requests 7 families)
    ≡ (codes "requests", codes "counter") ∷ []
unfolding collect_families is_skipped metric_name_map put_names convert convert_counter Map.get
    Map.put str_eq
collected_test = refl

collect_families-monitored_example :
    collect_families only_requests 7 families
    ≡ convert_all only_requests 7 (keep (λ f. is_monitored only_requests.metrics f.name) families)
collect_families-monitored_example = collect_families-monitored only_requests 7 families

details-collected_example :
    Option.map detailed_types
      (collect_metric_details (ids (collect_families only_requests 7 families)) (some families))
    ≡ Option.map collected_types (collect_metrics only_requests 7 (some families))
details-collected_example = details-collected only_requests 7 families
