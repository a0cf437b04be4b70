-- ===== src/Prometheus.antt =====
-- collector/impl/prometheus_metrics_collector.go. The families that an endpoint offers, of the
-- Prometheus client model, are an argument: what prometheus.Scrape gives, or none after an error of
-- it or of the HTTP client.
pub mod Collected
mod Tests
use hawkular_openshift_agent.Base.{
  Str, String, codes, str_eq, str_eq_iff, str_eq_refl, string_eq, ℕ, zero, suc, ◌+◌, ◌-◌, ◌≤◌, ◌<◌,
  ◌==◌, ==_iff, ltb, leb, ℤ, pos, Bool, true, false, not, ◌&&◌, ◌||◌, ◌≡◌, ◌≢◌, ◌↔◌, ◌⊎◌, inl, inr,
  refl, sym, ap, ◌∙◌, Option, Option-cases, none, some, is_some, List, [], ◌∷◌, ◌++◌, append_assoc,
  append-nil, map, length, All, All-append, In, arith, Bool-cases, if◌then◌else◌, Result, ok, err,
  ◌>>=◌,
}
use hawkular_openshift_agent.Base.Map
use hawkular_openshift_agent.Base.Map.{Map}
use hawkular_openshift_agent.Config.Tags.{append_tags}
use hawkular_openshift_agent.Collector.{
  Tags, Datapoint, MetricHeader, MonitoredMetric, MetricDetails, Endpoint,
}

pub data FamilyType : Type 0 where
  gauge counter summary histogram untyped : FamilyType

-- A metric of a family: its labels, and what GetGauge and GetCounter read of it.
pub record PromMetric (V : Type 0) : Type 0 where
  pub labels : List (Str × Str)
  pub gauge_value : V
  pub counter_value : V

pub record MetricFamily (V : Type 0) : Type 0 where
  pub name : Str
  pub help : Str
  pub type : FamilyType
  pub metrics : List (PromMetric V)

-- hmetrics.Gauge and hmetrics.Counter
abbrev pub gauge_type : Str
gauge_type = codes "gauge"

abbrev pub counter_type : Str
counter_type = codes "counter"

-- metricNameMap
unfoldable pub put_names : Map Str Bool → List MonitoredMetric → Map Str Bool
put_names names [] = names
put_names names (m ∷ ms) = put_names (Map.put names m.name true) ms

unfoldable pub metric_name_map : Endpoint → Map Str Bool
metric_name_map e = put_names [] e.metrics

-- prepareTagsMap
unfoldable pub prepare_tags_map : List (Str × Str) → Tags
prepare_tags_map labels = append_tags [] labels

-- `len(names) > 0 && names[name] == false`
unfoldable pub is_skipped : Map Str Bool → Str → Bool
is_skipped [] name = false
is_skipped (n ∷ names) name = elim (Map.get (n ∷ names) name) [ none ↦ true | some b ↦ not b ]

module _ {V : Type 0} (e : Endpoint) (now : ℕ) where
  unfoldable pub gauge_points : List (PromMetric V) → List (Datapoint V)
  gauge_points [] = []
  gauge_points (m ∷ ms) =
      record { timestamp = now; value = m.gauge_value; tags = prepare_tags_map m.labels }
      ∷ gauge_points ms

  unfoldable pub convert_gauge : MetricFamily V → Str → MetricHeader V
  convert_gauge family id = record {
    type = gauge_type;
    id = id;
    tenant = e.tenant;
    samples = gauge_points family.metrics;
  }

  unfoldable pub counter_points : List (PromMetric V) → List (Datapoint V)
  counter_points [] = []
  counter_points (m ∷ ms) =
      record { timestamp = now; value = m.counter_value; tags = prepare_tags_map m.labels }
      ∷ counter_points ms

  unfoldable pub convert_counter : MetricFamily V → Str → MetricHeader V
  convert_counter family id = record {
    type = counter_type;
    id = id;
    tenant = e.tenant;
    samples = counter_points family.metrics;
  }

  -- What the switch adds for a family.
  unfoldable pub convert : MetricFamily V → List (MetricHeader V)
  convert family = elim family.type [
    | gauge ↦ convert_gauge family family.name ∷ []
    | counter ↦ convert_counter family family.name ∷ []
    | summary ↦ []
    | histogram ↦ []
    | untyped ↦ []
  ]

  unfoldable pub collect_families : List (MetricFamily V) → List (MetricHeader V)
  collect_families [] = []
  collect_families (family ∷ families) =
      let rest = collect_families families in
      if is_skipped (metric_name_map e) family.name then rest else convert family ++ rest

  unfoldable pub collect_metrics : Option (List (MetricFamily V)) → Option (List (MetricHeader V))
  collect_metrics none = none
  collect_metrics (some families) = some (collect_families families)

-- The loop that sets doIt.
unfoldable pub is_looked_for : List Str → Str → Bool
is_looked_for [] name = false
is_looked_for (n ∷ names) name = str_eq n name || is_looked_for names name

module _ {V : Type 0} where
  unfoldable pub details_of : MetricFamily V → List MetricDetails
  details_of family = elim family.type [
    | gauge ↦
        record { name = family.name; description = family.help; metric_type = gauge_type } ∷ []
    | counter ↦
        record { name = family.name; description = family.help; metric_type = counter_type } ∷ []
    | summary ↦ []
    | histogram ↦ []
    | untyped ↦ []
  ]

  unfoldable pub detail_families : List Str → List (MetricFamily V) → List MetricDetails
  detail_families names [] = []
  detail_families names (family ∷ families) =
      let rest = detail_families names families in
      if is_looked_for names family.name then details_of family ++ rest else rest

  unfoldable pub collect_metric_details :
      List Str → Option (List (MetricFamily V)) → Option (List MetricDetails)
  collect_metric_details [] families = some []
  collect_metric_details (name ∷ names) none = none
  collect_metric_details (name ∷ names) (some families) =
      some (detail_families (name ∷ names) families)
