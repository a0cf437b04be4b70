-- ===== src/Json/Collection.antt =====
-- collector/impl/json_metrics_collector.go: the goroutine that takes the metrics from the channel,
-- each combination of an id and tags once, and CollectMetrics.
use hawkular_openshift_agent.Base.{
  Str, string_eq, ℕ, Bool, true, Option, none, some, List, [], ◌∷◌, ◌++◌, length, if◌then◌else◌,
  Result, ok, err, replicate, or_else,
}
use hawkular_openshift_agent.Base.Map
use hawkular_openshift_agent.Base.Map.{Map}
use hawkular_openshift_agent.Base.Sort.{sort_strings, keys}
use hawkular_openshift_agent.Values.{Floats, Fields}
use hawkular_openshift_agent.Collector.{Tags, Datapoint, MetricHeader, Endpoint, MetricDetails}
use hawkular_openshift_agent.Json.{Panic, walk}

write_tags : Tags → List Str → Str
write_tags tags [] = []
write_tags tags (k ∷ ks) = k ++ or_else (Map.get tags k) [] ++ write_tags tags ks

-- The keys of tags as they are collected: behind as many empty ones, which `make` has put there.
tag_keys : Tags → List Str
tag_keys tags = replicate (length tags) [] ++ keys tags

unfoldable pub unique_key : {V : Type 0} → Str → Datapoint V → Str
unfolding write_tags tag_keys
unique_key id d = elim d.tags [
  | [] ↦ id
  | t ∷ tags ↦ id ++ write_tags (t ∷ tags) (sort_strings (tag_keys (t ∷ tags)))
]

-- metrics and metricExistenceMap
pub record Collected (V : Type 0) : Type 0 where
  pub metrics : List (MetricHeader V)
  pub existing : Map Str Bool

module _ {V : Type 0} where
  unfoldable pub add_new : Collected V → MetricHeader V → Str → Collected V
  add_new st m key =
      if Map.has st.existing key
      then st
      else record { metrics = st.metrics ++ m ∷ []; existing = Map.put st.existing key true }

  -- What the goroutine does with a metric.
  unfoldable pub take_metric : Collected V → MetricHeader V → Collected V
  take_metric st m = elim m.samples [ [] ↦ st | d ∷ ds ↦ add_new st m (unique_key m.id d) ]

  unfoldable pub take_metrics : Collected V → List (MetricHeader V) → Collected V
  take_metrics st [] = st
  take_metrics st (m ∷ ms) = take_metrics (take_metric st m) ms

  unfoldable pub drop_last : List (MetricHeader V) → List (MetricHeader V)
  drop_last [] = []
  drop_last (m ∷ []) = []
  drop_last (m ∷ n ∷ ms) = m ∷ drop_last (n ∷ ms)

  -- What stands in `metrics` when CollectMetrics returns. It does not wait for the goroutine, which
  -- may be behind by the metric that it has received last.
  unfoldable pub returned : Bool → List (MetricHeader V) → List (MetricHeader V)
  returned behind sent =
      let st =
        take_metrics (record { metrics = []; existing = [] })
          (if behind then drop_last sent else sent) in
      st.metrics

-- An error of the HTTP client or the scraping, or a panic.
pub data CollectError : Type 0 where
  not_scraped : CollectError
  panicked : Panic → CollectError

module _ (f : Floats) (print : ℕ → Str) (e : Endpoint) (now : ℕ) where
  -- CollectMetrics, for the data that were scraped.
  unfoldable pub collect_metrics :
      Bool → Option (Fields f.Float) → Result CollectError (List (MetricHeader f.Float))
  collect_metrics behind none = err not_scraped
  collect_metrics behind (some json_data) = elim (walk f print e now json_data) [
    | ok sent ↦ ok (returned behind sent)
    | err p ↦ err (panicked p)
  ]

-- CollectMetricDetails knows nothing of the metrics.
unfoldable pub collect_metric_details : List Str → List MetricDetails
collect_metric_details names = []
