-- ===== src/Manager/Collect.antt =====
-- collector/manager/metrics_collector_manager.go, the goroutine of StartCollecting: what is done
-- with the metrics that one collection gathers, up to the metrics that are sent to the storage and
-- the metric definitions that are still needed.
pub mod Sent
mod Tests
use hawkular_openshift_agent.Base.{
  Str, codes, str_eq, str_leb, string_eq, contains, Bool, true, false, not, ◌&&◌, Option, none,
  some, List, [], ◌∷◌, ◌++◌, keep, if◌then◌else◌,
}
use hawkular_openshift_agent.Base.Map
use hawkular_openshift_agent.Base.Map.{Map}
use hawkular_openshift_agent.Base.Sort.{keys, sort_strings}
use hawkular_openshift_agent.Collector.{CollectorId, Datapoint, MetricHeader, MonitoredMetric, Tags}
use hawkular_openshift_agent.Collector.Validation.{clone}
use hawkular_openshift_agent.Config.Expand.{MappingFuncConfig, mapping_func, expand}
use hawkular_openshift_agent.Tracker.{MetricsTracker, add_metrics_from_collector}

-- The names of the endpoint's metrics, with their tokens expanded before the first tick.
unfoldable pub expand_names :
    (Str → Option Str) → Tags → List MonitoredMetric → List MonitoredMetric
expand_names os env [] = []
expand_names os env (mm ∷ mms) =
    let config : MappingFuncConfig = record {
      env = env;
      use_os_env = false;
      do_not_expand_if_not_found = true;
    } in
    record mm { name = expand mm.name (mapping_func os config) } ∷ expand_names os env mms

-- monitoredMetricsByNameMap
unfoldable pub by_name : Map Str MonitoredMetric → List MonitoredMetric → Map Str MonitoredMetric
by_name m [] = m
by_name m (mm ∷ mms) = by_name (Map.put m mm.name mm) mms

unfoldable pub put_keys : Map Str Bool → Tags → Map Str Bool
put_keys m [] = m
put_keys m ((k, v) ∷ tags) = put_keys (Map.put m k true) tags

-- keysString: `k=${k}` for each key, with commas between them.
unfoldable pub keys_string : List Str → Str
keys_string [] = []
keys_string (k ∷ []) = k ++ (codes "=${" ++ (k ++ codes "}"))
keys_string (k ∷ l ∷ ks) = k ++ (codes "=${" ++ (k ++ (codes "}," ++ keys_string (l ∷ ks))))

module _ {V : Type 0} where
  -- keysMap, of all the datapoints.
  unfoldable pub keys_map : Map Str Bool → List (Datapoint V) → Map Str Bool
  unfolding put_keys
  keys_map m [] = m
  keys_map m (d ∷ ds) = keys_map (put_keys m d.tags) ds

  -- An id without tokens, of a metric whose datapoints have tags, is split by all of them.
  unfoldable pub default_split : Str → List (Datapoint V) → Str
  unfolding keys_map keys_string keys
  default_split id ds =
      if contains id (codes "${") then id else elim (sort_strings (keys (keys_map [] ds))) [
        | [] ↦ id
        | k ∷ ks ↦ id ++ (codes "{" ++ (keys_string (k ∷ ks) ++ codes "}"))
      ]

  -- The metric that the collected one is, if it is to be collected. The id that a collector
  -- returns is the metric's name.
  unfoldable pub monitored_metric :
      Map Str MonitoredMetric → MetricHeader V → Option MonitoredMetric
  monitored_metric [] m =
      some
        (record { id = m.id; name = m.id; type = m.type; units = []; description = []; tags = [] })
  monitored_metric (entry ∷ metrics) m = Map.get (entry ∷ metrics) m.id

  -- One datapoint of a metric that is split.
  unfoldable pub split_one :
      (Str → Option Str) → MetricHeader V → Str → Datapoint V → MetricHeader V
  split_one os m id d = record {
    tenant = m.tenant;
    type = m.type;
    id = expand id (
        mapping_func os
          (record { env = d.tags; use_os_env = false; do_not_expand_if_not_found = false }));
    samples = record d { tags = [] } ∷ [];
  }

unfoldable pub datapoint_tags : Tags → Tags → Tags
datapoint_tags tags [] = tags
datapoint_tags tags ((k, v) ∷ more) = datapoint_tags (Map.put tags (codes "@@@" ++ k) v) more

-- The metric with the tags of a datapoint, which its definition is to have.
unfoldable pub with_datapoint_tags : MonitoredMetric → Tags → MonitoredMetric
unfolding datapoint_tags
with_datapoint_tags mm tags =
    let copy = clone mm in record copy { tags = datapoint_tags copy.tags tags }

-- A definition that is not declared yet is needed.
unfoldable pub need :
    Map Str MonitoredMetric
    → Str
    → MonitoredMetric
    → Map Str MonitoredMetric
    → Map Str MonitoredMetric
need declared id mm needed = if Map.has declared id then needed else Map.put needed id mm

-- The variables of the loop over the collected metrics: these with the ids that they are given,
-- the split metrics, and the definitions that are needed.
pub record Sorting (V : Type 0) : Type 0 where
  pub collected : List (MetricHeader V)
  pub all_split : List (MetricHeader V)
  pub needed : Map Str MonitoredMetric

-- What the goroutine has fixed before its first tick: os.LookupEnv, the collector's environment,
-- the prefix of ids and monitoredMetricsByNameMap.
pub record Ticking : Type 0 where
  pub os : Str → Option Str
  pub env : Tags
  pub metric_id_prefix : Str
  pub metrics : Map Str MonitoredMetric

-- What one collection comes to: the tracker, the metrics sent, the definitions needed, and
-- the overflow.
pub record Gathered (V : Type 0) : Type 0 where
  pub tracker : MetricsTracker
  pub sent : List (MetricHeader V)
  pub needed : Map Str MonitoredMetric
  pub overflow : List (MetricHeader V)

module _ {V : Type 0} where
  unfoldable pub is_doomed : MetricHeader V → List (MetricHeader V) → Bool
  is_doomed m [] = false
  is_doomed m (o ∷ overflow) = if str_eq o.id m.id then true else is_doomed m overflow

  unfoldable pub delete_all :
      Map Str MonitoredMetric → List (MetricHeader V) → Map Str MonitoredMetric
  delete_all needed [] = needed
  delete_all needed (o ∷ overflow) = delete_all (Map.delete needed o.id) overflow

module _ (t : Ticking) where
  unfoldable pub full_id : MonitoredMetric → Str
  full_id mm =
      expand t.metric_id_prefix (
        mapping_func t.os
          (record { env = t.env; use_os_env = true; do_not_expand_if_not_found = false }))
      ++ expand mm.id (
          mapping_func t.os
            (record { env = t.env; use_os_env = false; do_not_expand_if_not_found = true }))

  module _ {V : Type 0} (declared : Map Str MonitoredMetric) where
    -- The loop over the datapoints of a metric that is split.
    unfoldable pub split_each :
        MetricHeader V
        → MonitoredMetric
        → Str
        → List (Datapoint V)
        → Map Str MonitoredMetric
        → List (MetricHeader V) × Map Str MonitoredMetric
    split_each m mm id [] needed = ([], needed)
    split_each m mm id (d ∷ ds) needed =
        let s = split_one t.os m id d in
        let (rest, needed') =
          split_each m mm id ds (need declared s.id (with_datapoint_tags mm d.tags) needed) in
        (s ∷ rest, needed')

    unfoldable pub sort_known : MetricHeader V → MonitoredMetric → Sorting V → Sorting V
    unfolding split_each
    sort_known m mm st =
        let id = default_split (full_id mm) m.samples in
        let (split, needed) = split_each m mm id m.samples st.needed in
        if contains id (codes "${")
        then record {
          collected = st.collected ++ record m { id = [] } ∷ [];
          all_split = st.all_split ++ split;
          needed = needed;
        }
        else record {
          collected = st.collected ++ record m { id = id } ∷ [];
          all_split = st.all_split;
          needed = need declared id mm st.needed;
        }

    unfoldable pub sort_one : MetricHeader V → Sorting V → Sorting V
    unfolding sort_known
    sort_one m st = elim (monitored_metric t.metrics m) [
      | none ↦ record st { collected = st.collected ++ record m { id = [] } ∷ [] }
      | some mm ↦ sort_known m mm st
    ]

    unfoldable pub sort_metrics : List (MetricHeader V) → Sorting V → Sorting V
    unfolding sort_one
    sort_metrics [] st = st
    sort_metrics (m ∷ ms) st = sort_metrics ms (sort_one m st)

    -- The known metrics and the split ones.
    unfoldable pub combined : Sorting V → List (MetricHeader V)
    combined st = keep (λ m. not (str_eq m.id [])) st.collected ++ st.all_split

    unfoldable pub gather : MetricsTracker → CollectorId → List (MetricHeader V) → Gathered V
    unfolding sort_metrics is_doomed delete_all
    gather mt id ms =
        let st = sort_metrics ms (record { collected = []; all_split = []; needed = [] }) in
        let (tracker, overflow) = add_metrics_from_collector mt id (combined st) in
        record {
          tracker = tracker;
          sent = keep (λ m. not (is_doomed m overflow)) (combined st);
          needed = delete_all st.needed overflow;
          overflow = overflow;
        }
