-- ===== src/Tracker/Tests.antt =====
-- The tracker's theorems at concrete inputs, and runs of its methods.
use hawkular_openshift_agent.Base.{
  codes, str_eq, ◌≡◌, refl, ◌↔◌, pos, ◌≤◌, true, false, List, [], ◌∷◌, In, ℕ,
}
use hawkular_openshift_agent.Base.Map
use Prim.Native.Nat.{◌*◌}
use Prim.Native.String.{String}
use hawkular_openshift_agent.Collector.{CollectorId, MetricHeader}
use hawkular_openshift_agent.Tracker.{
  MetricsTracker, new_metrics_tracker, add_metrics_from_collector, get_counts, get_all_pods,
  purge_metrics_for_collector_endpoint,
}
use hawkular_openshift_agent.Tracker.Invariant.{IsValid, IsValid-new, add-IsValid}
use hawkular_openshift_agent.Tracker.Overflow.{tracked, overflow_exact, add_keeps, tracked-purge}
use hawkular_openshift_agent.Tracker.Counts.{add, purge, run, run-get_counts}

abbrev web : CollectorId
web = record { pod_id = codes "p"; endpoint_id = codes "web" }

abbrev db : CollectorId
db = record { pod_id = codes "p"; endpoint_id = codes "db" }

abbrev metric : String → MetricHeader ℕ
metric name = record { tenant = []; type = codes "gauge"; id = codes name; samples = [] }

abbrev three : List (MetricHeader ℕ)
three = metric "a" ∷ metric "b" ∷ metric "c" ∷ []

abbrev small : MetricsTracker
small = new_metrics_tracker (pos 2)

-- With a limit of 2, the third metric overflows.
overflow_of_three : (add_metrics_from_collector small web three).1 ≡ metric "c" ∷ []
unfolding new_metrics_tracker add_metrics_from_collector Map.get Map.put Map.has str_eq
overflow_of_three = refl

overflow_exact_example : In (metric "c") (add_metrics_from_collector small web three).1 ↔ (
    In (metric "c") three
    × (tracked (add_metrics_from_collector small web three).0 web (codes "c") ≡ false))
overflow_exact_example = overflow_exact small web three (IsValid-new (pos 2)) (metric "c")

abbrev filled : MetricsTracker
filled = (add_metrics_from_collector small web three).0

add-IsValid_example : IsValid filled
add-IsValid_example = add-IsValid small web three (IsValid-new (pos 2))

add_keeps_example : tracked (add_metrics_from_collector filled web three).0 web (codes "a") ≡ true
unfolding new_metrics_tracker add_metrics_from_collector Map.get Map.put Map.has str_eq tracked
add_keeps_example =
    add_keeps filled web three (add-IsValid small web three (IsValid-new (pos 2))) (codes "a") refl

tracked-purge_example :
    tracked (purge_metrics_for_collector_endpoint filled web) web (codes "a") ≡ false
unfolding str_eq
tracked-purge_example = tracked-purge filled web web (codes "a")

run-get_counts_example :
    ((get_counts (run small (add web three ∷ purge db ∷ []))).0
      ≤ (get_counts (run small (add web three ∷ purge db ∷ []))).1)
    × ((get_counts (run small (add web three ∷ purge db ∷ []))).2
        ≤ (get_counts (run small (add web three ∷ purge db ∷ []))).0 * 2)
run-get_counts_example = run-get_counts (pos 2) (add web three ∷ purge db ∷ [])

counts_of_filled : get_counts filled ≡ (1, 1, 2)
unfolding new_metrics_tracker add_metrics_from_collector Map.get Map.put Map.has str_eq get_counts
counts_of_filled = refl

purge_forgets_pod : get_all_pods (purge_metrics_for_collector_endpoint filled web) ≡ []
unfolding new_metrics_tracker add_metrics_from_collector purge_metrics_for_collector_endpoint
    Map.get Map.has Map.put Map.delete str_eq get_all_pods
purge_forgets_pod = refl
