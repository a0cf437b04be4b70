-- ===== src/Status/Tests.antt =====
-- The theorems on the status report at concrete inputs.
use hawkular_openshift_agent.Base.{string_eq, codes, str_eq, pos, ◌≡◌, refl, some, none, [], ◌∷◌}
use hawkular_openshift_agent.Base.Map
use hawkular_openshift_agent.Tracker.{MetricsTracker}
use hawkular_openshift_agent.Status.{StatusReport, populate}
use hawkular_openshift_agent.Status.Report.{get-populate}

abbrev empty : StatusReport
empty = record {
  name = codes "HOSA";
  version = [];
  commit_hash = [];
  metrics = [];
  endpoints = (codes "web", codes "OK") ∷ (codes "old", codes "OK") ∷ [];
  log = [] ∷ [] ∷ [];
}

abbrev tracker : MetricsTracker
tracker = record {
  all_metrics = (codes "p", (codes "web", []) ∷ []) ∷ [];
  max_metrics_per_pod = pos 5;
}

get-populate_example : Map.get (populate (some tracker) empty).endpoints (codes "old") ≡ none
unfolding Map.get Map.has str_eq
get-populate_example = get-populate tracker empty (codes "old") (refl, tt)
