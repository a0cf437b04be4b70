-- ===== src/Status/Report.antt =====
-- What the report says: its endpoints and its counts are those of the tracker.
use hawkular_openshift_agent.Base.{
  Str, str_eq_iff, string_eq, ℕ, ◌≡◌, refl, ap, ◌∙◌, Bool, true, false, ◌||◌, none, some, [], ◌∷◌,
  All, arith, if◌then◌else◌,
}
use mathlib.Core.Option
use hawkular_openshift_agent.Base.Map
use hawkular_openshift_agent.Base.Map.{Map, IsMap, get-put, has-put, get-entries}
use hawkular_openshift_agent.Tracker.{
  MetricsTracker, PodEndpoints, get_all_pods, get_all_endpoints, sizes,
}
use hawkular_openshift_agent.Status.{
  StatusReport, cleanup, populate, report_metrics, report_pods, keep_valid, valid_endpoints,
  add_valid,
}

-- Some pod of the tracker has an endpoint of this id.
abbrev pub watched : Map Str PodEndpoints → Str → Bool
watched [] eid = false
watched ((pid, endpoints) ∷ pods) eid = Map.has endpoints eid || watched pods eid

get-keep_valid :
    (valid : Map Str Bool) (endpoints : Map Str Str) (eid : Str)
    → Map.get (keep_valid valid endpoints) eid
      ≡ (if Map.has valid eid then Map.get endpoints eid else none)
unfolding keep_valid Map.get
get-keep_valid valid [] eid = ground arith
get-keep_valid valid ((k, msg) ∷ endpoints) eid =
    ground (arith, str_eq_iff k eid, get-keep_valid valid endpoints eid)

has-sizes : (eps : PodEndpoints) (eid : Str) → Map.has (sizes eps) eid ≡ Map.has eps eid
unfolding Map.has Map.get
has-sizes [] eid = refl
has-sizes ((k, ms) ∷ eps) eid = ground (arith, has-sizes eps eid)

has-add_valid :
    (eps : PodEndpoints) (valid : Map Str Bool) (eid : Str)
    → Map.has (add_valid (sizes eps) valid) eid ≡ (Map.has eps eid || Map.has valid eid)
unfolding add_valid Map.has Map.get
has-add_valid [] valid eid = refl
has-add_valid ((k, ms) ∷ eps) valid eid =
    ground (arith, has-put valid k eid true, has-add_valid eps (Map.put valid k true) eid)

all_endpoints-get :
    (mt : MetricsTracker) (pid : Str) (eps : PodEndpoints)
    → Map.get mt.all_metrics pid ≡ some eps
    → get_all_endpoints mt pid ≡ sizes eps
unfolding get_all_endpoints
all_endpoints-get mt pid eps h = rw (h, get_all_endpoints)

has-valid_endpoints :
    (mt : MetricsTracker) (pods : Map Str PodEndpoints) (valid : Map Str Bool) (eid : Str)
    → All (λ p. Map.get mt.all_metrics p.0 ≡ some p.1) pods
    → Map.has (valid_endpoints mt (sizes pods) valid) eid ≡ (Map.has valid eid || watched pods eid)
unfolding valid_endpoints
has-valid_endpoints mt [] valid eid h = ground arith
has-valid_endpoints mt ((pid, eps) ∷ pods) valid eid h =
    ap (λ x. Map.has (valid_endpoints mt (sizes pods) (add_valid x valid)) eid)
      (all_endpoints-get mt pid eps h.0)
    ∙ (ground (
      arith,
      has-valid_endpoints mt pods (add_valid (sizes eps) valid) eid h.1,
      has-add_valid eps valid eid,
    ))

-- The report keeps the message of an endpoint exactly if the tracker has an endpoint of that id in
-- some pod; the tracker's pods form a map, with each pod once.
pub get-populate :
    (mt : MetricsTracker) (s : StatusReport) (eid : Str)
    → IsMap mt.all_metrics
    → Map.get (populate (some mt) s).endpoints eid
      ≡ (if watched mt.all_metrics eid then Map.get s.endpoints eid else none)
unfolding populate cleanup get_all_pods
get-populate mt s eid h =
    get-keep_valid (valid_endpoints mt (sizes mt.all_metrics) []) s.endpoints eid
    ∙ rw (has-valid_endpoints mt mt.all_metrics [] eid (get-entries mt.all_metrics h))
        (unfold Map.has Map.get in refl)

get-report_pods :
    (mt : MetricsTracker) (pods : Map Str PodEndpoints) (metrics : Map Str (Map Str ℕ)) (pid : Str)
    → IsMap pods
    → All (λ p. Map.get mt.all_metrics p.0 ≡ some p.1) pods
    → Map.get (report_pods mt (sizes pods) metrics) pid
      ≡ (elim (Map.get pods pid) [ some eps ↦ some (sizes eps) | none ↦ Map.get metrics pid ])
unfolding report_pods Map.get
get-report_pods mt [] metrics pid m h = refl
get-report_pods mt ((q, eps) ∷ pods) metrics pid m h =
    ap (λ x. Map.get (report_pods mt (sizes pods) (Map.put metrics q x)) pid)
      (all_endpoints-get mt q eps h.0)
    ∙ (ground (
      arith,
      str_eq_iff q pid,
      get-report_pods mt pods (Map.put metrics q (sizes eps)) pid m.1 h.1,
      get-put metrics q pid (sizes eps),
    ))

-- The report's counts are the tracker's: for each pod, the number of metrics of each endpoint.
pub report-counts :
    (mt : MetricsTracker) (s : StatusReport) (pid : Str)
    → IsMap mt.all_metrics
    → Map.get (populate (some mt) s).metrics pid ≡ Option.map sizes (Map.get mt.all_metrics pid)
unfolding populate report_metrics get_all_pods
report-counts mt s pid h =
    get-report_pods mt mt.all_metrics [] pid h (get-entries mt.all_metrics h)
    ∙ (unfold Map.get in ground arith)
