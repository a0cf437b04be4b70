-- ===== src/Prometheus/Collected.antt =====
-- collector/impl/prometheus_metrics_collector.go: the families that are collected, and their
-- details.
use hawkular_openshift_agent.Base.{
  Str, str_eq_iff, str_eq_refl, string_eq, ℕ, Bool, true, false, not, ◌||◌, ◌≡◌, ◌⊎◌, inl, inr,
  refl, sym, ap, Option, none, some, List, [], ◌∷◌, ◌++◌, map, All, In, arith, if◌then◌else◌, keep,
}
use hawkular_openshift_agent.Base.Map
use mathlib.Core.Option
use hawkular_openshift_agent.Base.Map.{Map, get-put}
use hawkular_openshift_agent.Collector.{MetricHeader, MonitoredMetric, MetricDetails, Endpoint}
use hawkular_openshift_agent.Prometheus.{
  MetricFamily, put_names, metric_name_map, is_skipped, convert_gauge, convert_counter, convert,
  collect_families, collect_metrics, is_looked_for, details_of, detail_families,
  collect_metric_details,
}

is_looked_for_refl : (name : Str) (names : List Str) → is_looked_for (name ∷ names) name ≡ true
unfolding is_looked_for
is_looked_for_refl name names = ground (arith, str_eq_refl name)

-- The names that an endpoint monitors.
abbrev names_of : List MonitoredMetric → List Str
names_of = map (λ m. m.name)

get-put_names :
    (ms : List MonitoredMetric) (names : Map Str Bool) (k : Str)
    → Map.get (put_names names ms) k
      ≡ (if is_looked_for (names_of ms) k then some true else Map.get names k)
unfolding put_names is_looked_for
get-put_names [] names k = refl
get-put_names (m ∷ ms) names k =
    ground (arith, get-put_names ms (Map.put names m.name true) k, get-put names m.name k true)

lookup : Option Bool → Bool
lookup none = true
lookup (some b) = not b

is_skipped-get :
    (names : Map Str Bool) (k n : Str) (b : Bool)
    → Map.get names n ≡ some b
    → is_skipped names k ≡ lookup (Map.get names k)
unfolding is_skipped lookup Map.get
is_skipped-get [] k n b h = cc
is_skipped-get ((i, v) ∷ names) k n b h = ground arith

-- A name is monitored if it is in the list, or the list is empty.
abbrev pub is_monitored : List MonitoredMetric → Str → Bool
is_monitored [] name = true
is_monitored (m ∷ ms) name = is_looked_for (names_of (m ∷ ms)) name

is_skipped_lem :
    (ms : List MonitoredMetric) (name : Str)
    → is_skipped (put_names [] ms) name ≡ not (is_monitored ms name)
unfolding is_skipped put_names lookup Map.get
is_skipped_lem [] name = refl
is_skipped_lem (m ∷ ms) name = ground (
  arith,
  is_skipped-get (put_names [] (m ∷ ms)) name m.name true
      (ground (arith, get-put_names (m ∷ ms) [] m.name, is_looked_for_refl m.name (names_of ms))),
  get-put_names (m ∷ ms) [] name,
)

module _ {V : Type 0} (e : Endpoint) (now : ℕ) where
  abbrev pub convert_all : List (MetricFamily V) → List (MetricHeader V)
  convert_all [] = []
  convert_all (family ∷ families) = convert e now family ++ convert_all families

  -- What is collected is the conversion of each family that is monitored, in order.
  pub collect_families-monitored :
      (families : List (MetricFamily V))
      → collect_families e now families
        ≡ convert_all (keep (λ family. is_monitored e.metrics family.name) families)
  unfolding collect_families metric_name_map keep
  collect_families-monitored [] = refl
  collect_families-monitored (family ∷ families) =
      ground (arith, is_skipped_lem e.metrics family.name, collect_families-monitored families)

-- The names with their types.
abbrev pub collected_types : {V : Type 0} → List (MetricHeader V) → List (Str × Str)
collected_types = map (λ m. (m.id, m.type))

abbrev pub detailed_types : List MetricDetails → List (Str × Str)
detailed_types = map (λ d. (d.name, d.metric_type))

abbrev pub ids : {V : Type 0} → List (MetricHeader V) → List Str
ids = map (λ m. m.id)

is_looked_for-append :
    (xs ys : List Str) (k : Str)
    → is_looked_for (xs ++ ys) k ≡ is_looked_for xs k || is_looked_for ys k
unfolding is_looked_for
is_looked_for-append [] ys k = refl
is_looked_for-append (x ∷ xs) ys k = ground (arith, is_looked_for-append xs ys k)

details-append :
    (xs ys : List MetricDetails)
    → detailed_types (xs ++ ys) ≡ detailed_types xs ++ detailed_types ys
details-append [] ys = refl
details-append (x ∷ xs) ys = ground (arith, details-append xs ys)

module _ {V : Type 0} (e : Endpoint) (now : ℕ) where
  convert-types :
      (family : MetricFamily V)
      → detailed_types (details_of family) ≡ collected_types (convert e now family)
  unfolding convert details_of convert_gauge convert_counter
  convert-types family = ground arith

  -- A metric that a family gives has the family's name.
  convert-named :
      (family : MetricFamily V) (k : Str)
      → is_looked_for (ids (convert e now family)) k ≡ true
      → family.name ≡ k
  unfolding convert details_of convert_gauge convert_counter is_looked_for
  convert-named family k h = ground (arith, str_eq_iff family.name k)

  ids-append : (xs ys : List (MetricHeader V)) → ids (xs ++ ys) ≡ ids xs ++ ids ys
  ids-append [] ys = refl
  ids-append (x ∷ xs) ys = ground (arith, ids-append xs ys)

  types-append :
      (xs ys : List (MetricHeader V))
      → collected_types (xs ++ ys) ≡ collected_types xs ++ collected_types ys
  types-append [] ys = refl
  types-append (x ∷ xs) ys = ground (arith, types-append xs ys)

  looked_for-append :
      (family : MetricFamily V) (ms : List (MetricHeader V)) (k : Str)
      → is_looked_for (ids (convert e now family ++ ms)) k
        ≡ is_looked_for (ids (convert e now family)) k || is_looked_for (ids ms) k
  looked_for-append family ms k =
      rw (ids-append (convert e now family) ms)
        (is_looked_for-append (ids (convert e now family)) (ids ms) k)

  convert_self :
      (family : MetricFamily V)
      → (convert e now family ≡ [])
        ⊎ (is_looked_for (ids (convert e now family)) family.name ≡ true)
  unfolding convert convert_gauge convert_counter is_looked_for
  convert_self family = ground (arith, str_eq_refl family.name)

  collected-monitored :
      (families : List (MetricFamily V)) (k : Str)
      → is_looked_for (ids (collect_families e now families)) k ≡ true
      → is_skipped (metric_name_map e) k ≡ false
  unfolding collect_families is_looked_for
  collected-monitored [] k h = cc
  collected-monitored (family ∷ families) k h = ground (
    arith,
    looked_for-append family (collect_families e now families) k,
    convert-named family k,
    collected-monitored families k,
  )

  monitored-collected :
      (families : List (MetricFamily V)) (family : MetricFamily V)
      → In family families
      → is_skipped (metric_name_map e) family.name ≡ false
      → is_looked_for (ids (convert e now family)) family.name ≡ true
      → is_looked_for (ids (collect_families e now families)) family.name ≡ true
  unfolding collect_families
  monitored-collected [] family i w h = elim i [ ]
  monitored-collected (f ∷ families) family (inl here) w h =
      ground (arith, looked_for-append f (collect_families e now families) family.name)
  monitored-collected (f ∷ families) family (inr there) w h = ground (
    arith,
    looked_for-append f (collect_families e now families) family.name,
    monitored-collected families family there w h,
  )

  -- What the details of one family are, and what is collected of it.
  family-agrees :
      (families : List (MetricFamily V)) (family : MetricFamily V)
      → In family families
      → detailed_types (
          if is_looked_for (ids (collect_families e now families)) family.name
          then details_of family
          else [])
        ≡ collected_types
            (if is_skipped (metric_name_map e) family.name then [] else convert e now family)
  family-agrees families family i = ground (
    arith,
    convert_self family,
    convert-types family,
    collected-monitored families family.name,
    monitored-collected families family i,
  )

  details-agree :
      (all families : List (MetricFamily V))
      → All (λ family. In family all) families
      → detailed_types (detail_families (ids (collect_families e now all)) families)
        ≡ collected_types (collect_families e now families)
  unfolding detail_families collect_families
  details-agree all [] h = refl
  details-agree all (family ∷ families) (i, h) = ground (
    arith,
    family-agrees all family i,
    details-agree all families h,
    details-append (details_of family)
        (detail_families (ids (collect_families e now all)) families),
    types-append (convert e now family) (collect_families e now families),
  )

  All-In :
      (families more : List (MetricFamily V))
      → All (λ f. In f families) more
      → (g : MetricFamily V) → All (λ f. In f (g ∷ families)) more
  All-In families [] h g = tt
  All-In families (f ∷ more) h g = (inr h.0, All-In families more h.1 g)

  All-self : (families : List (MetricFamily V)) → All (λ f. In f families) families
  All-self [] = tt
  All-self (f ∷ families) = (inl refl, All-In families families (All-self families) f)

  detail_families-none : (families : List (MetricFamily V)) → detail_families [] families ≡ []
  unfolding detail_families is_looked_for
  detail_families-none [] = refl
  detail_families-none (f ∷ families) = detail_families-none families

  collect_metric_details-families :
      (names : List Str) (families : List (MetricFamily V))
      → collect_metric_details names (some families) ≡ some (detail_families names families)
  unfolding collect_metric_details
  collect_metric_details-families [] families = ap some (sym (detail_families-none families))
  collect_metric_details-families (n ∷ names) families = refl

  -- The details that are asked for the metrics that were collected are found: from the same
  -- families, CollectMetricDetails gives for the names of the collected metrics the same names, in
  -- the same order, with the same types.
  pub details-collected :
      (families : List (MetricFamily V))
      → Option.map detailed_types
          (collect_metric_details (ids (collect_families e now families)) (some families))
        ≡ Option.map collected_types (collect_metrics e now (some families))
  unfolding collect_metrics
  details-collected families =
      rw (collect_metric_details-families (ids (collect_families e now families)) families)
        (ap some (details-agree families families (All-self families)))
