-- ===== src/Json/Sent.antt =====
-- collector/impl/json_metrics_collector.go: the metrics that are sent to the channel.
mod Inner
use hawkular_openshift_agent.Base.{
  Str, string_eq, ℕ, Bool, true, false, ◌≡◌, ◌≢◌, inl, inr, refl, sym, ◌∙◌, Option, Option-cases,
  none, some, is_some, List, [], ◌∷◌, ◌++◌, length, All, All-append, In, arith, Bool-cases,
  if◌then◌else◌, Result, ok, err, ◌>>=◌,
}
use mathlib.Core.Path.{subst}
use hawkular_openshift_agent.Values.{
  Floats, Value, null, bool, number, text, array, object, Items, nil, item, Fields, end, field,
}
use hawkular_openshift_agent.Collector.{Tags, MetricHeader, Endpoint}
use hawkular_openshift_agent.Json.{
  metric_name_map, walk, type_in, Panic, Context, build_metric_id, tags_clone, enter, metric,
  float_array, statistic, statistics, process_json, process_array, process_items, process_fields,
}
pub use hawkular_openshift_agent.Json.Sent.Inner.{AllSent, IsOf}
use hawkular_openshift_agent.Json.Sent.Inner.{AllSent-append, process_json-AreOf}

module _ (f : Floats) (print : ℕ → Str) (e : Endpoint) (now : ℕ) where
  -- The name is in the list of the endpoint, or that list is empty.
  abbrev pub is_monitored : Str → Bool
  is_monitored name = is_some (type_in f print e now (metric_name_map e) name)

  abbrev top : Context
  top = record { current_metric_id = []; current_metric_tags = [] }

  enter-none : (name : Str) → is_monitored name ≡ false → enter f print e now top name ≡ none
  unfolding enter build_metric_id
  enter-none name h = elim (Option-cases (type_in f print e now (metric_name_map e) name)) [
    | inl skipped ↦ rw (skipped, enter) refl
    | inr (type, is) ↦ cc
  ]

  process_json-skips :
      (name : Str) (v : Value f.Float)
      → is_monitored name ≡ false
      → process_json f print e now top name v ≡ ok []
  unfolding process_json
  process_json-skips name (number x) h = rw (enter-none name h, process_json) refl
  process_json-skips name (text s) h = refl
  process_json-skips name (bool b) h = rw (enter-none name h, process_json) refl
  process_json-skips name null h = refl
  process_json-skips name (array items) h = rw (enter-none name h, process_json) refl
  process_json-skips name (object fields) h = rw (enter-none name h, process_json) refl

abbrev pub names_of : {F : Type 0} → Fields F → List Str
names_of end = []
names_of (field k v fields) = k ∷ names_of fields

AllSent-map :
    {A : Type 0} (P Q : A → Type 0) (r : Result Panic (List A))
    → ((a : A) → P a → Q a)
    → AllSent P r
    → AllSent Q r
AllSent-map P Q (err e) h k = tt
AllSent-map P Q (ok []) h k = tt
AllSent-map P Q (ok (a ∷ more)) h (p, k) = (h a p, AllSent-map P Q (ok more) h k)

module _ (f : Floats) (print : ℕ → Str) (e : Endpoint) (now : ℕ) where
  -- A metric that stands for one of the names, which is monitored.
  abbrev pub StandsFor : List Str → MetricHeader f.Float → Type 0
  StandsFor names m =
      (name : Str) × In name names × (is_monitored f print e now name ≡ true) × IsOf e now name m

  process_json-StandsFor :
      (name : Str) (names : List Str) (v : Value f.Float)
      → name ≢ []
      → AllSent (StandsFor (name ∷ names)) (process_json f print e now (top f print e now) name v)
  unfolding build_metric_id
  process_json-StandsFor name names v ne = elim (Bool-cases (is_monitored f print e now name)) [
    | inr out ↦ rw (process_json-skips f print e now name v out) tt
    | inl monitored ↦
        AllSent-map (IsOf e now name) (StandsFor (name ∷ names))
          (process_json f print e now (top f print e now) name v)
          (λ m is. (name, inl refl, monitored, is))
          (process_json-AreOf f print e now (top f print e now) name v ne)
  ]

  -- What is collected of a JSON text is that of the monitored names at its top: each metric that is
  -- sent has the id of such a name, the tenant of the endpoint, and one datapoint of the time of the
  -- collection, however deep in the text its value stands. No name at the top is empty.
  pub walk-StandsFor :
      (fields : Fields f.Float)
      → All (λ name. name ≢ []) (names_of fields)
      → AllSent (StandsFor (names_of fields)) (walk f print e now fields)
  unfolding walk
  walk-StandsFor end h = tt
  walk-StandsFor (field k v fields) h =
      AllSent-append (StandsFor (k ∷ names_of fields))
        (process_json f print e now (top f print e now) k v) (walk f print e now fields)
        (process_json-StandsFor k (names_of fields) v h.0)
        (AllSent-map (StandsFor (names_of fields)) (StandsFor (k ∷ names_of fields))
          (walk f print e now fields) (λ m (name, i, monitored, is). (name, inr i, monitored, is))
          (walk-StandsFor fields h.1))
