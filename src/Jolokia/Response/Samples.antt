-- ===== src/Jolokia/Response/Samples.antt =====
-- What every metric of a response's value has in common.
use hawkular_openshift_agent.Base.{
  Str, codes, string_eq, Bool, ◌≡◌, refl, Option-cases, inl, inr, List, [], ◌∷◌, length, All,
  All-append, arith, Bool-cases,
}
use hawkular_openshift_agent.Base.Map
use hawkular_openshift_agent.Base.Map.{Map}
use hawkular_openshift_agent.Base.Sort.{by_key, by_key-All}
use hawkular_openshift_agent.Values.{
  Floats, Value, null, bool, number, text, array, object, Fields, end, field, entries,
}
use hawkular_openshift_agent.Collector.{Datapoint, MetricHeader, Tags}
use hawkular_openshift_agent.Jolokia.MetricName.{new_metric_name_parts, is_all_attributes}
use hawkular_openshift_agent.Jolokia.Response.{
  is_mbean_query, process_mbeans, process_multiple_mbeans, tag_mbean,
  process_jolokia_response_value_object, Reading, tag_data, tag_all, return_value_as_float, sample,
  process_single_basic_attribute, PathOutcome, value_at, inner, nothing, path_tags, add_path,
  add_paths, paths, path_of, process_single_composite_attribute, process_single_attribute,
  process_attributes, process_all_attributes, process_single_mbean, tag_wildcards,
}

-- A metric with one datapoint, of the monitored metric and the time of the collection.
pub record IsSample {V : Type 0} (r : Reading) (m : MetricHeader V) : Type 0 where
  pub tenant : m.tenant ≡ r.tenant_id
  pub type : m.type ≡ r.metric.type
  pub id : m.id ≡ r.metric.name
  pub one : length m.samples ≡ 1
  pub now : All (λ d. d.timestamp ≡ r.now) m.samples

module _ (f : Floats) (r : Reading) where
  abbrev AreSamples : List (MetricHeader f.Float) → Type 0
  AreSamples = All (IsSample r)

  sample-IsSample : (tags : Tags) (x : f.Float) → IsSample r (sample f r tags x)
  unfolding sample
  sample-IsSample tags x = record {
    tenant = refl;
    type = refl;
    id = refl;
    one = refl;
    now = (refl, tt);
  }

  tag_data-length :
      (k v : Str) (ds : List (Datapoint f.Float)) → length (tag_data k v ds) ≡ length ds
  unfolding tag_data
  tag_data-length k v [] = refl
  tag_data-length k v (d ∷ ds) = ground (arith, tag_data-length k v ds)

  tag_data-now :
      (k v : Str) (ds : List (Datapoint f.Float))
      → All (λ d. d.timestamp ≡ r.now) ds
      → All (λ d. d.timestamp ≡ r.now) (tag_data k v ds)
  unfolding tag_data
  tag_data-now k v [] h = tt
  tag_data-now k v (d ∷ ds) h = (h.0, tag_data-now k v ds h.1)

  tag_all-AreSamples :
      (k v : Str) (ms : List (MetricHeader f.Float)) → AreSamples ms → AreSamples (tag_all k v ms)
  unfolding tag_all
  tag_all-AreSamples k v [] h = tt
  tag_all-AreSamples k v (m ∷ ms) (p, h) = (
    record {
      tenant = p.tenant;
      type = p.type;
      id = p.id;
      one = rw (tag_data-length k v m.samples) p.one;
      now = tag_data-now k v m.samples p.now;
    },
    tag_all-AreSamples k v ms h,
  )

  abbrev IsOutcome : Str × PathOutcome f r → Type 0
  IsOutcome (k, value_at x) = Unit
  IsOutcome (k, inner ms) = AreSamples ms
  IsOutcome (k, nothing) = Unit

  add_path-AreSamples :
      (ms : List (MetricHeader f.Float)) (k : Str) (p : PathOutcome f r)
      → AreSamples ms
      → IsOutcome (k, p)
      → AreSamples (add_path f r ms k p)
  unfolding add_path
  add_path-AreSamples ms k (value_at x) h o =
      All-append (IsSample r) ms _ h (sample-IsSample (path_tags f r k) x, tt)
  add_path-AreSamples ms k (inner ns) h o = tag_all-AreSamples (codes "1") k ns o
  add_path-AreSamples ms k nothing h o = h

  add_paths-AreSamples :
      (ms : List (MetricHeader f.Float)) (ps : Map Str (PathOutcome f r))
      → AreSamples ms
      → All IsOutcome ps
      → AreSamples (add_paths f r ms ps)
  unfolding add_paths
  add_paths-AreSamples ms [] h o = h
  add_paths-AreSamples ms ((k, p) ∷ ps) h o =
      add_paths-AreSamples (add_path f r ms k p) ps (add_path-AreSamples ms k p h o.0) o.1

  mutual
    unfolding paths path_of

    paths-IsOutcome : (fields : Fields f.Float) → All IsOutcome (paths f r fields)
    paths-IsOutcome end = tt
    paths-IsOutcome (field k v fields) = (path_of-IsOutcome k v, paths-IsOutcome fields)

    path_of-IsOutcome : (k : Str) (v : Value f.Float) → IsOutcome (k, path_of f r v)
    path_of-IsOutcome k (number x) = tt
    path_of-IsOutcome k (text s) = elim (Option-cases (f.parse s)) [
      | inl bad ↦ rw (bad, IsOutcome) tt
      | inr (x, good) ↦ rw (good, IsOutcome) tt
    ]
    path_of-IsOutcome k (bool b) = tt
    path_of-IsOutcome k null = tt
    path_of-IsOutcome k (array items) = tt
    path_of-IsOutcome k (object fields) =
        add_paths-AreSamples [] (by_key (paths f r fields)) tt
          (by_key-All IsOutcome (paths f r fields) (paths-IsOutcome fields))

  composite-AreSamples :
      (fields : Fields f.Float) → AreSamples (process_single_composite_attribute f r fields)
  unfolding process_single_composite_attribute
  composite-AreSamples fields =
      add_paths-AreSamples [] (by_key (paths f r fields)) tt
        (by_key-All IsOutcome (paths f r fields) (paths-IsOutcome fields))

  basic-AreSamples : (v : Value f.Float) → AreSamples (process_single_basic_attribute f r v)
  unfolding process_single_basic_attribute
  basic-AreSamples v = elim (Option-cases (return_value_as_float f v)) [
    | inl bad ↦ rw (bad, process_single_basic_attribute) tt
    | inr (x, good) ↦ rw (good, process_single_basic_attribute) (sample-IsSample [] x, tt)
  ]

  attribute-AreSamples : (v : Value f.Float) → AreSamples (process_single_attribute f r v)
  unfolding process_single_attribute
  attribute-AreSamples (object fields) = composite-AreSamples fields
  attribute-AreSamples null = basic-AreSamples null
  attribute-AreSamples (bool b) = basic-AreSamples (bool b)
  attribute-AreSamples (number x) = basic-AreSamples (number x)
  attribute-AreSamples (text s) = basic-AreSamples (text s)
  attribute-AreSamples (array items) = basic-AreSamples (array items)

  attributes-AreSamples : (vs : Map Str (Value f.Float)) → AreSamples (process_attributes f r vs)
  unfolding process_attributes
  attributes-AreSamples [] = tt
  attributes-AreSamples ((k, v) ∷ vs) =
      All-append (IsSample r) _ _ (tag_all-AreSamples (codes "1") k _ (attribute-AreSamples v))
        (attributes-AreSamples vs)

  all_attributes-AreSamples : (v : Value f.Float) → AreSamples (process_all_attributes f r v)
  unfolding process_all_attributes
  all_attributes-AreSamples (object fields) = attributes-AreSamples (by_key (entries fields))
  all_attributes-AreSamples null = tt
  all_attributes-AreSamples (bool b) = tt
  all_attributes-AreSamples (number x) = tt
  all_attributes-AreSamples (text s) = tt
  all_attributes-AreSamples (array items) = tt

  mbean-AreSamples : (v : Value f.Float) → AreSamples (process_single_mbean f r v)
  unfolding process_single_mbean
  mbean-AreSamples v = elim (Bool-cases (is_all_attributes r.parts)) [
    | inl all ↦ rw all (all_attributes-AreSamples v)
    | inr one ↦ rw one (attribute-AreSamples v)
  ]

  wildcards-AreSamples :
      (wildcards : Map Str Bool) (key_values : Map Str Str) (ms : List (MetricHeader f.Float))
      → AreSamples ms
      → AreSamples (tag_wildcards f r wildcards key_values ms)
  unfolding tag_wildcards
  wildcards-AreSamples [] key_values ms h = h
  wildcards-AreSamples ((k, b) ∷ wildcards) key_values ms h =
      elim (Option-cases (Map.get key_values k)) [
        | inl missing ↦ rw missing (wildcards-AreSamples wildcards key_values ms h)
        | inr (v, found) ↦ rw found (
            wildcards-AreSamples wildcards key_values (tag_all k v ms)
              (tag_all-AreSamples k v ms h))
      ]

  module _ (trim_space : Str → Str) where
    tag_mbean-AreSamples :
        (k : Str) (ms : List (MetricHeader f.Float))
        → AreSamples ms
        → AreSamples (tag_mbean f r trim_space k ms)
    unfolding tag_mbean
    tag_mbean-AreSamples k ms h =
        let current = new_metric_name_parts trim_space k in
        elim (Option-cases current.1) [
          | inl fine ↦
              rw (fine, tag_mbean)
                (wildcards-AreSamples r.parts.key_wildcards current.0.key_values ms h)
          | inr (e, bad) ↦ rw (bad, tag_mbean) h
        ]

    mbeans-AreSamples :
        (vs : Map Str (Value f.Float)) → AreSamples (process_mbeans f r trim_space vs)
    unfolding process_mbeans
    mbeans-AreSamples [] = tt
    mbeans-AreSamples ((k, v) ∷ vs) =
        All-append (IsSample r) _ _ (tag_mbean-AreSamples k _ (mbean-AreSamples v))
          (mbeans-AreSamples vs)

    multiple-AreSamples :
        (v : Value f.Float) → AreSamples (process_multiple_mbeans f r trim_space v)
    unfolding process_multiple_mbeans
    multiple-AreSamples (object fields) = mbeans-AreSamples (by_key (entries fields))
    multiple-AreSamples null = tt
    multiple-AreSamples (bool b) = tt
    multiple-AreSamples (number x) = tt
    multiple-AreSamples (text s) = tt
    multiple-AreSamples (array items) = tt

    -- Whatever value a response has and whatever the metric's name asks for, every metric that is
    -- made of it has the tenant, and the type and the name of the monitored metric, and exactly one
    -- datapoint, with the time of the collection.
    pub process-AreSamples :
        (v : Value f.Float)
        → All (IsSample r) (process_jolokia_response_value_object f r trim_space v)
    unfolding process_jolokia_response_value_object
    process-AreSamples v = elim (Bool-cases (is_mbean_query r.parts)) [
      | inl query ↦ rw query (multiple-AreSamples v)
      | inr single ↦ rw single (mbean-AreSamples v)
    ]
