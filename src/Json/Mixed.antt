-- ===== src/Json/Mixed.antt =====
-- collector/impl/json_metrics_collector.go: which JSON texts make the collector panic.
use hawkular_openshift_agent.Base.{
  Str, codes, string_eq, ℕ, ◌≡◌, refl, none, some, List, [], ◌++◌, Result, ok, err, ◌>>=◌,
}
use hawkular_openshift_agent.Json.Panics.{IsUniform, AreUniform, AreMaps, Succeeds}
use hawkular_openshift_agent.Collector.{MetricHeader, Endpoint}
use hawkular_openshift_agent.Values.{
  Floats, Value, null, bool, number, text, array, object, Items, nil, item, Fields, end, field,
}
use hawkular_openshift_agent.Json.{
  Panic, Context, enter, process_json, process_array, process_items, process_fields, type_in,
  metric_name_map, put_metrics, build_metric_id, add_label,
}

err-Succeeds : {A : Type 0} (p : Panic) → ¬ Succeeds {A = A} (err p)
err-Succeeds p (a, e) = cc

both-Succeed :
    {A : Type 0} (a b : Result Panic (List A))
    → Succeeds (a >>= λ here. b >>= λ rest. ok (here ++ rest))
    → Succeeds a × Succeeds b
both-Succeed (ok x) (ok y) h = ((x, refl), (y, refl))
both-Succeed (ok x) (err p) h = absurd (err-Succeeds p h)
both-Succeed (err p) b h = absurd (err-Succeeds p h)

module _ (f : Floats) (print : ℕ → Str) (e : Endpoint) (now : ℕ) (all : e.metrics ≡ []) where
  enter_all :
      (c : Context) (name : Str)
      → enter f print e now c name
        ≡ some (add_label f print e now c name, build_metric_id c name, codes "gauge")
  unfolding enter type_in metric_name_map put_metrics add_label
  enter_all c name = rw (all, enter) refl

  inside :
      (c : Context) (name : Str)
      (k : Context → Str → Str → Result Panic (List (MetricHeader f.Float)))
      → Succeeds
          (elim (enter f print e now c name) [ none ↦ ok [] | some (c', id, type) ↦ k c' id type ])
      → Succeeds (k (add_label f print e now c name) (build_metric_id c name) (codes "gauge"))
  inside c name k h = rw (enter_all c name) at h

  mutual
    unfolding process_json process_array process_items process_fields IsUniform AreUniform AreMaps

    process_json-IsUniform :
        (c : Context) (name : Str) (v : Value f.Float)
        → Succeeds (process_json f print e now c name v)
        → IsUniform v
    process_json-IsUniform c name (number x) h = tt
    process_json-IsUniform c name (text s) h = tt
    process_json-IsUniform c name (bool b) h = tt
    process_json-IsUniform c name null h = tt
    process_json-IsUniform c name (array items) h =
        process_array-IsUniform (add_label f print e now c name) (build_metric_id c name) items
          (inside c name (λ c' id type. process_array f print e now c' id items) h)
    process_json-IsUniform c name (object fields) h =
        process_fields-AreUniform (add_label f print e now c name) (build_metric_id c name) fields
          (inside c name (λ c' id type. process_fields f print e now c' id fields) h)

    process_array-IsUniform :
        (c : Context) (id : Str) (items : Items f.Float)
        → Succeeds (process_array f print e now c id items)
        → IsUniform (array items)
    process_array-IsUniform c id nil h = tt
    process_array-IsUniform c id (item (object fields) items) h =
        let (first, rest) =
          both-Succeed (process_fields f print e now c id fields)
            (process_items f print e now c id items) h in
        (process_fields-AreUniform c id fields first, process_items-AreMaps c id items rest)
    process_array-IsUniform c id (item (number x) items) h = tt
    process_array-IsUniform c id (item null items) h = tt
    process_array-IsUniform c id (item (bool b) items) h = tt
    process_array-IsUniform c id (item (text s) items) h = tt
    process_array-IsUniform c id (item (array inner) items) h = tt

    process_items-AreMaps :
        (c : Context) (id : Str) (items : Items f.Float)
        → Succeeds (process_items f print e now c id items)
        → AreMaps items
    process_items-AreMaps c id nil h = tt
    process_items-AreMaps c id (item (object fields) items) h =
        let (first, rest) =
          both-Succeed (process_fields f print e now c id fields)
            (process_items f print e now c id items) h in
        (process_fields-AreUniform c id fields first, process_items-AreMaps c id items rest)
    process_items-AreMaps c id (item (number x) items) h = absurd (err-Succeeds _ h)
    process_items-AreMaps c id (item null items) h = absurd (err-Succeeds _ h)
    process_items-AreMaps c id (item (bool b) items) h = absurd (err-Succeeds _ h)
    process_items-AreMaps c id (item (text s) items) h = absurd (err-Succeeds _ h)
    process_items-AreMaps c id (item (array inner) items) h = absurd (err-Succeeds _ h)

    process_fields-AreUniform :
        (c : Context) (id : Str) (fields : Fields f.Float)
        → Succeeds (process_fields f print e now c id fields)
        → AreUniform fields
    process_fields-AreUniform c id end h = tt
    process_fields-AreUniform c id (field k v fields) h =
        let (first, rest) =
          both-Succeed (process_json f print e now (record c { current_metric_id = id }) k v)
            (process_fields f print e now c id fields) h in
        (
          process_json-IsUniform (record c { current_metric_id = id }) k v first,
          process_fields-AreUniform c id fields rest,
        )
