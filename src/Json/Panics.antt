-- ===== src/Json/Panics.antt =====
-- collector/impl/json_metrics_collector.go: the type assertion on the values of an array.
use hawkular_openshift_agent.Base.{
  Str, string_eq, ℕ, ◌≡◌, inl, inr, refl, Option-cases, none, some, List, [], ◌++◌, Result, ok,
  ◌>>=◌,
}
use hawkular_openshift_agent.Values.{
  Floats, Value, null, bool, number, text, array, object, Items, nil, item, Fields, end, field,
}
use hawkular_openshift_agent.Collector.{MetricHeader, Endpoint}
use hawkular_openshift_agent.Json.{
  Panic, Context, enter, process_json, process_array, process_items, process_fields, walk,
}

module _ {F : Type 0} where
  -- An array that begins with a map holds maps only, at every depth.
  unfoldable mutual
    pub IsUniform : Value F → Type 0
    IsUniform (object fields) = AreUniform fields
    IsUniform (array nil) = Unit
    IsUniform (array (item (object fields) items)) = AreUniform fields × AreMaps items
    IsUniform (array (item (number x) items)) = Unit
    IsUniform (array (item null items)) = Unit
    IsUniform (array (item (bool b) items)) = Unit
    IsUniform (array (item (text s) items)) = Unit
    IsUniform (array (item (array inner) items)) = Unit
    IsUniform (number x) = Unit
    IsUniform null = Unit
    IsUniform (bool b) = Unit
    IsUniform (text s) = Unit

    pub AreUniform : Fields F → Type 0
    AreUniform end = Unit
    AreUniform (field k v fields) = IsUniform v × AreUniform fields

    pub AreMaps : Items F → Type 0
    AreMaps nil = Unit
    AreMaps (item (object fields) items) = AreUniform fields × AreMaps items
    AreMaps (item (number x) items) = ⊥
    AreMaps (item null items) = ⊥
    AreMaps (item (bool b) items) = ⊥
    AreMaps (item (text s) items) = ⊥
    AreMaps (item (array inner) items) = ⊥

abbrev pub Succeeds : {A : Type 0} → Result Panic A → Type 0
Succeeds {A} r = (a : A) × (r ≡ ok a)

then-Succeeds :
    {A : Type 0} (a b : Result Panic (List A))
    → Succeeds a
    → Succeeds b
    → Succeeds (a >>= λ here. b >>= λ rest. ok (here ++ rest))
then-Succeeds a b (x, is) (y, is') = (x ++ y, rw (is, is') refl)

module _ (f : Floats) (print : ℕ → Str) (e : Endpoint) (now : ℕ) where
  entered-Succeeds :
      (c : Context) (name : Str)
      (k : Context → Str → Str → Result Panic (List (MetricHeader f.Float)))
      → ((c' : Context) (id type : Str) → Succeeds (k c' id type))
      → Succeeds
          (elim (enter f print e now c name) [ none ↦ ok [] | some (c', id, type) ↦ k c' id type ])
  entered-Succeeds c name k h = elim (Option-cases (enter f print e now c name)) [
    | inl skipped ↦ rw skipped ([], refl)
    | inr (x, is) ↦ rw is (h x.0 x.1 x.2)
  ]

  mutual
    unfolding process_json process_array process_items process_fields IsUniform AreUniform AreMaps

    process_json-Succeeds :
        (c : Context) (name : Str) (v : Value f.Float)
        → IsUniform v
        → Succeeds (process_json f print e now c name v)
    process_json-Succeeds c name (number x) u =
        entered-Succeeds c name (λ c' id type. ok _) (λ c' id type. (_, refl))
    process_json-Succeeds c name (text s) u = ([], refl)
    process_json-Succeeds c name (bool b) u =
        entered-Succeeds c name (λ c' id type. ok _) (λ c' id type. (_, refl))
    process_json-Succeeds c name null u = ([], refl)
    process_json-Succeeds c name (array items) u =
        entered-Succeeds c name (λ c' id type. process_array f print e now c' id items)
          (λ c' id type. process_array-Succeeds c' id items u)
    process_json-Succeeds c name (object fields) u =
        entered-Succeeds c name (λ c' id type. process_fields f print e now c' id fields)
          (λ c' id type. process_fields-Succeeds c' id fields u)

    process_array-Succeeds :
        (c : Context) (id : Str) (items : Items f.Float)
        → IsUniform (array items)
        → Succeeds (process_array f print e now c id items)
    process_array-Succeeds c id nil u = ([], refl)
    process_array-Succeeds c id (item (object fields) items) u =
        then-Succeeds (process_fields f print e now c id fields)
          (process_items f print e now c id items) (process_fields-Succeeds c id fields u.0)
          (process_items-Succeeds c id items u.1)
    process_array-Succeeds c id (item (number x) items) u = (_, refl)
    process_array-Succeeds c id (item null items) u = ([], refl)
    process_array-Succeeds c id (item (bool b) items) u = ([], refl)
    process_array-Succeeds c id (item (text s) items) u = ([], refl)
    process_array-Succeeds c id (item (array inner) items) u = ([], refl)

    process_items-Succeeds :
        (c : Context) (id : Str) (items : Items f.Float)
        → AreMaps items
        → Succeeds (process_items f print e now c id items)
    process_items-Succeeds c id nil u = ([], refl)
    process_items-Succeeds c id (item (object fields) items) u =
        then-Succeeds (process_fields f print e now c id fields)
          (process_items f print e now c id items) (process_fields-Succeeds c id fields u.0)
          (process_items-Succeeds c id items u.1)
    process_items-Succeeds c id (item (number x) items) u = elim u [ ]
    process_items-Succeeds c id (item null items) u = elim u [ ]
    process_items-Succeeds c id (item (bool b) items) u = elim u [ ]
    process_items-Succeeds c id (item (text s) items) u = elim u [ ]
    process_items-Succeeds c id (item (array inner) items) u = elim u [ ]

    process_fields-Succeeds :
        (c : Context) (id : Str) (fields : Fields f.Float)
        → AreUniform fields
        → Succeeds (process_fields f print e now c id fields)
    process_fields-Succeeds c id end u = ([], refl)
    process_fields-Succeeds c id (field k v fields) u =
        then-Succeeds (process_json f print e now (record c { current_metric_id = id }) k v)
          (process_fields f print e now c id fields)
          (process_json-Succeeds (record c { current_metric_id = id }) k v u.0)
          (process_fields-Succeeds c id fields u.1)

  -- A JSON text of which no array begins with a map and goes on with something else never makes the
  -- collector panic, however its values are nested: the walk gives its metrics.
  pub walk-Succeeds :
      (fields : Fields f.Float) → AreUniform fields → Succeeds (walk f print e now fields)
  unfolding walk AreUniform
  walk-Succeeds end u = ([], refl)
  walk-Succeeds (field k v fields) u =
      then-Succeeds
        (process_json f print e now (record { current_metric_id = []; current_metric_tags = [] }) k
          v)
        (walk f print e now fields)
        (process_json-Succeeds (record { current_metric_id = []; current_metric_tags = [] }) k v
          u.0)
        (walk-Succeeds fields u.1)
