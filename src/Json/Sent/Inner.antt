-- ===== src/Json/Sent/Inner.antt =====
-- collector/impl/json_metrics_collector.go: the metrics that processJSON sends for one value.
use hawkular_openshift_agent.Base.{
  Str, string_eq, ℕ, ◌≡◌, ◌≢◌, inl, inr, refl, sym, ◌∙◌, Option, Option-cases, none, some, List, [],
  ◌∷◌, ◌++◌, length, All, All-append, arith, if◌then◌else◌, Result, ok, err, ◌>>=◌,
}
use mathlib.Core.Path.{subst}
use hawkular_openshift_agent.Values.{
  Floats, Value, null, bool, number, text, array, object, Items, nil, item, Fields, end, field,
}
use hawkular_openshift_agent.Collector.{Tags, MetricHeader, Endpoint}
use hawkular_openshift_agent.Json.{
  Panic, Context, build_metric_id, tags_clone, enter, metric, float_array, statistic, statistics,
  process_json, process_array, process_items, process_fields,
}

-- A metric of one datapoint, at the time of the collection and for the tenant of the endpoint, with
-- this id.
pub record IsOf {V : Type 0} (e : Endpoint) (time : ℕ) (id : Str) (m : MetricHeader V)
    : Type 0 where
  pub tenant : m.tenant ≡ e.tenant
  pub named : m.id ≡ id
  pub one : length m.samples ≡ 1
  pub now : All (λ d. d.timestamp ≡ time) m.samples

-- A property of the metrics, where there are any.
abbrev pub AllSent : {A : Type 0} (P : A → Type 0) → Result Panic (List A) → Type 0
AllSent P (ok ms) = All P ms
AllSent P (err e) = Unit

pub AllSent-append :
    {A : Type 0} (P : A → Type 0) (a b : Result Panic (List A))
    → AllSent P a
    → AllSent P b
    → AllSent P (a >>= λ here. b >>= λ rest. ok (here ++ rest))
AllSent-append P (err e) b h k = tt
AllSent-append P (ok ms) (err e) h k = tt
AllSent-append P (ok ms) (ok ns) h k = All-append P ms ns h k

module _ (f : Floats) (print : ℕ → Str) (e : Endpoint) (now : ℕ) where
  abbrev AreOf : Str → Result Panic (List (MetricHeader f.Float)) → Type 0
  AreOf id = AllSent (IsOf e now id)

  metric-IsOf :
      (id type : Str) (x : f.Float) (tags : Tags)
      → IsOf e now id (metric f print e now id type x tags)
  unfolding metric
  metric-IsOf id type x tags = record { tenant = refl; named = refl; one = refl; now = (refl, tt) }

  statistics-AreOf :
      (c : Context) (id : Str) (xs : Option (List f.Float))
      → All (IsOf e now id) (statistics f print e now c id xs)
  unfolding statistics statistic
  statistics-AreOf c id none = tt
  statistics-AreOf c id (some xs) = (
    metric-IsOf id _ _ _,
    (metric-IsOf id _ _ _, (metric-IsOf id _ _ _, (metric-IsOf id _ _ _, tt))),
  )

  -- The id that is given to what is found under a name.
  enter-id :
      (c : Context) (name : Str) (x : Context × Str × Str)
      → enter f print e now c name ≡ some x
      → x.1 ≡ build_metric_id c name
  unfolding enter
  enter-id c name x h = ground arith

  entered-AreOf :
      (c : Context) (name : Str)
      (k : Context → Str → Str → Result Panic (List (MetricHeader f.Float)))
      → ((c' : Context) (id type : Str) → id ≢ [] → AreOf id (k c' id type))
      → build_metric_id c name ≢ []
      → AreOf
          (build_metric_id c name)
          (elim (enter f print e now c name) [ none ↦ ok [] | some (c', id, type) ↦ k c' id type ])
  entered-AreOf c name k h ne = elim (Option-cases (enter f print e now c name)) [
    | inl skipped ↦ rw skipped tt
    | inr (x, is) ↦
        let at = enter-id c name x is in
        rw is (subst (λ id. AreOf id (k x.0 x.1 x.2)) at (h x.0 x.1 x.2 (λ eq. ne (sym at ∙ eq))))
  ]

  build_metric_id-inner :
      (c : Context) (id name : Str)
      → id ≢ []
      → build_metric_id (record c { current_metric_id = id }) name ≡ id
  unfolding build_metric_id
  build_metric_id-inner c [] name ne = absurd (ne refl)
  build_metric_id-inner c (x ∷ id) name ne = refl

  mutual
    unfolding process_json process_array process_items process_fields

    pub process_json-AreOf :
        (c : Context) (name : Str) (v : Value f.Float)
        → build_metric_id c name ≢ []
        → AreOf (build_metric_id c name) (process_json f print e now c name v)
    process_json-AreOf c name (number x) ne =
        entered-AreOf c name
          (λ c' id type. ok (metric f print e now id type x (tags_clone c') ∷ []))
          (λ c' id type ne. (metric-IsOf id type x (tags_clone c'), tt)) ne
    process_json-AreOf c name (text s) ne = tt
    process_json-AreOf c name (bool b) ne =
        entered-AreOf c name
          (λ c' id type.
            ok (metric f print e now id type (if b then f.one else f.zero) (tags_clone c') ∷ []))
          (λ c' id type ne. (metric-IsOf id type (if b then f.one else f.zero) (tags_clone c'), tt))
          ne
    process_json-AreOf c name null ne = tt
    process_json-AreOf c name (array items) ne =
        entered-AreOf c name (λ c' id type. process_array f print e now c' id items)
          (λ c' id type ne. process_array-AreOf c' id items ne) ne
    process_json-AreOf c name (object fields) ne =
        entered-AreOf c name (λ c' id type. process_fields f print e now c' id fields)
          (λ c' id type ne. process_fields-AreOf c' id fields ne) ne

    process_array-AreOf :
        (c : Context) (id : Str) (items : Items f.Float)
        → id ≢ []
        → AreOf id (process_array f print e now c id items)
    process_array-AreOf c id nil ne = tt
    process_array-AreOf c id (item (number x) items) ne =
        statistics-AreOf c id (float_array f print e now (item (number x) items))
    process_array-AreOf c id (item (object fields) items) ne =
        AllSent-append (IsOf e now id) (process_fields f print e now c id fields)
          (process_items f print e now c id items) (process_fields-AreOf c id fields ne)
          (process_items-AreOf c id items ne)
    process_array-AreOf c id (item null items) ne = tt
    process_array-AreOf c id (item (bool b) items) ne = tt
    process_array-AreOf c id (item (text s) items) ne = tt
    process_array-AreOf c id (item (array inner) items) ne = tt

    process_items-AreOf :
        (c : Context) (id : Str) (items : Items f.Float)
        → id ≢ []
        → AreOf id (process_items f print e now c id items)
    process_items-AreOf c id nil ne = tt
    process_items-AreOf c id (item (object fields) items) ne =
        AllSent-append (IsOf e now id) (process_fields f print e now c id fields)
          (process_items f print e now c id items) (process_fields-AreOf c id fields ne)
          (process_items-AreOf c id items ne)
    process_items-AreOf c id (item (number x) items) ne = tt
    process_items-AreOf c id (item null items) ne = tt
    process_items-AreOf c id (item (bool b) items) ne = tt
    process_items-AreOf c id (item (text s) items) ne = tt
    process_items-AreOf c id (item (array inner) items) ne = tt

    process_fields-AreOf :
        (c : Context) (id : Str) (fields : Fields f.Float)
        → id ≢ []
        → AreOf id (process_fields f print e now c id fields)
    process_fields-AreOf c id end ne = tt
    process_fields-AreOf c id (field k v fields) ne =
        AllSent-append (IsOf e now id)
          (process_json f print e now (record c { current_metric_id = id }) k v)
          (process_fields f print e now c id fields)
          (subst
            (λ i. AreOf i (process_json f print e now (record c { current_metric_id = id }) k v))
            (build_metric_id-inner c id k ne)
            (process_json-AreOf (record c { current_metric_id = id }) k v
              (λ eq. ne (sym (build_metric_id-inner c id k ne) ∙ eq))))
          (process_fields-AreOf c id fields ne)
