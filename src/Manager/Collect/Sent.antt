-- ===== src/Manager/Collect/Sent.antt =====
-- Which metrics a collection sends, and which definitions it asks for.
use hawkular_openshift_agent.Base.{
  Str, ◌||◌, ◌&&◌, str_eq_refl, str_ne_lem, str_eq, str_eq_iff, string_eq, Bool, true, false, not,
  ◌≡◌, ◌≢◌, ◌↔◌, inl, inr, refl, Bool-cases, Option-cases, List, [], ◌∷◌, ◌++◌, keep, In, In-keep,
  keep-In, arith,
}
use hawkular_openshift_agent.Base.Map
use hawkular_openshift_agent.Base.Map.{Map, has-put, has-delete}
use hawkular_openshift_agent.Collector.{CollectorId, Datapoint, MetricHeader, MonitoredMetric}
use hawkular_openshift_agent.Tracker.{MetricsTracker, add_metrics_from_collector}
use hawkular_openshift_agent.Tracker.Invariant.{IsValid}
use hawkular_openshift_agent.Tracker.Overflow.{tracked, overflow_exact}
use hawkular_openshift_agent.Manager.Collect.{
  Ticking, Sorting, gather, combined, sort_metrics, sort_one, sort_known, split_each, split_one,
  need, is_doomed, delete_all, full_id, default_split, monitored_metric, with_datapoint_tags,
}

-- Some metric of the list has the id.
pub has_id : {V : Type 0} → Str → List (MetricHeader V) → Bool
has_id k [] = false
has_id k (m ∷ ms) = str_eq m.id k || has_id k ms

module _ {V : Type 0} where
  has_id-append :
      (k : Str) (xs ys : List (MetricHeader V)) → has_id k (xs ++ ys) ≡ (has_id k xs || has_id k ys)
  unfolding has_id
  has_id-append k [] ys = refl
  has_id-append k (x ∷ xs) ys = ground (arith, has_id-append k xs ys)

  has_id-keep :
      (k : Str) (xs : List (MetricHeader V))
      → str_eq k [] ≡ false
      → has_id k (keep (λ m. not (str_eq m.id [])) xs) ≡ has_id k xs
  unfolding has_id keep
  has_id-keep k [] h = refl
  has_id-keep k (x ∷ xs) h =
      ground (arith, has_id-keep k xs h, str_eq_iff x.id k, str_eq_iff x.id [])

  has_id_lem :
      (k : Str) (xs : List (MetricHeader V))
      → has_id k xs ≡ true
      → (m : MetricHeader V) × In m xs × (m.id ≡ k)
  unfolding has_id
  has_id_lem k [] h = cc
  has_id_lem k (x ∷ xs) h = elim (Bool-cases (str_eq x.id k)) [
    | inl same ↦ (x, inl refl, (str_eq_iff x.id k).0 same)
    | inr differs ↦ let (m, i, e) = has_id_lem k xs (rw differs at h) in (m, inr i, e)
  ]

  In-has_id : (m : MetricHeader V) (xs : List (MetricHeader V)) → In m xs → has_id m.id xs ≡ true
  unfolding has_id
  In-has_id m [] h = elim h [ ]
  In-has_id m (x ∷ xs) (inl e) = rw e (ground (arith, str_eq_refl x.id))
  In-has_id m (x ∷ xs) (inr h) = ground (arith, In-has_id m xs h)

  is_doomed-has_id :
      (m : MetricHeader V) (o : List (MetricHeader V)) → is_doomed m o ≡ has_id m.id o
  unfolding is_doomed has_id
  is_doomed-has_id m [] = refl
  is_doomed-has_id m (x ∷ o) = ground (arith, is_doomed-has_id m o)

  has-delete_all :
      (needed : Map Str MonitoredMetric) (o : List (MetricHeader V)) (k : Str)
      → Map.has (delete_all needed o) k ≡ (Map.has needed k && not (has_id k o))
  unfolding delete_all has_id
  has-delete_all needed [] k = ground arith
  has-delete_all needed (x ∷ o) k =
      ground (arith, has-delete_all (Map.delete needed x.id) o k, has-delete needed x.id k)

  -- A metric is left over by the limit exactly if its id is not tracked afterwards.
  has_id-overflow :
      (mt : MetricsTracker) (id : CollectorId) (ms : List (MetricHeader V)) (m : MetricHeader V)
      → IsValid mt
      → In m ms
      → has_id m.id (add_metrics_from_collector mt id ms).1
        ≡ not (tracked (add_metrics_from_collector mt id ms).0 id m.id)
  has_id-overflow mt id ms m v i =
      elim (Bool-cases (has_id m.id (add_metrics_from_collector mt id ms).1)) [
        | inl over ↦
            let (o, io, e) = has_id_lem m.id (add_metrics_from_collector mt id ms).1 over in
            let (_, untracked) = (overflow_exact mt id ms v o).0 io in
            ground (arith, rw e at untracked)
        | inr kept ↦ elim (Bool-cases (tracked (add_metrics_from_collector mt id ms).0 id m.id)) [
          | inl is ↦ ground arith
          | inr not_tracked ↦ ground (
            arith,
            In-has_id m (add_metrics_from_collector mt id ms).1
                ((overflow_exact mt id ms v m).1 (i, not_tracked)),
          )
        ]
      ]

module _ (t : Ticking) {V : Type 0} (declared : Map Str MonitoredMetric) where
  abbrev pub sorted : List (MetricHeader V) → Sorting V
  sorted ms = sort_metrics t declared ms (record { collected = []; all_split = []; needed = [] })

  -- On a valid tracker, the metrics that one collection sends to the storage are exactly those of
  -- the known and the split metrics whose id the tracker tracks for the endpoint afterwards.
  pub gather_sent :
      (mt : MetricsTracker) (id : CollectorId) (ms : List (MetricHeader V)) (m : MetricHeader V)
      → IsValid mt
      → In m (gather t declared mt id ms).sent ↔ (
          In m (combined t declared (sorted ms))
          × (tracked (gather t declared mt id ms).tracker id m.id ≡ true))
  unfolding gather
  gather_sent mt id ms m v =
      let all = combined t declared (sorted ms) in
      let overflow = (add_metrics_from_collector mt id all).1 in
      let stays : MetricHeader V → Bool = λ n. not (is_doomed n overflow) in
      (
        λ h.
            let (i, kept) = In-keep stays m all h in
            (i, ground (arith, is_doomed-has_id m overflow, has_id-overflow mt id all m v i)),
        λ (i, is).
            keep-In stays m all i
              (ground (arith, is_doomed-has_id m overflow, has_id-overflow mt id all m v i)),
      )

  split_each-needed :
      (m : MetricHeader V) (mm : MonitoredMetric) (id : Str) (ds : List (Datapoint V))
      (needed : Map Str MonitoredMetric) (k : Str)
      → Map.has (split_each t declared m mm id ds needed).1 k ≡ true
      → (Map.has needed k || has_id k (split_each t declared m mm id ds needed).0) ≡ true
  unfolding split_each has_id need
  split_each-needed m mm id [] needed k h = ground arith
  split_each-needed m mm id (d ∷ ds) needed k h =
      let s = split_one t.os m id d in
      let def = with_datapoint_tags mm d.tags in
      ground (
        arith,
        split_each-needed m mm id ds (need declared s.id def needed) k,
        has-put needed s.id k def,
      )

  -- Every definition that is needed has a metric, known or split.
  abbrev IsCovered : Sorting V → Type 0
  IsCovered st =
      (k : Str)
      → str_eq k [] ≡ false
      → Map.has st.needed k ≡ true
      → (has_id k st.collected || has_id k st.all_split) ≡ true

  sort_one-IsCovered :
      (m : MetricHeader V) (st : Sorting V) → IsCovered st → IsCovered (sort_one t declared m st)
  unfolding sort_one sort_known need has_id
  sort_one-IsCovered m st c k ne = elim (Option-cases (monitored_metric t.metrics m)) [
    | inl unknown ↦
        rw (unknown, sort_one)
          (ground (arith, has_id-append k st.collected (record m { id = [] } ∷ []), c k ne))
    | inr (mm, known) ↦
        let id = default_split (full_id t mm) m.samples in
        rw (known, sort_one)
          (ground (
            arith,
            has_id-append k st.collected (record m { id = [] } ∷ []),
            has_id-append k st.collected (record m { id = id } ∷ []),
            has_id-append k st.all_split (split_each t declared m mm id m.samples st.needed).0,
            split_each-needed m mm id m.samples st.needed k,
            has-put st.needed id k mm,
            c k ne,
          ))
  ]

  sort_metrics-IsCovered :
      (ms : List (MetricHeader V)) (st : Sorting V)
      → IsCovered st
      → IsCovered (sort_metrics t declared ms st)
  unfolding sort_metrics
  sort_metrics-IsCovered [] st c = c
  sort_metrics-IsCovered (m ∷ ms) st c =
      sort_metrics-IsCovered ms (sort_one t declared m st) (sort_one-IsCovered m st c)

  sorted-IsCovered : (ms : List (MetricHeader V)) → IsCovered (sorted ms)
  unfolding Map.has Map.get
  sorted-IsCovered ms = sort_metrics-IsCovered ms _ (λ k ne h. cc)

  combined-has_id :
      (ms : List (MetricHeader V)) (k : Str)
      → str_eq k [] ≡ false
      → Map.has (sorted ms).needed k ≡ true
      → has_id k (combined t declared (sorted ms)) ≡ true
  unfolding combined
  combined-has_id ms k ne h =
      let st = sorted ms in
      let known = keep (λ m. not (str_eq m.id [])) st.collected in
      ground (
        arith,
        has_id-append k known st.all_split,
        has_id-keep k st.collected ne,
        sorted-IsCovered ms k ne,
      )

  -- On a valid tracker, a definition that is still needed after a collection, of an id that is not
  -- empty, is the definition of a metric that the collection sends and that the tracker tracks.
  pub gather_needed :
      (mt : MetricsTracker) (id : CollectorId) (ms : List (MetricHeader V)) (k : Str)
      → IsValid mt
      → k ≢ []
      → Map.has (gather t declared mt id ms).needed k ≡ true
      → (m : MetricHeader V) × In m (gather t declared mt id ms).sent
        × (m.id ≡ k)
        × (tracked (gather t declared mt id ms).tracker id k ≡ true)
  gather_needed mt id ms k v ne h =
      let all = combined t declared (sorted ms) in
      let overflow = (add_metrics_from_collector mt id all).1 in
      let split = has-delete_all (sorted ms).needed overflow k in
      let deleted : (Map.has (sorted ms).needed k && not (has_id k overflow)) ≡ true =
        unfold gather in ground (arith, split, h) in
      let (m, i, e) =
        has_id_lem k all (combined-has_id ms k (str_ne_lem k [] ne) (ground (arith, deleted))) in
      let is : tracked (gather t declared mt id ms).tracker id m.id ≡ true =
        unfold gather in ground (arith, has_id-overflow mt id all m v i, deleted) in
      (m, (gather_sent mt id ms m v).1 (i, is), e, rw e at is)
