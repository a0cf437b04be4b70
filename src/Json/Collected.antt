-- ===== src/Json/Collected.antt =====
-- collector/impl/json_metrics_collector.go: the metrics that the goroutine has taken.
use hawkular_openshift_agent.Base.{
  Str, str_eq_iff, string_eq, Bool, true, false, ◌≡◌, ◌↔◌, inl, inr, refl, sym, ap, List, [], ◌∷◌,
  ◌++◌, map, In, In-append_cases, In-append_left, In-append_right, arith, Bool-cases,
  In-append_cases, In-append_left, In-append_right,
}
use hawkular_openshift_agent.Base.Map
use hawkular_openshift_agent.Base.Map.{Map, has-put}
use hawkular_openshift_agent.Collector.{MetricHeader}
use hawkular_openshift_agent.Json.Collection.{
  unique_key, Collected, add_new, take_metric, take_metrics, drop_last, returned,
}

module _ {A : Type 0} where
  abbrev pub Distinct : List A → Type 0
  Distinct [] = Unit
  Distinct (x ∷ xs) = (In x xs → ⊥) × Distinct xs

  Distinct-add : (xs : List A) (x : A) → Distinct xs → (In x xs → ⊥) → Distinct (xs ++ x ∷ [])
  Distinct-add [] x d n = ((λ i. i), tt)
  Distinct-add (y ∷ xs) x (ny, d) n = (
    (λ i. elim (In-append_cases y xs (x ∷ []) i) [
      | inl old ↦ ny old
      | inr (inl same) ↦ n (inl (sym same))
      | inr (inr no_more) ↦ no_more
    ]),
    Distinct-add xs x d (λ i. n (inr i)),
  )

known_add :
    (existing : Map Str Bool) (ks : List Str) (key k : Str)
    → (Map.has existing k ≡ true) ↔ In k ks
    → (Map.has (Map.put existing key true) k ≡ true) ↔ In k (ks ++ key ∷ [])
known_add existing ks key k h = ground (
  arith,
  has-put existing key k true,
  str_eq_iff key k,
  In-append_left k ks (key ∷ []),
  In-append_right k ks (key ∷ []),
  In-append_cases k ks (key ∷ []),
)

module _ {V : Type 0} where
  -- The key of a metric: its id with the tags of its first datapoint.
  abbrev pub key_of : MetricHeader V → Str
  key_of m = elim m.samples [ [] ↦ m.id | d ∷ ds ↦ unique_key m.id d ]

  abbrev pub keys_of : List (MetricHeader V) → List Str
  keys_of = map key_of

  abbrev pub has_data : MetricHeader V → Bool
  has_data m = elim m.samples [ [] ↦ false | d ∷ ds ↦ true ]

  keys_of-append : (ms ns : List (MetricHeader V)) → keys_of (ms ++ ns) ≡ keys_of ms ++ keys_of ns
  keys_of-append [] ns = refl
  keys_of-append (m ∷ ms) ns = ap (λ ks. key_of m ∷ ks) (keys_of-append ms ns)

  record IsOnce (st : Collected V) : Type 0 where
    distinct : Distinct (keys_of st.metrics)
    known : (k : Str) → (Map.has st.existing k ≡ true) ↔ In k (keys_of st.metrics)

  take_metric-known :
      (st : Collected V) (m : MetricHeader V)
      → has_data m ≡ true
      → take_metric st m ≡ add_new st m (key_of m)
  unfolding take_metric
  take_metric-known st m h = ground arith

  take_metric-skips :
      (st : Collected V) (m : MetricHeader V) → has_data m ≡ false → take_metric st m ≡ st
  unfolding take_metric
  take_metric-skips st m h = ground arith

  add_new-IsOnce :
      (st : Collected V) (m : MetricHeader V) → IsOnce st → IsOnce (add_new st m (key_of m))
  unfolding add_new
  add_new-IsOnce st m o = elim (Bool-cases (Map.has st.existing (key_of m))) [
    | inl old ↦ rw (old, add_new) o
    | inr new ↦
        rw (new, add_new)
          (record {
            distinct = rw (keys_of-append st.metrics (m ∷ [])) (
                Distinct-add (keys_of st.metrics) (key_of m) o.distinct
                  (λ i. cc ((o.known (key_of m)).1 i)));
            known = λ k.
                rw (keys_of-append st.metrics (m ∷ []))
                  (known_add st.existing (keys_of st.metrics) (key_of m) k (o.known k));
          })
  ]

  take_metric-IsOnce :
      (st : Collected V) (m : MetricHeader V) → IsOnce st → IsOnce (take_metric st m)
  take_metric-IsOnce st m o = elim (Bool-cases (has_data m)) [
    | inl has ↦ rw (take_metric-known st m has) (add_new-IsOnce st m o)
    | inr empty ↦ rw (take_metric-skips st m empty) o
  ]

  take_metrics-IsOnce :
      (ms : List (MetricHeader V)) (st : Collected V) → IsOnce st → IsOnce (take_metrics st ms)
  unfolding take_metrics
  take_metrics-IsOnce [] st o = o
  take_metrics-IsOnce (m ∷ ms) st o =
      take_metrics-IsOnce ms (take_metric st m) (take_metric-IsOnce st m o)

  -- What is kept stays, and a new metric's key is there.
  take_metric-grows :
      (st : Collected V) (m : MetricHeader V) (k : Str)
      → In k (keys_of st.metrics)
      → In k (keys_of (take_metric st m).metrics)
  unfolding add_new
  take_metric-grows st m k i = elim (Bool-cases (has_data m)) [
    | inr empty ↦ rw (take_metric-skips st m empty) i
    | inl has ↦
        rw (take_metric-known st m has) (elim (Bool-cases (Map.has st.existing (key_of m))) [
          | inl old ↦ rw (old, add_new) i
          | inr new ↦
              rw (new, add_new, keys_of-append st.metrics (m ∷ []))
                (In-append_left k (keys_of st.metrics) (keys_of (m ∷ [])) i)
        ])
  ]

  take_metric-has :
      (st : Collected V) (m : MetricHeader V)
      → IsOnce st
      → has_data m ≡ true
      → In (key_of m) (keys_of (take_metric st m).metrics)
  unfolding add_new
  take_metric-has st m o has =
      rw (take_metric-known st m has) (elim (Bool-cases (Map.has st.existing (key_of m))) [
        | inl old ↦ rw (old, add_new) ((o.known (key_of m)).0 old)
        | inr new ↦
            rw (new, add_new, keys_of-append st.metrics (m ∷ []))
              (In-append_right (key_of m) (keys_of st.metrics) (keys_of (m ∷ [])) (inl refl))
      ])

  take_metrics-grows :
      (ms : List (MetricHeader V)) (st : Collected V) (k : Str)
      → In k (keys_of st.metrics)
      → In k (keys_of (take_metrics st ms).metrics)
  unfolding take_metrics
  take_metrics-grows [] st k i = i
  take_metrics-grows (m ∷ ms) st k i =
      take_metrics-grows ms (take_metric st m) k (take_metric-grows st m k i)

  take_metrics-has :
      (ms : List (MetricHeader V)) (st : Collected V) (m : MetricHeader V)
      → IsOnce st
      → In m ms
      → has_data m ≡ true
      → In (key_of m) (keys_of (take_metrics st ms).metrics)
  unfolding take_metrics
  take_metrics-has [] st m o i has = elim i [ ]
  take_metrics-has (n ∷ ms) st m o (inl here) has =
      take_metrics-grows ms (take_metric st n) (key_of m) (rw (← here) (take_metric-has st m o has))
  take_metrics-has (n ∷ ms) st m o (inr later) has =
      take_metrics-has ms (take_metric st n) m (take_metric-IsOnce st n o) later has

  -- When the goroutine has handled all that was sent, no two metrics of the result have the same
  -- key, and each metric that was sent and has data has its key in the result.
  pub returned-once :
      (sent : List (MetricHeader V))
      → Distinct (keys_of (returned false sent))
        × ((m : MetricHeader V)
            → In m sent
            → has_data m ≡ true
            → In (key_of m) (keys_of (returned false sent)))
  unfolding returned Map.has Map.get
  returned-once sent =
      let o : IsOnce (record { metrics = []; existing = [] }) = record {
        distinct = tt;
        known = λ k. ground arith;
      } in
      (
        (take_metrics-IsOnce sent (record { metrics = []; existing = [] }) o).distinct,
        λ m i has. take_metrics-has sent (record { metrics = []; existing = [] }) m o i has,
      )

  drop_last-append :
      (ms : List (MetricHeader V)) (m : MetricHeader V) → drop_last (ms ++ m ∷ []) ≡ ms
  unfolding drop_last
  drop_last-append [] m = refl
  drop_last-append (x ∷ []) m = refl
  drop_last-append (x ∷ y ∷ ms) m = ap (λ r. x ∷ r) (drop_last-append (y ∷ ms) m)

  -- When the goroutine is behind, the metric that was sent last is not in the result: it is as if
  -- it had not been sent.
  pub returned-loses :
      (sent : List (MetricHeader V)) (last : MetricHeader V)
      → returned true (sent ++ last ∷ []) ≡ returned false sent
  unfolding returned
  returned-loses sent last =
      ap (λ ms. (take_metrics (record { metrics = []; existing = [] }) ms).metrics)
        (drop_last-append sent last)
