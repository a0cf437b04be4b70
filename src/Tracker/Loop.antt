-- ===== src/Tracker/Loop.antt =====
-- The loop of AddMetricsFromCollector: what it adds, what it returns as overflow, and the count.
use hawkular_openshift_agent.Base.{
  Str, string_eq, ℕ, ◌+◌, ◌≤◌, ◌≡◌, refl, ◌⊎◌, inl, inr, ℤ, pos, negsuc, count_lt, room, true,
  false, List, [], ◌∷◌, length, In, In-append_left, In-append_right, In-append_cases, str_eq_refl,
  All, All-append, arith, Bool-cases,
}
use hawkular_openshift_agent.Base.Map
use hawkular_openshift_agent.Base.Map.{IsMap, has-put, get-none, length-put_new, put-IsMap}
use hawkular_openshift_agent.Collector.{MetricHeader}
use hawkular_openshift_agent.Tracker.{Adding, add_one, add_each}

count_lt-room : (n : ℕ) (max : ℤ) → count_lt n max ≡ true → n + 1 ≤ room max
count_lt-room n (pos m) h = ground arith
count_lt-room n (negsuc m) h = cc

module _ {V : Type 0} where
  -- What holds of the loop's variables: the count never passes the limit by the loop's doing, a
  -- metric of the overflow is not in the map, and there is overflow only when the limit is reached.
  pub record IsAdding (max : ℤ) (a : Adding V) : Type 0 where
    pub rejected : All (λ m. Map.has a.endpoint_metrics m.id ≡ false) a.overflow
    pub full : (a.overflow ≡ []) ⊎ (count_lt a.count max ≡ false)
    pub is_map : IsMap a.endpoint_metrics

  none_rejected :
      (max : ℤ) (a : Adding V) → IsAdding max a → count_lt a.count max ≡ true → a.overflow ≡ []
  none_rejected max a v h = ground arith

  add_one-IsAdding :
      (max : ℤ) (m : MetricHeader V) (a : Adding V)
      → IsAdding max a
      → IsAdding max (add_one max m a)
  unfolding add_one
  add_one-IsAdding max m a v = elim (Bool-cases (Map.has a.endpoint_metrics m.id)) [
    | inl old ↦ rw (old, add_one) v
    | inr new ↦ elim (Bool-cases (count_lt a.count max)) [
      | inl below ↦
          rw (new, below, add_one)
            record {
              rejected = rw (none_rejected max a v below) tt;
              full = inl (none_rejected max a v below);
              is_map = put-IsMap a.endpoint_metrics m.id true v.is_map;
            }
      | inr full ↦
          rw (new, full, add_one)
            record {
              rejected = All-append _ a.overflow (m ∷ []) v.rejected (new, tt);
              full = inr full;
              is_map = v.is_map;
            }
    ]
  ]

  pub add_each-IsAdding :
      (max : ℤ) (ms : List (MetricHeader V)) (a : Adding V)
      → IsAdding max a
      → IsAdding max (add_each max ms a)
  unfolding add_each
  add_each-IsAdding max [] a v = v
  add_each-IsAdding max (m ∷ ms) a v =
      add_each-IsAdding max ms (add_one max m a) (add_one-IsAdding max m a v)

  add_one-count :
      (max : ℤ) (m : MetricHeader V) (a : Adding V)
      → (add_one max m a).count + length a.endpoint_metrics
        ≡ a.count + length (add_one max m a).endpoint_metrics
  unfolding add_one
  add_one-count max m a =
      ground (arith, get-none a.endpoint_metrics m.id, length-put_new a.endpoint_metrics m.id true)

  -- The count grows with the map.
  pub add_each-count :
      (max : ℤ) (ms : List (MetricHeader V)) (a : Adding V)
      → (add_each max ms a).count + length a.endpoint_metrics
        ≡ a.count + length (add_each max ms a).endpoint_metrics
  unfolding add_each
  add_each-count max [] a = refl
  add_each-count max (m ∷ ms) a =
      omega (arith, add_one-count max m a, add_each-count max ms (add_one max m a))

  add_one-room :
      (max : ℤ) (m : MetricHeader V) (a : Adding V)
      → ((add_one max m a).count ≡ a.count) ⊎ ((add_one max m a).count ≤ room max)
  unfolding add_one
  add_one-room max m a = ground (arith, count_lt-room a.count max)

  -- The loop stops counting at the limit.
  pub add_each-room :
      (max : ℤ) (ms : List (MetricHeader V)) (a : Adding V)
      → ((add_each max ms a).count ≡ a.count) ⊎ ((add_each max ms a).count ≤ room max)
  unfolding add_each
  add_each-room max [] a = inl refl
  add_each-room max (m ∷ ms) a =
      ground (arith, add_one-room max m a, add_each-room max ms (add_one max m a))

  add_one-keeps :
      (max : ℤ) (m : MetricHeader V) (a : Adding V) (k : Str)
      → Map.has a.endpoint_metrics k ≡ true
      → Map.has (add_one max m a).endpoint_metrics k ≡ true
  unfolding add_one
  add_one-keeps max m a k h = ground (arith, has-put a.endpoint_metrics m.id k true)

  -- What is tracked stays tracked.
  pub add_each-keeps :
      (max : ℤ) (ms : List (MetricHeader V)) (a : Adding V) (k : Str)
      → Map.has a.endpoint_metrics k ≡ true
      → Map.has (add_each max ms a).endpoint_metrics k ≡ true
  unfolding add_each
  add_each-keeps max [] a k h = h
  add_each-keeps max (m ∷ ms) a k h =
      add_each-keeps max ms (add_one max m a) k (add_one-keeps max m a k h)

  add_one-overflow :
      (max : ℤ) (m x : MetricHeader V) (a : Adding V)
      → In x a.overflow
      → In x (add_one max m a).overflow
  unfolding add_one
  add_one-overflow max m x a h = ground (arith, In-append_left x a.overflow (m ∷ []))

  pub add_each-overflow :
      (max : ℤ) (ms : List (MetricHeader V)) (x : MetricHeader V) (a : Adding V)
      → In x a.overflow
      → In x (add_each max ms a).overflow
  unfolding add_each
  add_each-overflow max [] x a h = h
  add_each-overflow max (m ∷ ms) x a h =
      add_each-overflow max ms x (add_one max m a) (add_one-overflow max m x a h)

  -- A metric is tracked after its turn, or it is in the overflow.
  add_one_places :
      (max : ℤ) (m : MetricHeader V) (a : Adding V)
      → (Map.has (add_one max m a).endpoint_metrics m.id ≡ true) ⊎ In m (add_one max m a).overflow
  unfolding add_one
  add_one_places max m a = ground (
    arith,
    has-put a.endpoint_metrics m.id m.id true,
    str_eq_refl m.id,
    In-append_right m a.overflow (m ∷ []),
  )

  pub add_each_places :
      (max : ℤ) (ms : List (MetricHeader V)) (a : Adding V) (m : MetricHeader V)
      → In m ms
      → (Map.has (add_each max ms a).endpoint_metrics m.id ≡ true)
        ⊎ In m (add_each max ms a).overflow
  unfolding add_each
  add_each_places max [] a m h = elim h [ ]
  add_each_places max (x ∷ ms) a m (inl e) = elim (add_one_places max x a) [
    | inl t ↦ inl (rw e (add_each-keeps max ms (add_one max x a) x.id t))
    | inr o ↦ inr (rw e (add_each-overflow max ms x (add_one max x a) o))
  ]
  add_each_places max (x ∷ ms) a m (inr h) = add_each_places max ms (add_one max x a) m h

  add_one-overflow_from :
      (max : ℤ) (m x : MetricHeader V) (a : Adding V)
      → In x (add_one max m a).overflow
      → In x a.overflow ⊎ (x ≡ m)
  unfolding add_one
  add_one-overflow_from max m x a h = ground (arith, In-append_cases x a.overflow (m ∷ []))

  -- The overflow holds metrics that were given to the loop.
  pub add_each-overflow_from :
      (max : ℤ) (ms : List (MetricHeader V)) (x : MetricHeader V) (a : Adding V)
      → In x (add_each max ms a).overflow
      → In x a.overflow ⊎ In x ms
  unfolding add_each
  add_each-overflow_from max [] x a h = inl h
  add_each-overflow_from max (m ∷ ms) x a h =
      elim (add_each-overflow_from max ms x (add_one max m a) h) [
        | inl before ↦ ground (arith, add_one-overflow_from max m x a before)
        | inr after ↦ inr (inr after)
      ]
