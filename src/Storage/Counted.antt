-- ===== src/Storage/Counted.antt =====
-- storage/metrics_storage.go: the messages of metrics, and the agent's count of their datapoints.
use hawkular_openshift_agent.Base.{
  Str, string_eq, ◌+◌, Bool, true, false, ◌≡◌, ◌≢◌, ◌⊎◌, inl, inr, refl, sym, List, [], ◌∷◌, ◌++◌,
  length, arith,
}
use mathlib.Core.Path.{subst}
use hawkular_openshift_agent.Collector.{MetricHeader, Datapoint}
use hawkular_openshift_agent.Base.{length-append}
use hawkular_openshift_agent.Storage.{
  Client, Storing, tenant_of, data_points, count_written, consume, consume_metrics,
}

-- The tenant that a message is written under.
abbrev IsTenant : Str → Str → Str → Type 0
IsTenant global own tenant = ((own ≢ []) × (tenant ≡ own)) ⊎ ((own ≡ []) × (tenant ≡ global))

tenant_of-IsTenant : (global own : Str) → IsTenant global own (tenant_of global own)
unfolding tenant_of
tenant_of-IsTenant global [] = inr (refl, refl)
tenant_of-IsTenant global (x ∷ own) = inl ((λ e. cc), refl)

module _ {V : Type 0} where
  -- All datapoints of a message, and of several.
  abbrev pub points : List (MetricHeader V) → List (Datapoint V)
  points [] = []
  points (m ∷ ms) = m.samples ++ points ms

  abbrev pub all_points : List (List (MetricHeader V)) → List (Datapoint V)
  all_points [] = []
  all_points (message ∷ messages) = points message ++ all_points messages

  data_points-points : (ms : List (MetricHeader V)) → data_points ms ≡ length (points ms)
  unfolding data_points
  data_points-points [] = refl
  data_points-points (m ∷ ms) =
      omega (arith, length-append m.samples (points ms), data_points-points ms)

module _ {V : Type 0} (c : Client V) (global : Str) where
  -- `Delivers s messages taken s'`: when the messages reach the server one by one, each once, from
  -- the state s on, the server takes those of `taken`, refuses the others, and is in state s' then.
  -- An empty message does not reach it.
  pub data Delivers
      : c.State
        → List (List (MetricHeader V))
        → List (List (MetricHeader V))
        → c.State
        → Type 0 where
    all_done : (s : c.State) → Delivers s [] [] s
    passed_over :
        (s s' : c.State) (messages taken : List (List (MetricHeader V)))
        → Delivers s messages taken s'
        → Delivers s ([] ∷ messages) taken s'
    is_taken :
        (s s1 s' : c.State) (m : MetricHeader V) (ms : List (MetricHeader V)) (tenant : Str)
        (messages taken : List (List (MetricHeader V)))
        → IsTenant global m.tenant tenant
        → c.write s tenant (m ∷ ms) ≡ (s1, false)
        → Delivers s1 messages taken s'
        → Delivers s ((m ∷ ms) ∷ messages) ((m ∷ ms) ∷ taken) s'
    is_refused :
        (s s1 s' : c.State) (m : MetricHeader V) (ms : List (MetricHeader V)) (tenant : Str)
        (messages taken : List (List (MetricHeader V)))
        → IsTenant global m.tenant tenant
        → c.write s tenant (m ∷ ms) ≡ (s1, true)
        → Delivers s1 messages taken s'
        → Delivers s ((m ∷ ms) ∷ messages) taken s'

  -- What is claimed of the messages that begin at a state.
  abbrev pub IsCounted : Storing c → List (List (MetricHeader V)) → Storing c → Type 0
  IsCounted st messages st' =
      (taken : List (List (MetricHeader V))) × Delivers st.server messages taken st'.server
      × (st'.data_points_stored ≡ st.data_points_stored + length (all_points taken))

  consume-taken :
      (st : Storing c) (m : MetricHeader V) (ms : List (MetricHeader V)) (s1 : c.State)
      → c.write st.server (tenant_of global m.tenant) (m ∷ ms) ≡ (s1, false)
      → consume c global st (m ∷ ms) ≡ record {
        server = s1;
        data_points_stored = st.data_points_stored + length (points (m ∷ ms));
      }
  unfolding consume count_written
  consume-taken st m ms s1 h = rw (h, data_points-points (m ∷ ms), consume) refl

  consume-refused :
      (st : Storing c) (m : MetricHeader V) (ms : List (MetricHeader V)) (s1 : c.State)
      → c.write st.server (tenant_of global m.tenant) (m ∷ ms) ≡ (s1, true)
      → consume c global st (m ∷ ms)
        ≡ record { server = s1; data_points_stored = st.data_points_stored }
  unfolding consume count_written
  consume-refused st m ms s1 h = rw (h, consume) refl

  write-cases :
      (o : c.State × Bool)
      → ((s1 : c.State) × (o ≡ (s1, false))) ⊎ ((s1 : c.State) × (o ≡ (s1, true)))
  write-cases (s1, false) = inl (s1, refl)
  write-cases (s1, true) = inr (s1, refl)

  -- Each message of metrics that is not empty is written once, in order, under the tenant of its
  -- first metric, or the global one if that has none; and the agent's own metric grows by the number
  -- of the datapoints in the messages that the server took, whatever it takes and refuses.
  pub consume_metrics-IsCounted :
      (messages : List (List (MetricHeader V))) (st : Storing c)
      → IsCounted st messages (consume_metrics c global st messages)
  unfolding consume_metrics consume
  consume_metrics-IsCounted [] st = ([], all_done st.server, omega arith)
  consume_metrics-IsCounted ([] ∷ messages) st =
      let (taken, delivers, counted) = consume_metrics-IsCounted messages st in
      (taken, passed_over st.server _ messages taken delivers, counted)
  consume_metrics-IsCounted ((m ∷ ms) ∷ messages) st =
      let tenant = tenant_of global m.tenant in
      let is_tenant = tenant_of-IsTenant global m.tenant in
      elim (write-cases (c.write st.server tenant (m ∷ ms))) [
        | inl (s1, took) ↦
            let st1 : Storing c = record {
              server = s1;
              data_points_stored = st.data_points_stored + length (points (m ∷ ms));
            } in
            let (taken, delivers, counted) = consume_metrics-IsCounted messages st1 in
            subst (λ r. IsCounted st ((m ∷ ms) ∷ messages) (consume_metrics c global r messages))
              (sym (consume-taken st m ms s1 took))
              (
                (m ∷ ms) ∷ taken,
                is_taken st.server s1 _ m ms tenant messages taken is_tenant took delivers,
                omega (arith, counted, length-append (points (m ∷ ms)) (all_points taken)),
              )
        | inr (s1, refused) ↦
            let st1 : Storing c = record {
              server = s1;
              data_points_stored = st.data_points_stored;
            } in
            let (taken, delivers, counted) = consume_metrics-IsCounted messages st1 in
            subst (λ r. IsCounted st ((m ∷ ms) ∷ messages) (consume_metrics c global r messages))
              (sym (consume-refused st m ms s1 refused))
              (
                taken,
                is_refused st.server s1 _ m ms tenant messages taken is_tenant refused delivers,
                counted,
              )
      ]
