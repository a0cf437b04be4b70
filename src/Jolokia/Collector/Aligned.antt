-- ===== src/Jolokia/Collector/Aligned.antt =====
-- collector/impl/jolokia_metrics_collector.go: responses and the metrics that they are taken for.
use hawkular_openshift_agent.Base.{
  Str, string_eq, ℕ, ◌≤◌, ◌≡◌, ◌≢◌, inl, inr, refl, ap, ◌∙◌, Option, none, some, List, [], ◌∷◌,
  ◌++◌, map, length, All, All-append, arith, Bool-cases, ok, err,
}
use hawkular_openshift_agent.Values.{Floats}
use hawkular_openshift_agent.Collector.{MonitoredMetric, MetricHeader}
use hawkular_openshift_agent.Jolokia.MetricName.{
  MetricNameParts, NameError, new_metric_name_parts, parse_metric_name_for_jolokia_request,
}
use hawkular_openshift_agent.Jolokia.Response.{Reading, process_jolokia_response_value_object}
use hawkular_openshift_agent.Jolokia.Response.Samples.{IsSample, process-AreSamples}
use hawkular_openshift_agent.Jolokia.Collector.{
  JolokiaRequest, JolokiaResponse, is_success, new_request, no_parts, build_requests,
  index_out_of_range, read_response, read_responses, read_bulk, collect_metrics,
}

module _ (trim_space : Str → Str) where
  -- The metric's name can be read.
  abbrev pub IsReadable : MonitoredMetric → Type 0
  IsReadable m = (new_metric_name_parts trim_space m.name).1 ≡ none

  abbrev pub request_of : MonitoredMetric → JolokiaRequest
  request_of m = (parse_metric_name_for_jolokia_request trim_space m.name new_request).0

  abbrev pub parts_of : MonitoredMetric → MetricNameParts
  parts_of m = (new_metric_name_parts trim_space m.name).0

  build_requests-map :
      (ms : List MonitoredMetric)
      → All IsReadable ms
      → build_requests trim_space ms ≡ (map request_of ms, map parts_of ms)
  unfolding build_requests parse_metric_name_for_jolokia_request
  build_requests-map [] h = refl
  build_requests-map (m ∷ ms) h = ground (arith, build_requests-map ms h.1)

  build_requests-misplaced :
      (bad good : MonitoredMetric) (e : NameError)
      → (new_metric_name_parts trim_space bad.name).1 ≡ some e
      → IsReadable good
      → build_requests trim_space (bad ∷ good ∷ [])
        ≡ (request_of good ∷ [], no_parts ∷ parts_of good ∷ [])
  unfolding build_requests parse_metric_name_for_jolokia_request
  build_requests-misplaced bad good e he hg = ground arith

  build_requests-length :
      (ms : List MonitoredMetric)
      → (length (build_requests trim_space ms).0 ≤ length ms)
        × (length (build_requests trim_space ms).1 ≡ length ms)
  unfolding build_requests
  build_requests-length [] = (omega arith, refl)
  build_requests-length (m ∷ ms) = ground (arith, build_requests-length ms)

  module _ (f : Floats) (now : ℕ) (tenant : Str) where
    -- Each response read for the metric at its place, by that metric's own name.
    abbrev pub zipped :
        List (JolokiaResponse f.Float) → List MonitoredMetric → List (MetricHeader f.Float)
    zipped [] ms = []
    zipped (resp ∷ resps) [] = []
    zipped (resp ∷ resps) (m ∷ ms) =
        read_response f now tenant trim_space resp m (parts_of m) ++ zipped resps ms

    abbrev reading : MonitoredMetric → MetricNameParts → Reading
    reading m ps = record { now = now; tenant_id = tenant; metric = m; parts = ps }

    named :
        (r : Reading) (ms : List (MetricHeader f.Float))
        → All (IsSample r) ms
        → All (λ h. h.id ≡ r.metric.name) ms
    named r [] h = tt
    named r (m ∷ ms) h = (h.0.id, named r ms h.1)

    read_response-named :
        (resp : JolokiaResponse f.Float) (m : MonitoredMetric) (ps : MetricNameParts)
        → All (λ h. h.id ≡ m.name) (read_response f now tenant trim_space resp m ps)
    unfolding read_response
    read_response-named resp m ps = elim (Bool-cases (is_success resp)) [
      | inl good ↦ rw good (
          named (reading m ps)
            (process_jolokia_response_value_object f (reading m ps) trim_space resp.value)
            (process-AreSamples f (reading m ps) trim_space resp.value))
      | inr bad ↦ rw bad tt
    ]

    read_responses-zipped :
        (resps : List (JolokiaResponse f.Float)) (ms : List MonitoredMetric)
        → length resps ≤ length ms
        → read_responses f now tenant trim_space resps ms (map parts_of ms) ≡ ok (zipped resps ms)
    unfolding read_responses
    read_responses-zipped [] ms h = refl
    read_responses-zipped (resp ∷ resps) [] h = absurd (omega arith)
    read_responses-zipped (resp ∷ resps) (m ∷ ms) h =
        rw (read_responses-zipped resps ms (omega arith)) refl

    -- Where every metric's name can be read and the endpoint answers the bulk request, which has one
    -- request for each metric, in order, with no more responses than these, each response is read
    -- for the metric that it answers.
    pub collect_metrics-zipped :
        (send : List JolokiaRequest → Option (List (JolokiaResponse f.Float))) (m : MonitoredMetric)
        (ms : List MonitoredMetric) (resps : List (JolokiaResponse f.Float))
        → All IsReadable (m ∷ ms)
        → send (map request_of (m ∷ ms)) ≡ some resps
        → length resps ≤ length (m ∷ ms)
        → collect_metrics f now tenant trim_space send (m ∷ ms) ≡ ok (zipped resps (m ∷ ms))
    unfolding collect_metrics read_bulk
    collect_metrics-zipped send m ms resps h sent le =
        ap (λ b. read_bulk f now tenant trim_space (send b.0) (m ∷ ms) b.1)
          (build_requests-map (m ∷ ms) h)
        ∙ ap (λ r. read_bulk f now tenant trim_space r (m ∷ ms) (map parts_of (m ∷ ms))) sent
        ∙ read_responses-zipped resps (m ∷ ms) le

    read_responses-in_range :
        (resps : List (JolokiaResponse f.Float)) (ms : List MonitoredMetric)
        (ps : List MetricNameParts)
        → length resps ≤ length ms
        → length ps ≡ length ms
        → (r : List (MetricHeader f.Float)) × (read_responses f now tenant trim_space resps ms ps
            ≡ ok r)
    unfolding read_responses
    read_responses-in_range [] ms ps h e = ([], refl)
    read_responses-in_range (resp ∷ resps) [] ps h e = absurd (omega arith)
    read_responses-in_range (resp ∷ resps) (m ∷ ms) [] h e = absurd (omega arith)
    read_responses-in_range (resp ∷ resps) (m ∷ ms) (p ∷ ps) h e =
        let (r, is) = read_responses-in_range resps ms ps (omega arith) (omega arith) in
        (read_response f now tenant trim_space resp m p ++ r, rw is)

    read_bulk-in_range :
        (given : Option (List (JolokiaResponse f.Float))) (ms : List MonitoredMetric)
        (ps : List MetricNameParts)
        → ((resps : List (JolokiaResponse f.Float)) → given ≡ some resps → length resps ≤ length ms)
        → length ps ≡ length ms
        → read_bulk f now tenant trim_space given ms ps ≢ err index_out_of_range
    unfolding read_bulk
    read_bulk-in_range none ms ps h e = λ eq. cc
    read_bulk-in_range (some resps) ms ps h e =
        let (r, is) = read_responses-in_range resps ms ps (h resps refl) e in λ eq. cc

    -- An endpoint that gives no more responses than it got requests never makes the collector read
    -- behind the end of the metrics, whatever their names: the collection returns its metrics, or
    -- the error of the request.
    pub collect_metrics-in_range :
        (send : List JolokiaRequest → Option (List (JolokiaResponse f.Float)))
        (ms : List MonitoredMetric)
        → ((reqs : List JolokiaRequest) (resps : List (JolokiaResponse f.Float))
            → send reqs ≡ some resps
            → length resps ≤ length reqs)
        → collect_metrics f now tenant trim_space send ms ≢ err index_out_of_range
    unfolding collect_metrics
    collect_metrics-in_range send [] h = λ e. cc
    collect_metrics-in_range send (m ∷ ms) h =
        let (fewer, as_many) = build_requests-length (m ∷ ms) in
        read_bulk-in_range (send (build_requests trim_space (m ∷ ms)).0) (m ∷ ms)
          (build_requests trim_space (m ∷ ms)).1
          (λ resps sent. omega (arith, h (build_requests trim_space (m ∷ ms)).0 resps sent, fewer))
          as_many

    -- Of two metrics of which only the second has a name that can be read, the first takes the
    -- endpoint's one response: everything that is collected has the name of the first metric,
    -- although the endpoint was asked for the second.
    pub collect_metrics-misplaced :
        (send : List JolokiaRequest → Option (List (JolokiaResponse f.Float)))
        (bad good : MonitoredMetric) (resp : JolokiaResponse f.Float) (e : NameError)
        → (new_metric_name_parts trim_space bad.name).1 ≡ some e
        → IsReadable good
        → send (request_of good ∷ []) ≡ some (resp ∷ [])
        → (ms : List (MetricHeader f.Float)) × (collect_metrics f now tenant trim_space send
              (bad ∷ good ∷ [])
            ≡ ok ms)
          × All (λ m. m.id ≡ bad.name) ms
    unfolding collect_metrics read_bulk read_responses
    collect_metrics-misplaced send bad good resp e he hg sent = (
      read_response f now tenant trim_space resp bad no_parts ++ [],
      ap (λ b. read_bulk f now tenant trim_space (send b.0) (bad ∷ good ∷ []) b.1)
            (build_requests-misplaced bad good e he hg)
          ∙ ap
              (λ r.
                read_bulk f now tenant trim_space r (bad ∷ good ∷ [])
                  (no_parts ∷ parts_of good ∷ []))
              sent,
      All-append (λ h. h.id ≡ bad.name) (read_response f now tenant trim_space resp bad no_parts) []
          (read_response-named resp bad no_parts) tt,
    )
