-- ===== src/Jolokia/Collector.antt =====
-- collector/impl/jolokia_metrics_collector.go, with the requests of jolokia/jolokia_request.go and
-- the responses of jolokia/jolokia_response.go. `send` is SendRequests: the responses that the
-- endpoint gives to a bulk request, or none after an error.
pub mod Aligned
mod Tests
use hawkular_openshift_agent.Base.{
  Str, String, codes, str_eq, str_eq_iff, str_eq_refl, string_eq, ℕ, zero, suc, ◌+◌, ◌-◌, ◌≤◌, ◌<◌,
  ◌==◌, ==_iff, ltb, leb, ℤ, pos, Bool, true, false, not, ◌&&◌, ◌||◌, ◌≡◌, ◌≢◌, ◌↔◌, ◌⊎◌, inl, inr,
  refl, sym, ap, ◌∙◌, Option, Option-cases, none, some, is_some, List, [], ◌∷◌, ◌++◌, append_assoc,
  append-nil, map, length, All, All-append, In, arith, Bool-cases, if◌then◌else◌, Result, ok, err,
  ◌>>=◌,
}
use hawkular_openshift_agent.Base.Map
use hawkular_openshift_agent.Base.Map.{Map}
use hawkular_openshift_agent.Values.{Floats, Value}
use hawkular_openshift_agent.Collector.{MonitoredMetric, MetricHeader, MetricDetails}
use hawkular_openshift_agent.Jolokia.MetricName.{
  Target, MetricNameParts, NameError, new_metric_name_parts, parse_metric_name_for_jolokia_request,
}
use hawkular_openshift_agent.Jolokia.Response.{Reading, process_jolokia_response_value_object}

-- A read request is what its metric name makes it.
abbrev pub JolokiaRequest : Type 0
JolokiaRequest = Target

pub record JolokiaResponse (F : Type 0) : Type 0 where
  pub status : ℕ
  pub value : Value F

unfoldable pub is_success : {F : Type 0} → JolokiaResponse F → Bool
is_success resp = resp.status == 200

unfoldable pub new_request : JolokiaRequest
new_request = record { mbean = []; attribute = []; path = [] }

-- The zero value, which stays in the array for a metric whose name is invalid.
unfoldable pub no_parts : MetricNameParts
no_parts = record { mbean = []; attribute = []; path = []; key_values = []; key_wildcards = [] }

-- The loop that builds the bulk request: the requests, and allRequestedMetricNameParts.
unfoldable pub build_requests :
    (Str → Str) → List MonitoredMetric → List JolokiaRequest × List MetricNameParts
build_requests trim_space [] = ([], [])
build_requests trim_space (m ∷ ms) =
    let (req, parts, bad) = parse_metric_name_for_jolokia_request trim_space m.name new_request in
    let (reqs, all) = build_requests trim_space ms in
    elim bad [ none ↦ (req ∷ reqs, parts ∷ all) | some e ↦ (reqs, no_parts ∷ all) ]

pub data CollectError : Type 0 where
  not_sent index_out_of_range : CollectError

module _ (f : Floats) (now : ℕ) (tenant : Str) (trim_space : Str → Str) where
  unfoldable pub read_response :
      JolokiaResponse f.Float → MonitoredMetric → MetricNameParts → List (MetricHeader f.Float)
  read_response resp metric parts =
      if is_success resp
      then process_jolokia_response_value_object f
          (record { now = now; tenant_id = tenant; metric = metric; parts = parts }) trim_space
          resp.value
      else []

  -- The loop over the responses, which are matched with the metrics by position; a response
  -- behind the last metric is an index out of range.
  unfoldable pub read_responses :
      List (JolokiaResponse f.Float)
      → List MonitoredMetric
      → List MetricNameParts
      → Result CollectError (List (MetricHeader f.Float))
  unfolding read_response
  read_responses [] metrics parts = ok []
  read_responses (resp ∷ resps) (m ∷ ms) (p ∷ ps) = do
    let here = read_response resp m p
    rest ← read_responses resps ms ps
    ok (here ++ rest)
  read_responses (resp ∷ resps) _ _ = err index_out_of_range

  unfoldable pub read_bulk :
      Option (List (JolokiaResponse f.Float))
      → List MonitoredMetric
      → List MetricNameParts
      → Result CollectError (List (MetricHeader f.Float))
  read_bulk none metrics parts = err not_sent
  read_bulk (some responses) metrics parts = read_responses responses metrics parts

  unfoldable pub collect_metrics :
      (List JolokiaRequest → Option (List (JolokiaResponse f.Float)))
      → List MonitoredMetric
      → Result CollectError (List (MetricHeader f.Float))
  collect_metrics send [] = ok []
  collect_metrics send (m ∷ ms) =
      let (requests, parts) = build_requests trim_space (m ∷ ms) in
      read_bulk (send requests) (m ∷ ms) parts

-- CollectMetricDetails knows nothing of the metrics.
unfoldable pub collect_metric_details : List Str → List MetricDetails
collect_metric_details names = []
