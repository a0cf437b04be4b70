-- ===== src/Collector/Validation.antt =====
-- collector/metrics_endpoint.go: the checks of an endpoint's configuration, with the defaults that
-- they fill in. `parse_duration` is time.ParseDuration: a signed number of nanoseconds, or no
-- duration.
mod Tests
use hawkular_openshift_agent.Base.{
  Str, codes, str_eq, str_eq_iff, ℕ, ℤ, ◌≡◌, refl, ◌≢◌, ◌↔◌, ◌⊎◌, inl, inr, Bool, true, false, not,
  ◌&&◌, ◌||◌, Option, Option-cases, none, some, List, [], ◌∷◌, map, All, In, is_some, arith,
  if◌then◌else◌, Bool-cases,
}
use hawkular_openshift_agent.Collector.{Endpoint, MonitoredMetric, Tags}
use hawkular_openshift_agent.Config.Security.{
  CredentialsError, given, validate_credentials, validate_credentials_iff, IsOneKind,
}
use hawkular_openshift_agent.Config.Tags.{append_tags}

abbrev pub prometheus : Str
prometheus = codes "prometheus"

abbrev pub jolokia : Str
jolokia = codes "jolokia"

abbrev pub json : Str
json = codes "json"

abbrev pub gauge : Str
gauge = codes "gauge"

abbrev pub counter : Str
counter = codes "counter"

-- Clone: the tags are copied into a map of their own.
unfoldable pub clone : MonitoredMetric → MonitoredMetric
clone m = record m { tags = append_tags [] m.tags }

unfoldable pub is_enabled : Endpoint → Bool
is_enabled e = str_eq e.enabled [] || str_eq e.enabled (codes "true")

pub data EndpointError : Type 0 where
  bad_credentials : CredentialsError → EndpointError
  url_missing type_missing type_invalid enabled_invalid : EndpointError
  metric_without_name metric_type_missing metric_type_invalid interval_invalid : EndpointError

metric_error : Str → MonitoredMetric → Option EndpointError
metric_error type m =
    if str_eq m.name []
    then some metric_without_name
    else if str_eq m.type []
    then if not (str_eq type prometheus) then some metric_type_missing else none
    else if not (str_eq m.type gauge) && not (str_eq m.type counter)
    then some metric_type_invalid
    else none

pub default_id : MonitoredMetric → MonitoredMetric
default_id m = if str_eq m.id [] then record m { id = m.name } else m

-- The loop over the metrics. The ids that it filled in before it met an error stay filled in.
validate_metrics : Str → List MonitoredMetric → List MonitoredMetric × Option EndpointError
unfolding metric_error default_id
validate_metrics type [] = ([], none)
validate_metrics type (m ∷ ms) =
    let rest = validate_metrics type ms in
    elim (metric_error type m) [
      | some e ↦ (m ∷ ms, some e)
      | none ↦ (default_id m ∷ rest.0, rest.1)
    ]

-- The checks before the loop.
header_error : Endpoint → Option EndpointError
header_error e = elim (validate_credentials e.credentials) [
  | some c ↦ some (bad_credentials c)
  | none ↦
      if str_eq e.url []
      then some url_missing
      else if str_eq e.type []
      then some type_missing
      else if not (str_eq e.type jolokia)
          && not (str_eq e.type prometheus)
          && not (str_eq e.type json)
      then some type_invalid
      else if not (str_eq e.enabled [])
          && not (str_eq e.enabled (codes "true"))
          && not (str_eq e.enabled (codes "false"))
      then some enabled_invalid
      else none
]

abbrev pub IsMetric : Str → MonitoredMetric → Type 0
IsMetric type m =
    (m.name ≢ []) × (((m.type ≡ []) × (type ≡ prometheus)) ⊎ (m.type ≡ gauge) ⊎ (m.type ≡ counter))

metric_error_iff :
    (type : Str) (m : MonitoredMetric) → (metric_error type m ≡ none) ↔ IsMetric type m
unfolding metric_error
metric_error_iff type m = ground (
  arith,
  str_eq_iff m.name [],
  str_eq_iff m.type [],
  str_eq_iff type prometheus,
  str_eq_iff m.type gauge,
  str_eq_iff m.type counter,
)

validate_metrics_iff :
    (type : Str) (ms : List MonitoredMetric)
    → ((validate_metrics type ms).1 ≡ none) ↔ All (IsMetric type) ms
unfolding validate_metrics
validate_metrics_iff type [] = (λ h. tt, λ h. refl)
validate_metrics_iff type (m ∷ ms) =
    ground (arith, metric_error_iff type m, validate_metrics_iff type ms)

validate_metrics-map :
    (type : Str) (ms : List MonitoredMetric)
    → (validate_metrics type ms).1 ≡ none
    → (validate_metrics type ms).0 ≡ map default_id ms
unfolding validate_metrics
validate_metrics-map type [] h = refl
validate_metrics-map type (m ∷ ms) h = ground (arith, validate_metrics-map type ms)

abbrev pub IsHeader : Endpoint → Type 0
IsHeader e =
    IsOneKind e.credentials
    × (e.url ≢ [])
    × In e.type (jolokia ∷ prometheus ∷ json ∷ [])
    × In e.enabled ([] ∷ codes "true" ∷ codes "false" ∷ [])

header_error_iff : (e : Endpoint) → (header_error e ≡ none) ↔ IsHeader e
unfolding header_error
header_error_iff e = ground (
  arith,
  validate_credentials_iff e.credentials,
  str_eq_iff e.url [],
  str_eq_iff e.type [],
  str_eq_iff e.type jolokia,
  str_eq_iff e.type prometheus,
  str_eq_iff e.type json,
  str_eq_iff e.enabled [],
  str_eq_iff e.enabled (codes "true"),
  str_eq_iff e.enabled (codes "false"),
)

module _ (parse_duration : Str → Option ℤ) where
  interval_error : Str → Option EndpointError
  interval_error s =
      if str_eq s []
      then none
      else elim (parse_duration s) [ none ↦ some interval_invalid | some d ↦ none ]

  -- ValidateEndpoint: the endpoint with its defaults, and the error if there is one.
  unfoldable pub validate_endpoint : Endpoint → Endpoint × Option EndpointError
  unfolding header_error validate_metrics interval_error
  validate_endpoint e = elim (header_error e) [
    | some x ↦ (e, some x)
    | none ↦
        let (metrics, error) = validate_metrics e.type e.metrics in
        (
          record e { metrics = metrics },
          elim error [ some x ↦ some x | none ↦ interval_error e.collection_interval ],
        )
  ]

  -- What ValidateEndpoint asks of an endpoint.
  pub record IsEndpoint (e : Endpoint) : Type 0 where
    pub header : IsHeader e
    pub metrics : All (IsMetric e.type) e.metrics
    pub interval :
        (e.collection_interval ≡ []) ⊎ (is_some (parse_duration e.collection_interval) ≡ true)

  interval_error_iff :
      (s : Str) → (interval_error s ≡ none) ↔ ((s ≡ []) ⊎ (is_some (parse_duration s) ≡ true))
  unfolding interval_error
  interval_error_iff s = ground (arith, str_eq_iff s [])

  -- ValidateEndpoint returns no error exactly for an endpoint whose credentials are of one kind,
  -- whose URL is given, whose type and enabled flag are among the known ones, whose metrics all
  -- have a name and a type (which a Prometheus endpoint may leave out), and whose collection
  -- interval is a duration if it is given.
  pub validate_endpoint_iff : (e : Endpoint) → ((validate_endpoint e).1 ≡ none) ↔ IsEndpoint e
  unfolding validate_endpoint
  validate_endpoint_iff e = ground (
    arith,
    header_error_iff e,
    validate_metrics_iff e.type e.metrics,
    interval_error_iff e.collection_interval,
  )

  -- An endpoint that validates is returned with nothing changed but the ids of the metrics that
  -- had none: these have the metric's name for an id.
  pub validate_endpoint-default_id :
      (e : Endpoint)
      → (validate_endpoint e).1 ≡ none
      → (validate_endpoint e).0 ≡ record e { metrics = map default_id e.metrics }
  unfolding validate_endpoint
  validate_endpoint-default_id e h = ground (arith, validate_metrics-map e.type e.metrics)

default_id-given : (type : Str) (m : MonitoredMetric) → IsMetric type m → (default_id m).id ≢ []
unfolding default_id
default_id-given type m h = ground (arith, str_eq_iff m.id [])

default_id-All :
    (type : Str) (ms : List MonitoredMetric)
    → All (IsMetric type) ms
    → All (λ m. m.id ≢ []) (map default_id ms)
default_id-All type [] h = tt
default_id-All type (m ∷ ms) h = (default_id-given type m h.0, default_id-All type ms h.1)

-- Once an endpoint validates, every one of its metrics has an id.
pub validate_endpoint-ids :
    (parse_duration : Str → Option ℤ) (e : Endpoint)
    → (validate_endpoint parse_duration e).1 ≡ none
    → All (λ m. m.id ≢ []) (validate_endpoint parse_duration e).0.metrics
validate_endpoint-ids parse_duration e h =
    rw (validate_endpoint-default_id parse_duration e h)
      (default_id-All e.type e.metrics ((validate_endpoint_iff parse_duration e).0 h).metrics)
