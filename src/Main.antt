-- ===== src/Main.antt =====
-- hawkular-openshift-agent.go: the configuration that main loads, and its validation. Errors are
-- fatal. `parse_duration` is time.ParseDuration, in signed nanoseconds.
pub mod Validated
mod Tests
use hawkular_openshift_agent.Base.{
  int_lt, negsuc, Str, String, codes, str_eq, str_eq_iff, str_eq_refl, string_eq, ℕ, zero, suc, ◌+◌,
  ◌-◌, ◌≤◌, ◌<◌, ◌==◌, ==_iff, ltb, leb, ℤ, pos, Bool, true, false, not, ◌&&◌, ◌||◌, ◌≡◌, ◌≢◌, ◌↔◌,
  ◌⊎◌, inl, inr, refl, sym, ap, ◌∙◌, Option, Option-cases, none, some, is_some, List, [], ◌∷◌, ◌++◌,
  append_assoc, append-nil, map, length, All, All-append, In, arith, Bool-cases, if◌then◌else◌,
  Result, ok, err, ◌>>=◌,
}
use hawkular_openshift_agent.Base.Map
use hawkular_openshift_agent.Base.Map.{Map}
use hawkular_openshift_agent.Collector.{Credentials, Endpoint}
use hawkular_openshift_agent.Collector.Validation.{EndpointError, validate_endpoint}
use hawkular_openshift_agent.Config.Security.{CredentialsError, given, validate_credentials}
use hawkular_openshift_agent.Config.Settings.{
  HawkularServer, CollectorConfig, Emitter, Config, new_config, load_from_file,
}
use hawkular_openshift_agent.Status.{StatusReport, init_status_report, add_log_message}

pub data Fatal : Type 0 where
  not_loaded minimum_invalid minimum_too_low default_invalid default_too_low : Fatal
  bad_server : CredentialsError → Fatal
  bad_endpoint : EndpointError → Fatal
  bad_log_size : Fatal
  bad_metrics_credentials bad_status_credentials : CredentialsError → Fatal
  metrics_token status_token bad_max_metrics : Fatal

-- The file that the command line names, else the environment.
unfoldable pub load_config :
    (getenv trim_space : Str → Str) (atoi : Str → Option ℤ)
    → (Str → Option Str)
    → (Config → Str → Option Config)
    → Str
    → Result Fatal Config
load_config getenv trim_space atoi read_file yaml [] = ok (new_config getenv trim_space atoi)
load_config getenv trim_space atoi read_file yaml (c ∷ file) =
    elim (load_from_file getenv trim_space atoi read_file yaml (c ∷ file)) [
      | none ↦ err not_loaded
      | some conf ↦ ok conf
    ]

abbrev pub five_seconds : ℤ
five_seconds = pos 5_000_000_000

-- The credentials of an emitter, if it is enabled.
unfoldable pub check_emitter :
    Str → Credentials → (CredentialsError → Fatal) → Fatal → Result {0, 0} Fatal Unit
check_emitter enabled c bad token =
    if str_eq enabled (codes "true")
    then elim (validate_credentials c) [
      | some e ↦ err (bad e)
      | none ↦ if given c.token then err token else ok tt
    ]
    else ok tt

unfoldable pub check_server : Credentials → Result {0, 0} Fatal Unit
check_server c = elim (validate_credentials c) [ some e ↦ err (bad_server e) | none ↦ ok tt ]

unfoldable pub check_log_size : ℤ → Result {0, 0} Fatal Unit
check_log_size n = if int_lt n (pos 10) || int_lt (pos 1000) n then err bad_log_size else ok tt

unfoldable pub check_max_metrics : ℤ → Result {0, 0} Fatal Unit
check_max_metrics n = if int_lt (pos 0) n then ok tt else err bad_max_metrics

unfoldable pub validate_emitter : Emitter → Result {0, 0} Fatal Unit
validate_emitter e = do
  _ ← check_log_size e.status_log_size
  _ ← check_emitter e.metrics_enabled e.metrics_credentials bad_metrics_credentials metrics_token
  check_emitter e.status_enabled e.status_credentials bad_status_credentials status_token

module _ (parse_duration : Str → Option ℤ) where
  -- The minimum interval as it is set, and its length.
  unfoldable pub minimum_interval : Str → Result Fatal (Str × ℤ)
  minimum_interval [] = ok (codes "5s", five_seconds)
  minimum_interval (c ∷ s) = elim (parse_duration (c ∷ s)) [
    | none ↦ err minimum_invalid
    | some d ↦ if int_lt d five_seconds then err minimum_too_low else ok (c ∷ s, d)
  ]

  unfoldable pub given_default : Str → Str
  given_default [] = codes "5m"
  given_default (c ∷ s) = c ∷ s

  unfoldable pub default_interval : Str → ℤ → Result Fatal Str
  default_interval s minimum = elim (parse_duration (given_default s)) [
    | none ↦ err default_invalid
    | some d ↦ if int_lt d minimum then err default_too_low else ok (given_default s)
  ]

  -- The endpoints with the ids that ValidateEndpoint sets in their metrics.
  unfoldable pub validate_endpoints : List Endpoint → Result Fatal (List Endpoint)
  validate_endpoints [] = ok []
  validate_endpoints (e ∷ es) =
      let (e', bad) = validate_endpoint parse_duration e in
      let rest = validate_endpoints es in
      elim bad [ some x ↦ err (bad_endpoint x) | none ↦ rest >>= λ more. ok (e' ∷ more) ]

  -- The collector's section with its intervals as they are set.
  unfoldable pub validate_intervals : CollectorConfig → Result Fatal CollectorConfig
  validate_intervals c = do
    minimum ← minimum_interval c.minimum_collection_interval
    default ← default_interval c.default_collection_interval minimum.1
    ok (record c { minimum_collection_interval = minimum.0; default_collection_interval = default })

  -- validateConfig: the configuration with what it sets there.
  unfoldable pub validate_config : Config → Result Fatal Config
  validate_config conf = do
    collector ← validate_intervals conf.collector
    _ ← check_server conf.hawkular_server.credentials
    endpoints ← validate_endpoints conf.endpoints
    _ ← validate_emitter conf.emitter
    _ ← check_max_metrics collector.max_metrics_per_pod
    ok (record conf { collector = collector; endpoints = endpoints })

-- The status report that main begins with. The size of the log is one that was validated.
unfoldable pub size_of : ℤ → ℕ
size_of (pos n) = n
size_of (negsuc n) = 0

unfoldable pub start_status : Str → Str → Str → Config → StatusReport
start_status now version commit_hash conf =
    add_log_message now
      (init_status_report (codes "Hawkular OpenShift Agent") version commit_hash
        (size_of conf.emitter.status_log_size))
      (codes "Agent Started")
