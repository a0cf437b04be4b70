-- ===== src/Main/Tests.antt =====
-- The default configuration with a minimum interval that is not set.
use hawkular_openshift_agent.Base.{
  int_lt, Str, codes, str_eq, string_eq, ℤ, pos, false, ◌≡◌, refl, Option, none, some, [],
  if◌then◌else◌, ok,
}
use hawkular_openshift_agent.Config.Settings.{Config}
use hawkular_openshift_agent.Config.Security.{validate_credentials}
use hawkular_openshift_agent.Collector.{Credentials}
use hawkular_openshift_agent.Manager.{Platform, collection_interval}
use hawkular_openshift_agent.Main.{
  five_seconds, validate_config, validate_emitter, validate_intervals, validate_endpoints,
  minimum_interval, default_interval, given_default, check_emitter, check_server, check_log_size,
  check_max_metrics,
}
use hawkular_openshift_agent.Main.Validated.{
  IsChecked, validate_config-IsChecked, collection_interval-ge-five_seconds,
}

abbrev parse : Str → Option ℤ
parse s =
    if str_eq s (codes "5s")
    then some five_seconds
    else if str_eq s (codes "5m")
    then some (pos 300_000_000_000)
    else none

abbrev no_login : Credentials
no_login = record { username = []; password = []; token = [] }

abbrev configured : Str → Config
configured minimum = record {
  cert_file = [];
  private_key_file = [];
  hawkular_server = record {
    url = [];
    tenant = [];
    credentials = no_login;
    skip_certificate_validation = false;
    ca_cert_file = [];
  };
  emitter = record {
    metrics_enabled = codes "true";
    status_enabled = codes "false";
    health_enabled = codes "true";
    address = [];
    metrics_credentials = no_login;
    status_log_size = pos 10;
    status_credentials = no_login;
  };
  collector = record {
    max_metrics_per_pod = pos 50;
    minimum_collection_interval = minimum;
    default_collection_interval = codes "5m";
    tags = [];
    pod_label_tags_prefix = [];
    metric_id_prefix = [];
  };
  kubernetes = record {
    master_url = [];
    token = [];
    ca_cert_file = [];
    pod_namespace = [];
    pod_name = [];
    tenant = [];
  };
  endpoints = [];
}

abbrev os : Platform
os = record {
  parse_duration = parse;
  show_duration = λ d. [];
  show_count = λ n. [];
  lookup_env = λ name. none;
}

five : parse (codes "5s") ≡ some five_seconds
unfolding str_eq
five = refl

validated : validate_config parse (configured []) ≡ ok (configured (codes "5s"))
unfolding validate_config validate_emitter validate_intervals validate_endpoints minimum_interval
    default_interval given_default check_emitter check_server check_log_size check_max_metrics
    validate_credentials str_eq
validated = refl

validate_config-IsChecked_example : IsChecked parse five (configured (codes "5s"))
validate_config-IsChecked_example =
    validate_config-IsChecked parse five (configured []) (configured (codes "5s")) validated

collection_interval-ge-five_seconds_example :
    int_lt (collection_interval os (configured (codes "5s")).collector (codes "1s")) five_seconds
    ≡ false
collection_interval-ge-five_seconds_example =
    collection_interval-ge-five_seconds os (configured []) (configured (codes "5s")) (codes "1s")
      five validated
