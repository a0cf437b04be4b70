-- ===== src/Config/Settings.antt =====
-- config/config.go: the agent's configuration, and its defaults. `getenv` is os.Getenv, which is
-- empty for a variable that is not set, `trim_space` is strings.TrimSpace and `atoi` strconv.Atoi,
-- with none for an error.
use hawkular_openshift_agent.Base.{
  or_else, Str, String, codes, string_eq, ℤ, pos, Bool, true, false, Option, none, some, List, [],
  ◌∷◌,
}
use hawkular_openshift_agent.Collector.{Tags, Credentials, Endpoint}

pub record HawkularServer : Type 0 where
  pub url : Str
  pub tenant : Str
  pub credentials : Credentials
  pub skip_certificate_validation : Bool
  pub ca_cert_file : Str

pub record CollectorConfig : Type 0 where
  pub max_metrics_per_pod : ℤ
  pub minimum_collection_interval : Str
  pub default_collection_interval : Str
  pub tags : Tags
  pub pod_label_tags_prefix : Str
  pub metric_id_prefix : Str

pub record Kubernetes : Type 0 where
  pub master_url : Str
  pub token : Str
  pub ca_cert_file : Str
  pub pod_namespace : Str
  pub pod_name : Str
  pub tenant : Str

pub record Emitter : Type 0 where
  pub metrics_enabled : Str
  pub status_enabled : Str
  pub health_enabled : Str
  pub address : Str
  pub metrics_credentials : Credentials
  pub status_log_size : ℤ
  pub status_credentials : Credentials

pub record Config : Type 0 where
  pub cert_file : Str
  pub private_key_file : Str
  pub hawkular_server : HawkularServer
  pub emitter : Emitter
  pub collector : CollectorConfig
  pub kubernetes : Kubernetes
  pub endpoints : List Endpoint

module _ (getenv trim_space : Str → Str) (atoi : Str → Option ℤ) where
  unfoldable pub get_default_string : String → Str → Str
  get_default_string name default_value = elim (getenv (codes name)) [
    | [] ↦ default_value
    | c ∷ value ↦ c ∷ value
  ]

  unfoldable pub get_default_int : String → ℤ → ℤ
  get_default_int name default_value = elim (getenv (codes name)) [
    | [] ↦ default_value
    | c ∷ value ↦ or_else (atoi (c ∷ value)) default_value
  ]

  unfoldable pub new_config : Config
  new_config = record {
    cert_file = get_default_string "HAWKULAR_OPENSHIFT_AGENT_CERT_FILE" [];
    private_key_file = get_default_string "HAWKULAR_OPENSHIFT_AGENT_PRIVATE_KEY_FILE" [];
    hawkular_server = record {
      url = get_default_string "HAWKULAR_SERVER_URL" (codes "http://127.0.0.1:8080");
      tenant = get_default_string "HAWKULAR_SERVER_TENANT" (codes "hawkular");
      credentials = record {
        username = trim_space (get_default_string "HAWKULAR_SERVER_USERNAME" []);
        password = trim_space (get_default_string "HAWKULAR_SERVER_PASSWORD" []);
        token = trim_space (get_default_string "HAWKULAR_SERVER_TOKEN" []);
      };
      skip_certificate_validation = false;
      ca_cert_file = get_default_string "HAWKULAR_SERVER_CA_CERT_FILE" [];
    };
    emitter = record {
      metrics_enabled = get_default_string "EMITTER_METRICS_ENABLED" (codes "true");
      status_enabled = get_default_string "EMITTER_STATUS_ENABLED" (codes "false");
      health_enabled = get_default_string "EMITTER_HEALTH_ENABLED" (codes "true");
      address = get_default_string "EMITTER_ADDRESS" [];
      status_log_size = get_default_int "EMITTER_STATUS_LOG_SIZE" (pos 10);
      status_credentials = record {
        username = get_default_string "EMITTER_STATUS_CREDENTIALS_USERNAME" [];
        password = get_default_string "EMITTER_STATUS_CREDENTIALS_PASSWORD" [];
        token = [];
      };
      metrics_credentials = record {
        username = get_default_string "EMITTER_METRICS_CREDENTIALS_USERNAME" [];
        password = get_default_string "EMITTER_METRICS_CREDENTIALS_PASSWORD" [];
        token = [];
      };
    };
    collector = record {
      max_metrics_per_pod = get_default_int "COLLECTOR_MAX_METRICS_PER_POD" (pos 50);
      minimum_collection_interval =
          get_default_string "COLLECTOR_MINIMUM_COLLECTION_INTERVAL" (codes "10s");
      default_collection_interval =
          get_default_string "COLLECTOR_DEFAULT_COLLECTION_INTERVAL" (codes "5m");
      tags = [];
      pod_label_tags_prefix = get_default_string "COLLECTOR_POD_LABEL_TAGS_PREFIX" [];
      metric_id_prefix = [];
    };
    kubernetes = record {
      master_url = get_default_string "K8S_MASTER_URL" [];
      pod_namespace = get_default_string "K8S_POD_NAMESPACE" [];
      pod_name = get_default_string "K8S_POD_NAME" [];
      token = get_default_string "K8S_TOKEN" [];
      ca_cert_file = get_default_string "K8S_CA_CERT_FILE" [];
      tenant = get_default_string "K8S_TENANT" [];
    };
    endpoints = [];
  }

  -- Unmarshal: what the YAML library makes of the defaults and a text. That nil tags become empty
  -- ones does not show here, where the two are the same.
  unfoldable pub unmarshal : (Config → Str → Option Config) → Str → Option Config
  unmarshal yaml yaml_string = yaml new_config yaml_string

  unfoldable pub load_from_file :
      (Str → Option Str) → (Config → Str → Option Config) → Str → Option Config
  load_from_file read_file yaml filename = elim (read_file filename) [
    | none ↦ none
    | some content ↦ unmarshal yaml content
  ]

-- k8s.IsConfiguredForKubernetes
unfoldable pub is_configured_for_kubernetes : Config → Bool
is_configured_for_kubernetes conf = elim conf.kubernetes.pod_namespace [
  | [] ↦ false
  | c ∷ cs ↦ true
]
