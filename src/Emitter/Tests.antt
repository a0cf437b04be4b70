-- ===== src/Emitter/Tests.antt =====
-- An emitter whose status report asks for a login.
use hawkular_openshift_agent.Base.{codes, str_eq, string_eq, pos, false, ◌≡◌, refl, none, some, []}
use hawkular_openshift_agent.Base.Map
use hawkular_openshift_agent.Base.Map.{Map}
use hawkular_openshift_agent.Config.Settings.{Config}
use hawkular_openshift_agent.Collector.{Credentials}
use hawkular_openshift_agent.Emitter.{
  start_with, Server, start_emitter, handlers_of, address_of, is_secure, serve, handle,
  handle_status, status_code, answer,
}
use hawkular_openshift_agent.Emitter.Access.{serve-private}

abbrev login : Credentials
login = record { username = codes "admin"; password = codes "pw"; token = [] }

abbrev no_login : Credentials
no_login = record { username = []; password = []; token = [] }

abbrev conf : Config
conf = record {
  cert_file = [];
  private_key_file = [];
  hawkular_server = record {
    url = [];
    tenant = [];
    credentials = no_login;
    skip_certificate_validation = false;
    ca_cert_file = [];
  };
  emitter = record {
    metrics_enabled = codes "true";
    status_enabled = codes "true";
    health_enabled = codes "false";
    address = [];
    metrics_credentials = no_login;
    status_log_size = pos 10;
    status_credentials = login;
  };
  collector = record {
    max_metrics_per_pod = pos 50;
    minimum_collection_interval = codes "10s";
    default_collection_interval = codes "5m";
    tags = [];
    pod_label_tags_prefix = [];
    metric_id_prefix = [];
  };
  kubernetes = record {
    master_url = [];
    token = [];
    ca_cert_file = [];
    pod_namespace = [];
    pod_name = [];
    tenant = [];
  };
  endpoints = [];
}

abbrev server : Server
server = record { handlers = handlers_of conf.emitter; address = codes ":8080"; secure = false }

started : start_emitter conf ≡ some server
unfolding start_emitter start_with handlers_of address_of is_secure str_eq
started = refl

served :
    serve server []
      (codes "report")
      (200, codes "OK")
      (codes "/status")
      (some (codes "admin", codes "pw"))
    ≡ some (record { status = 200; challenge = false; body = codes "report" })
unfolding serve handlers_of Map.get str_eq handle handle_status status_code answer
served = refl

serve-private_example :
    serve server [] (codes "a") (200, codes "OK") (codes "/status") none
    ≡ serve server [] (codes "b") (200, codes "OK") (codes "/status") none
serve-private_example =
    serve-private conf server none [] (codes "a") (codes "b") (codes "/status") (200, codes "OK")
      started refl (λ e. cc)
