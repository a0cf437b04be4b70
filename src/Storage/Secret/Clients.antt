-- ===== src/Storage/Secret/Clients.antt =====
-- storage/metrics_storage.go: the two clients that NewMetricsStorageManager makes, as the parameters
-- that it gives to the Hawkular library. `make` tells which call of NewHawkularClient succeeds.
use hawkular_openshift_agent.Base.{
  or_else, Str, string_eq, ℕ, Bool, true, false, ◌&&◌, ◌≡◌, ap, Option, none, some, [], ◌∷◌,
}
use hawkular_openshift_agent.Base.Map.{Map}
use hawkular_openshift_agent.Config.Settings.{HawkularServer, Config}
use hawkular_openshift_agent.Storage.Secret.{
  no_hawkular_client, World, Waits, return, refuse, ◌>=>◌, process_hawkular_metrics_config,
}
use hawkular_openshift_agent.Storage.Secret.Plain.{IsPlain, process-plain}

-- hmetrics.Parameters, of the TLS configuration what is read from the file of the CA.
pub record Parameters : Type 0 where
  pub tenant : Str
  pub url : Str
  pub username : Str
  pub password : Str
  pub token : Str
  pub insecure_skip_verify : Bool
  pub root_cas : Option Str

pub record StorageManager : Type 0 where
  pub metrics_client : Parameters
  pub definitions_client : Parameters
  pub global_tenant : Str

module _ (read_file : Str → Option Str) where
  -- A file that cannot be read gives an empty pool of certificates.
  root_cas_of : Str → Option Str
  root_cas_of [] = none
  root_cas_of (c ∷ file) = some (or_else (read_file (c ∷ file)) [])

  unfoldable pub get_hawkular_metrics_client : HawkularServer → Parameters
  unfolding root_cas_of
  get_hawkular_metrics_client conf = record {
    tenant = conf.tenant;
    url = conf.url;
    username = conf.credentials.username;
    password = conf.credentials.password;
    token = conf.credentials.token;
    insecure_skip_verify = conf.skip_certificate_validation;
    root_cas = root_cas_of conf.ca_cert_file;
  }

  unfoldable pub make_clients :
      (ℕ → Parameters → Bool) → Str → HawkularServer → Waits StorageManager
  make_clients make global_tenant server =
      let parameters = get_hawkular_metrics_client server in
      elim (make 1 parameters && make 2 parameters) [
        | true ↦ return (record {
          metrics_client = parameters;
          definitions_client = parameters;
          global_tenant = global_tenant;
        })
        | false ↦ refuse no_hawkular_client
      ]

  module _ (look_up : Str → Str → ℕ → Option (Map Str Str)) (takes : ℕ → ℕ) (temp_dir : Str)
      (can_write : Str → Bool) (trim_space : Str → Str) where
    unfoldable pub new_metrics_storage_manager :
        (ℕ → Parameters → Bool) → Bool → Config → Waits StorageManager
    new_metrics_storage_manager make has_client conf =
        process_hawkular_metrics_config look_up takes temp_dir can_write trim_space has_client conf
        >=> make_clients make conf.hawkular_server.tenant

    -- Where no value of the server's configuration is a secret, both clients have the configured
    -- address, tenant and credentials.
    pub new_manager-plain :
        (make : ℕ → Parameters → Bool) (conf : Config) (w : World)
        → IsPlain conf.hawkular_server.url
        → IsPlain conf.hawkular_server.ca_cert_file
        → IsPlain conf.hawkular_server.credentials.username
        → IsPlain conf.hawkular_server.credentials.password
        → IsPlain conf.hawkular_server.credentials.token
        → IsPlain conf.hawkular_server.tenant
        → new_metrics_storage_manager make true conf w
          ≡ make_clients make conf.hawkular_server.tenant conf.hawkular_server w
    unfolding new_metrics_storage_manager
    new_manager-plain make conf w url cert username password token tenant =
        ap (λ r. ((λ w'. r) >=> make_clients make conf.hawkular_server.tenant) w)
          (process-plain look_up takes temp_dir can_write trim_space conf w url cert username
            password token tenant)
