-- ===== src/Storage/Secret/Plain.antt =====
-- storage/metrics_storage.go: processHawkularMetricsConfig, of values that are no secrets.
use hawkular_openshift_agent.Base.{
  Str, string_eq, ℕ, Bool, true, false, ◌≡◌, inl, inr, refl, Option, some, Bool-cases, ok,
  starts_with,
}
use hawkular_openshift_agent.Base.Map.{Map}
use hawkular_openshift_agent.K8s.Secrets.{secret}
use hawkular_openshift_agent.Config.Settings.{HawkularServer, Config, is_configured_for_kubernetes}
use hawkular_openshift_agent.Storage.Secret.{
  World, return, credential, server_config, process_hawkular_metrics_config,
}

-- A value that is not a secret's specifier.
abbrev pub IsPlain : Str → Type 0
IsPlain v = starts_with v secret ≡ false

module _ (look_up : Str → Str → ℕ → Option (Map Str Str)) (takes : ℕ → ℕ) (temp_dir : Str)
    (can_write : Str → Bool) (trim_space : Str → Str) where
  credential-plain :
      (ns v : Str) (file : Bool)
      → IsPlain v
      → credential look_up takes temp_dir can_write trim_space ns v file ≡ return v
  unfolding credential
  credential-plain ns v file h = rw (h, credential) refl

  server_config-plain :
      (ns : Str) (s : HawkularServer) (w : World)
      → IsPlain s.url
      → IsPlain s.ca_cert_file
      → IsPlain s.credentials.username
      → IsPlain s.credentials.password
      → IsPlain s.credentials.token
      → IsPlain s.tenant
      → server_config look_up takes temp_dir can_write trim_space ns s w ≡ some (w, ok s)
  unfolding server_config
  server_config-plain ns s w url cert username password token tenant =
      rw
        (
          credential-plain ns s.url false url,
          credential-plain ns s.ca_cert_file true cert,
          credential-plain ns s.credentials.username false username,
          credential-plain ns s.credentials.password false password,
          credential-plain ns s.credentials.token false token,
          credential-plain ns s.tenant false tenant,
          server_config,
        )
        refl

  -- A configuration without secrets is used as it is: nothing is waited for and no file is written.
  pub process-plain :
      (conf : Config) (w : World)
      → IsPlain conf.hawkular_server.url
      → IsPlain conf.hawkular_server.ca_cert_file
      → IsPlain conf.hawkular_server.credentials.username
      → IsPlain conf.hawkular_server.credentials.password
      → IsPlain conf.hawkular_server.credentials.token
      → IsPlain conf.hawkular_server.tenant
      → process_hawkular_metrics_config look_up takes temp_dir can_write trim_space true conf w
        ≡ some (w, ok conf.hawkular_server)
  unfolding process_hawkular_metrics_config server_config
  process-plain conf w url cert username password token tenant =
      elim (Bool-cases (is_configured_for_kubernetes conf)) [
        | inr out ↦ rw (out, process_hawkular_metrics_config) refl
        | inl in_kubernetes ↦
            rw (in_kubernetes, process_hawkular_metrics_config)
              (server_config-plain conf.kubernetes.pod_namespace conf.hawkular_server w url cert
                username password token tenant)
      ]
