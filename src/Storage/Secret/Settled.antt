-- ===== src/Storage/Secret/Settled.antt =====
-- storage/metrics_storage.go: processHawkularMetricsConfig, as a whole: what it makes of the values of
-- the configuration, and why it fails.
use hawkular_openshift_agent.Base.{
  ◌⊎◌, Str, string_eq, ℕ, ◌≤◌, Bool, true, false, ◌≡◌, Option, List, [], ◌∷◌, In, Result, ok, err,
}
use hawkular_openshift_agent.Base.Map.{Map}
use hawkular_openshift_agent.Config.Settings.{is_configured_for_kubernetes, HawkularServer}
use hawkular_openshift_agent.Storage.Secret.{Config, ConfigError, no_client, World}
use hawkular_openshift_agent.Storage.Secret.Outcome.{IsValueOf, IsRefused}

-- The values that can be secrets, and if they are to become files.
abbrev pub values_of : HawkularServer → List (Str × Bool)
values_of s =
    (s.url, false)
    ∷ (s.ca_cert_file, true)
    ∷ (s.credentials.username, false)
    ∷ (s.credentials.password, false)
    ∷ (s.credentials.token, false)
    ∷ (s.tenant, false)
    ∷ []

module _ (look_up : Str → Str → ℕ → Option (Map Str Str)) (takes : ℕ → ℕ) (temp_dir : Str)
    (can_write : Str → Bool) (trim_space : Str → Str) where
  module _ (pod_namespace : Str) where
    abbrev ValueOf : Bool → World → Str → World → Str → Type 0
    ValueOf = IsValueOf look_up takes temp_dir can_write trim_space pod_namespace

    abbrev Refused : Bool → World → Str → World → ConfigError → Type 0
    Refused = IsRefused look_up takes temp_dir can_write trim_space pod_namespace

    -- What the agent makes of the configuration of the server: each value is what was configured or
    -- what its own secret gave, or one of them is refused, from the world on where its turn came.
    pub IsServerOutcome :
        HawkularServer → World → World → Result ConfigError HawkularServer → Type 0
    IsServerOutcome s w w' (ok r) =
        ValueOf false w s.url w' r.url
        × ValueOf true w s.ca_cert_file w' r.ca_cert_file
        × ValueOf false w s.credentials.username w' r.credentials.username
        × ValueOf false w s.credentials.password w' r.credentials.password
        × ValueOf false w s.credentials.token w' r.credentials.token
        × ValueOf false w s.tenant w' r.tenant
        × (r.skip_certificate_validation ≡ s.skip_certificate_validation)
    IsServerOutcome s w w' (err e) =
        (v : Str × Bool) × In v (values_of s)
        × ((w1 : World) × (w.now ≤ w1.now) × Refused v.1 w1 v.0 w' e)

  -- Outside of Kubernetes the configuration is used as it is; without a Kubernetes client it is
  -- refused; else each of its values is settled.
  abbrev pub IsConfigOutcome :
      Bool → Config → World → World → Result ConfigError HawkularServer → Type 0
  IsConfigOutcome has_client conf w w' r =
      ((is_configured_for_kubernetes conf ≡ false) × (w' ≡ w) × (r ≡ ok conf.hawkular_server))
      ⊎ (((is_configured_for_kubernetes conf ≡ true) × (has_client ≡ false) × (r ≡ err no_client))
          ⊎ ((is_configured_for_kubernetes conf ≡ true)
              × (has_client ≡ true)
              × IsServerOutcome conf.kubernetes.pod_namespace conf.hawkular_server w w' r))
