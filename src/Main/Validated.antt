-- ===== src/Main/Validated.antt =====
-- hawkular-openshift-agent.go: a configuration behind validateConfig, and the interval of a collector.
mod Checks
use hawkular_openshift_agent.Base.{
  Result-cases, Str, codes, str_eq, string_eq, ℕ, zero, suc, ◌≤◌, ℤ, pos, true, false, ◌≡◌, ◌≢◌,
  ◌⊎◌, inl, inr, refl, Option, Option-cases, none, some, List, [], ◌∷◌, All, arith, Result, ok, err,
  int_lt, negsuc,
}
use mathlib.Core.Path.{subst}
use hawkular_openshift_agent.Collector.{Credentials, Endpoint}
use hawkular_openshift_agent.Config.Security.{
  IsOneKind, CredentialsError, given, validate_credentials,
}
use hawkular_openshift_agent.Collector.Validation.{validate_endpoint, validate_endpoint-ids}
use hawkular_openshift_agent.Config.Settings.{Config, Emitter, CollectorConfig}
use hawkular_openshift_agent.Manager.{Platform, collection_interval}
use hawkular_openshift_agent.Manager.Interval.{interval-ge-minimum}
use hawkular_openshift_agent.Main.{
  Fatal, five_seconds, check_emitter, check_server, check_log_size, check_max_metrics,
  validate_emitter, validate_intervals, minimum_interval, given_default, default_interval,
  validate_endpoints, validate_config, bad_metrics_credentials, bad_status_credentials,
  metrics_token, status_token,
}
pub use hawkular_openshift_agent.Main.Validated.Checks.{IsGuarded}
use hawkular_openshift_agent.Main.Validated.Checks.{
  ok_inj, check_log_size_lem, check_max_metrics_lem, check_emitter_lem, check_server_lem,
  minimum_interval_lem, default_interval_lem, validate_endpoints_lem,
}

module _ (parse_duration : Str → Option ℤ)
    (five : parse_duration (codes "5s") ≡ some five_seconds) where
  -- Intervals that the agent runs with: neither is too short.
  abbrev pub AreIntervals : CollectorConfig → Type 0
  AreIntervals c =
      (m : ℤ) × (parse_duration c.minimum_collection_interval ≡ some m)
      × (int_lt m five_seconds ≡ false)
      × ((d : ℤ) × (parse_duration c.default_collection_interval ≡ some d) × (int_lt d m ≡ false))

  validate_intervals_lem :
      (c c' : CollectorConfig) → validate_intervals parse_duration c ≡ ok c' → AreIntervals c'
  unfolding validate_intervals
  validate_intervals_lem c c' h =
      elim (Result-cases (minimum_interval parse_duration c.minimum_collection_interval)) [
        | inl (x, bad) ↦ cc (rw bad at h)
        | inr (m, is_m) ↦
            let h1 = rw is_m at h in
            elim (Result-cases
              (default_interval parse_duration c.default_collection_interval m.1)) [
                | inl (x, bad) ↦ cc (rw bad at h1)
                | inr (d, is_d) ↦
                    let (at, enough) =
                      minimum_interval_lem parse_duration five c.minimum_collection_interval m
                        is_m in
                    subst AreIntervals (ok_inj (rw is_d at h1)) (
                      m.1,
                      at,
                      enough,
                      default_interval_lem parse_duration five c.default_collection_interval m.1 d
                          is_d,
                    )
              ]
      ]

  -- An emitter that the agent runs with.
  pub record IsEmitter (e : Emitter) : Type 0 where
    pub log_size : (k : ℕ) × (e.status_log_size ≡ pos k) × (10 ≤ k) × (k ≤ 1000)
    pub metrics : IsGuarded e.metrics_enabled e.metrics_credentials
    pub status : IsGuarded e.status_enabled e.status_credentials

  validate_emitter_lem : (e : Emitter) (u : Unit {0}) → validate_emitter e ≡ ok u → IsEmitter e
  unfolding validate_emitter
  validate_emitter_lem e u h = elim (Result-cases (check_log_size e.status_log_size)) [
    | inl (x, bad) ↦ cc (rw bad at h)
    | inr (u1, size) ↦
        let h1 = rw size at h in
        elim (Result-cases (
          check_emitter e.metrics_enabled e.metrics_credentials bad_metrics_credentials
            metrics_token)) [
              | inl (x, bad) ↦ cc (rw bad at h1)
              | inr (u2, metrics) ↦ record {
                log_size = check_log_size_lem e.status_log_size u1 size;
                metrics =
                    check_emitter_lem e.metrics_enabled e.metrics_credentials
                      bad_metrics_credentials metrics_token u2 metrics;
                status =
                    check_emitter_lem e.status_enabled e.status_credentials bad_status_credentials
                      status_token u (rw metrics at h1);
              }
            ]
  ]

  -- A configuration that the agent runs with.
  pub record IsChecked (conf : Config) : Type 0 where
    pub intervals : AreIntervals conf.collector
    pub server : IsOneKind conf.hawkular_server.credentials
    pub endpoints : All (λ e. All (λ m. m.id ≢ []) e.metrics) conf.endpoints
    pub emitter : IsEmitter conf.emitter
    pub max_metrics : (k : ℕ) × (conf.collector.max_metrics_per_pod ≡ pos (suc k))

  -- A configuration that passes the validation has a minimum interval of at least five seconds and a
  -- default interval that is not below it, both set; for the server no credentials, a username with
  -- a password, or a token, so that a token beside a username is refused and not preferred; for each
  -- emitter that is enabled none or a username with a password; an id for each metric of its
  -- endpoints; a status log of 10 to 1000 entries; and a limit of at least one metric for a pod.
  -- time.ParseDuration reads `5s` as five seconds.
  pub validate_config-IsChecked :
      (conf conf' : Config) → validate_config parse_duration conf ≡ ok conf' → IsChecked conf'
  unfolding validate_config
  validate_config-IsChecked conf conf' h =
      elim (Result-cases (validate_intervals parse_duration conf.collector)) [
        | inl (x, bad) ↦ cc (rw bad at h)
        | inr (c, is_c) ↦
            let h1 = rw is_c at h in
            elim (Result-cases (check_server conf.hawkular_server.credentials)) [
              | inl (x, bad) ↦ cc (rw bad at h1)
              | inr (u1, server) ↦
                  let h2 = rw server at h1 in
                  elim (Result-cases (validate_endpoints parse_duration conf.endpoints)) [
                    | inl (x, bad) ↦ cc (rw bad at h2)
                    | inr (es, is_es) ↦
                        let h3 = rw is_es at h2 in
                        elim (Result-cases (validate_emitter conf.emitter)) [
                          | inl (x, bad) ↦ cc (rw bad at h3)
                          | inr (u2, emitter) ↦
                              let h4 = rw emitter at h3 in
                              elim (Result-cases (check_max_metrics c.max_metrics_per_pod)) [
                                | inl (x, bad) ↦ cc (rw bad at h4)
                                | inr (u3, most) ↦
                                    let h5 = rw most at h4 in
                                    subst IsChecked (ok_inj h5) (record {
                                      intervals = validate_intervals_lem conf.collector c is_c;
                                      server =
                                          check_server_lem conf.hawkular_server.credentials u1
                                            server;
                                      endpoints =
                                          (validate_endpoints_lem parse_duration five conf.endpoints
                                            es is_es).1;
                                      emitter = validate_emitter_lem conf.emitter u2 emitter;
                                      max_metrics =
                                          check_max_metrics_lem c.max_metrics_per_pod u3 most;
                                    })
                              ]
                        ]
                  ]
            ]
      ]

int_lt_trans : (a b c : ℤ) → int_lt a b ≡ false → int_lt b c ≡ false → int_lt a c ≡ false
int_lt_trans (pos a) (pos b) (pos c) h k = ground arith
int_lt_trans (pos a) (pos b) (negsuc c) h k = refl
int_lt_trans (pos a) (negsuc b) (pos c) h k = cc
int_lt_trans (pos a) (negsuc b) (negsuc c) h k = refl
int_lt_trans (negsuc a) (pos b) (pos c) h k = cc
int_lt_trans (negsuc a) (pos b) (negsuc c) h k = cc
int_lt_trans (negsuc a) (negsuc b) (pos c) h k = cc
int_lt_trans (negsuc a) (negsuc b) (negsuc c) h k = ground arith

-- With a configuration that passed the validation, the manager never runs a collector more often
-- than every five seconds, whatever interval the endpoint asks for. time.ParseDuration reads `5s` as
-- five seconds.
pub collection_interval-ge-five_seconds :
    (os : Platform) (conf conf' : Config) (interval : Str)
    → os.parse_duration (codes "5s") ≡ some five_seconds
    → validate_config os.parse_duration conf ≡ ok conf'
    → int_lt (collection_interval os conf'.collector interval) five_seconds ≡ false
collection_interval-ge-five_seconds os conf conf' interval five h =
    let checked = validate_config-IsChecked os.parse_duration five conf conf' h in
    let (m, is, enough, d) = checked.intervals in
    int_lt_trans (collection_interval os conf'.collector interval) m five_seconds
      (interval-ge-minimum os conf'.collector interval m is) enough
