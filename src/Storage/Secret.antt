-- ===== src/Storage/Secret.antt =====
-- storage/metrics_storage.go: the configuration of the Hawkular server, of which some values are
-- keys of secrets that the agent waits for. Times are in seconds. `look_up` is the data of a secret
-- by namespace and name at a time, if the look-up succeeds then, and `takes` how long a pass that
-- starts at a time takes besides its sleep of five seconds.
pub mod Waiting
pub mod Specified
pub mod Plain
pub mod Outcome
pub mod Settled
pub mod Clients
use hawkular_openshift_agent.Base.{
  starts_with, Str, String, codes, str_eq, str_eq_iff, str_eq_refl, string_eq, ℕ, zero, suc, ◌+◌,
  ◌-◌, ◌≤◌, ◌<◌, ◌==◌, ==_iff, ltb, leb, ℤ, pos, Bool, true, false, not, ◌&&◌, ◌||◌, ◌≡◌, ◌≢◌, ◌↔◌,
  ◌⊎◌, inl, inr, refl, sym, ap, ◌∙◌, Option, Option-cases, none, some, is_some, List, [], ◌∷◌, ◌++◌,
  append_assoc, append-nil, map, length, All, All-append, In, arith, Bool-cases, if◌then◌else◌,
  Result, ok, err, ◌>>=◌,
}
use hawkular_openshift_agent.Base.Map
use hawkular_openshift_agent.Base.Map.{Map}
use hawkular_openshift_agent.K8s.Secrets.{trim_left, secret}
use hawkular_openshift_agent.Config.Settings.{HawkularServer, Config, is_configured_for_kubernetes}
use hawkular_openshift_agent.Collector.{Credentials}

pub data ConfigError : Type 0 where
  timed_out invalid_specifier not_written no_client no_hawkular_client : ConfigError

-- The clock, and the files of the temporary directory.
pub record World : Type 0 where
  pub now : ℕ
  pub files : Map Str Str

-- Code that waits: none where the fuel of a loop does not suffice.
abbrev pub Waits : Type 0 → Type 0
Waits A = World → Option (World × Result ConfigError A)

abbrev pub return : {A : Type 0} → A → Waits A
return a w = some (w, ok a)

abbrev pub refuse : {A : Type 0} → ConfigError → Waits A
refuse e w = some (w, err e)

infixl 5 ◌>=>◌
abbrev pub ◌>=>◌ : {A B : Type 0} → Waits A → (A → Waits B) → Waits B
(m >=> f) w = elim (m w) [
  | none ↦ none
  | some (w', r) ↦ elim r [ ok a ↦ f a w' | err e ↦ some (w', err e) ]
]

-- strings.SplitN(v, sep, -1), of a separator of one byte.
abbrev pub add_first : ℕ → List Str → List Str
add_first c [] = (c ∷ []) ∷ []
add_first c (part ∷ parts) = (c ∷ part) ∷ parts

unfoldable pub split : ℕ → Str → List Str
split sep [] = [] ∷ []
split sep (c ∷ s) = let rest = split sep s in if c == sep then [] ∷ rest else add_first c rest

-- The namespace, the name and the key that a specifier is for.
unfoldable pub chosen : Str → List Str → Option (Str × Str × Str)
chosen pod_namespace [] = none
chosen pod_namespace (a ∷ []) = none
chosen pod_namespace (a ∷ b ∷ []) = some (pod_namespace, a, b)
chosen pod_namespace (a ∷ b ∷ c ∷ []) = some (a, b, c)
chosen pod_namespace (a ∷ b ∷ c ∷ d ∷ parts) = none

unfoldable pub specified : Str → Str → Option (Str × Str × Str)
specified pod_namespace v = chosen pod_namespace (split b'/' (trim_left v secret))

module _ (look_up : Str → Str → ℕ → Option (Map Str Str)) (takes : ℕ → ℕ) where
  -- What one pass finds.
  unfoldable pub value_at : Str → Str → Str → ℕ → Option Str
  value_at namespace name key now = elim (look_up namespace name now) [
    | none ↦ none
    | some secret_data ↦ Map.get secret_data key
  ]

  -- The loop of waitForSecret from a time on, which gives up behind the timeout.
  unfoldable pub wait : ℕ → (ℕ → Option Str) → ℕ → ℕ → Option (ℕ × Result ConfigError Str)
  wait zero value timeout now = none
  wait (suc fuel) value timeout now = elim (ltb timeout now) [
    | true ↦ some (now, err timed_out)
    | false ↦ elim (value now) [
      | some v ↦ some (now, ok v)
      | none ↦ wait fuel value timeout (now + takes now + 5)
    ]
  ]

  -- Sixty-two passes: no more than sixty-one start within five minutes.
  unfoldable pub wait_for_secret : Str → Str → Str → Waits Str
  wait_for_secret namespace name key w =
      elim (wait 62 (value_at namespace name key) (w.now + 300) w.now) [
        | none ↦ none
        | some (now, r) ↦ some (record w { now = now }, r)
      ]

  module _ (temp_dir : Str) (can_write : Str → Bool) (trim_space : Str → Str) where
    -- The name of the file for a key of a secret.
    unfoldable pub file_name : Str → Str → Str
    file_name name key = temp_dir ++ codes "/" ++ name ++ codes "/" ++ key

    unfoldable pub write_file : Str → Str → Waits Str
    write_file file bytes w = elim (can_write file) [
      | true ↦ some (record w { files = Map.put w.files file bytes }, ok file)
      | false ↦ some (w, err not_written)
    ]

    -- What becomes of the bytes of a key: the name of a file, or the value.
    unfoldable pub deliver : Bool → Str → Str → Str → Waits Str
    deliver false name key bytes = return (trim_space bytes)
    deliver true name key bytes = write_file (file_name name key) bytes

    unfoldable pub fetch : Option (Str × Str × Str) → Bool → Waits Str
    fetch none file = refuse invalid_specifier
    fetch (some (namespace, name, key)) file =
        wait_for_secret namespace name key >=> deliver file name key

    -- The function f, for the agent's own namespace.
    unfoldable pub credential : Str → Str → Bool → Waits Str
    credential pod_namespace v file = elim (starts_with v secret) [
      | false ↦ return v
      | true ↦ fetch (specified pod_namespace v) file
    ]

    unfoldable pub server_config : Str → HawkularServer → Waits HawkularServer
    server_config ns s = credential ns s.url false >=> λ url.
        credential ns s.ca_cert_file true >=> λ ca_cert_file.
        credential ns s.credentials.username false >=> λ username.
        credential ns s.credentials.password false >=> λ password.
        credential ns s.credentials.token false >=> λ token.
        credential ns s.tenant false >=> λ tenant. return (record {
          url = url;
          ca_cert_file = ca_cert_file;
          skip_certificate_validation = s.skip_certificate_validation;
          credentials = record { username = username; password = password; token = token };
          tenant = tenant;
        })

    -- `has_client` tells if the Kubernetes client can be made.
    unfoldable pub process_hawkular_metrics_config : Bool → Config → Waits HawkularServer
    process_hawkular_metrics_config has_client conf = elim (is_configured_for_kubernetes conf) [
      | false ↦ return conf.hawkular_server
      | true ↦ elim has_client [
        | false ↦ refuse no_client
        | true ↦ server_config conf.kubernetes.pod_namespace conf.hawkular_server
      ]
    ]
