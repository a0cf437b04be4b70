-- ===== src/Storage/Tests.antt =====
-- Messages of definitions for a server in memory, and a secret that appears after a minute.
use hawkular_openshift_agent.Base.{
  Str, codes, str_eq, string_eq, ℕ, ◌+◌, ◌≤◌, ltb, pos, true, false, ◌≡◌, inl, refl, Option, none,
  some, is_some, [], ◌∷◌, arith, if◌then◌else◌, Result, ok,
}
use hawkular_openshift_agent.Base.Map
use hawkular_openshift_agent.Base.Map.{Map}
use hawkular_openshift_agent.Collector.{Tags, MetricHeader, MetricDefinition, Credentials}
use hawkular_openshift_agent.Config.Settings.{Config}
use hawkular_openshift_agent.Storage.{
  MetricKey, metric_key, key_in, tenant_of, Storing, consume_definitions, consume_metrics,
}
use hawkular_openshift_agent.Storage.Stored.{Keeps}
use hawkular_openshift_agent.Storage.Consumed.{consume_definitions-Keeps}
use hawkular_openshift_agent.Storage.{Client, consume, count_written, data_points}
use hawkular_openshift_agent.Base.{List}
use hawkular_openshift_agent.Storage.Counted.{IsCounted, consume_metrics-IsCounted}
use hawkular_openshift_agent.Storage.Memory.{memory, memory-IsServer}
use hawkular_openshift_agent.Storage.Secret.{
  ConfigError, World, wait_for_secret, value_at, specified,
}
use hawkular_openshift_agent.Storage.Secret.Waiting.{
  IsOutcome, wait_for_secret-ends, wait_for_secret-finds,
}
use hawkular_openshift_agent.Storage.Secret.Specified.{specified-strays}

abbrev heap : Tags → MetricDefinition
heap tags = record { tenant = []; type = codes "gauge"; id = codes "heap"; tags = tags }

abbrev old_tags : Tags
old_tags = (codes "pod", codes "a") ∷ (codes "zone", codes "x") ∷ []

abbrev new_tags : Tags
new_tags = (codes "pod", codes "b") ∷ []

abbrev key : MetricKey
key = key_in (tenant_of (codes "t") []) (heap new_tags)

get-nil : Map.get {V = Str} [] (codes "pod") ≡ none
unfolding Map.get
get-nil = refl

consume_definitions-Keeps_example :
    Keeps
      (memory-IsServer.stored
        (consume_definitions memory (codes "t") ((key, old_tags) ∷ []) (heap new_tags ∷ []))
        key)
      new_tags
consume_definitions-Keeps_example =
    consume_definitions-Keeps memory memory-IsServer (codes "t") ((key, old_tags) ∷ [])
      (heap new_tags) [] [] [] (heap new_tags) refl (get-nil, tt) tt

abbrev up : MetricHeader ℕ
up = record {
  tenant = [];
  type = codes "gauge";
  id = codes "up";
  samples =
      record { timestamp = 1; value = 1; tags = [] }
      ∷ record { timestamp = 2; value = 0; tags = [] }
      ∷ [];
}

abbrev storing : Storing memory
storing = record { server = []; data_points_stored = 5 }

-- A server that is full behind its first message, and counts those it took.
abbrev full : Client ℕ
full = record {
  State = ℕ;
  definition = λ s k. (none, false);
  create = λ s k tags. s;
  delete_tags = λ s k tags. s;
  update_tags = λ s k tags. s;
  write = λ s tenant ms. if ltb s 1 then (s + 1, false) else (s, true);
}

abbrev messages_up : List (List (MetricHeader ℕ))
messages_up = (up ∷ []) ∷ [] ∷ (up ∷ up ∷ []) ∷ []

abbrev before : Storing full
before = record { server = 0; data_points_stored = 5 }

counted_test : (consume_metrics full (codes "t") before messages_up).data_points_stored ≡ 7
unfolding consume_metrics consume count_written data_points
counted_test = refl

consume_metrics-IsCounted_example :
    IsCounted full
      (codes "t")
      before
      messages_up
      (consume_metrics full (codes "t") before messages_up)
consume_metrics-IsCounted_example = consume_metrics-IsCounted full (codes "t") messages_up before

-- The secret has the key from the time 60 on.
abbrev found_at : Str → Str → ℕ → Option (Map Str Str)
found_at namespace name now = if ltb now 60 then none else some ((codes "key", codes "value") ∷ [])

abbrev world : World
world = record { now = 0; files = [] }

wait_for_secret-ends_example :
    (o : World × Result ConfigError Str) × (wait_for_secret found_at
        (λ t. 2)
        (codes "ns")
        (codes "name")
        (codes "key")
        world
      ≡ some o)
    × IsOutcome
        (λ t. 2)
        found_at
        (value_at found_at (λ t. 2) (codes "ns") (codes "name") (codes "key"))
        300
        o.0.now
        o.1
    × (0 ≤ o.0.now)
wait_for_secret-ends_example =
    wait_for_secret-ends (λ t. 2) found_at (codes "ns") (codes "name") (codes "key") world

is_there :
    (t : ℕ)
    → 60 ≤ t
    → is_some (value_at found_at (λ t. 2) (codes "ns") (codes "name") (codes "key") t) ≡ true
unfolding value_at Map.get str_eq
is_there t h = ground arith

wait_for_secret-finds_example :
    (w' : World) × (v : Str) × (wait_for_secret found_at
        (λ t. 2)
        (codes "ns")
        (codes "name")
        (codes "key")
        world
      ≡ some (w', ok v))
wait_for_secret-finds_example =
    wait_for_secret-finds (λ t. 2) found_at (codes "ns") (codes "name") (codes "key") world 60 2
      (omega arith) (λ t. omega arith) is_there

specified-strays_example :
    specified (codes "ns") (codes "secret:store/key")
    ≡ specified (codes "ns") (codes "secret:tore/key")
specified-strays_example = specified-strays (codes "ns") b's' (codes "tore/key") (inl refl)

abbrev no_login : Credentials
no_login = record { username = []; password = []; token = [] }

abbrev conf : Config
conf = record {
  cert_file = [];
  private_key_file = [];
  hawkular_server = record {
    url = codes "http://h/";
    tenant = codes "t";
    skip_certificate_validation = false;
    ca_cert_file = [];
    credentials = record {
      username = codes "admin";
      password = codes "secret:name/key";
      token = [];
    };
  };
  emitter = record {
    metrics_enabled = [];
    status_enabled = [];
    health_enabled = [];
    address = [];
    metrics_credentials = no_login;
    status_log_size = pos 10;
    status_credentials = no_login;
  };
  collector = record {
    max_metrics_per_pod = pos 50;
    minimum_collection_interval = [];
    default_collection_interval = [];
    tags = [];
    pod_label_tags_prefix = [];
    metric_id_prefix = [];
  };
  kubernetes = record {
    master_url = [];
    token = [];
    ca_cert_file = [];
    pod_namespace = codes "ns";
    pod_name = [];
    tenant = [];
  };
  endpoints = [];
}

abbrev trimmed : Str → Str
trimmed s = s
