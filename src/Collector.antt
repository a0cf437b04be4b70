-- ===== src/Collector.antt =====
-- collector/metrics_collector.go and collector/metrics_endpoint.go: the data that the collectors,
-- the manager and the tracker share, with the metric headers of the Hawkular client library.
-- `V` is the type of a datapoint's value, a float or an `interface{}` that is only carried along.
pub mod Units
pub mod Validation
use hawkular_openshift_agent.Base.{
  Str, str_eq, str_eq_iff, Eq, ℕ, ◌≡◌, ◌↔◌, Bool, true, ◌&&◌, List, arith,
}
use hawkular_openshift_agent.Base.Map.{Map}

abbrev pub Tags : Type 0
Tags = Map Str Str

pub record Datapoint (V : Type 0) : Type 0 where
  pub timestamp : ℕ
  pub value : V
  pub tags : Tags

pub record MetricHeader (V : Type 0) : Type 0 where
  pub tenant : Str
  pub type : Str
  pub id : Str
  pub samples : List (Datapoint V)

pub record MetricDefinition : Type 0 where
  pub tenant : Str
  pub type : Str
  pub id : Str
  pub tags : Tags

pub record CollectorId : Type 0 where
  pub pod_id : Str
  pub endpoint_id : Str

-- `i == id` on the struct.
abbrev pub id_eq : CollectorId → CollectorId → Bool
id_eq a b = str_eq a.pod_id b.pod_id && str_eq a.endpoint_id b.endpoint_id

pub id_eq_iff : (a b : CollectorId) → (id_eq a b ≡ true) ↔ (a ≡ b)
id_eq_iff a b = ground (arith, str_eq_iff a.pod_id b.pod_id, str_eq_iff a.endpoint_id b.endpoint_id)

instance abbrev pub id_key : Eq CollectorId
id_key = record { beq = id_eq; beq_iff = id_eq_iff }

pub record MetricDetails : Type 0 where
  pub name : Str
  pub metric_type : Str
  pub description : Str

pub record MonitoredMetric : Type 0 where
  pub id : Str
  pub name : Str
  pub type : Str
  pub units : Str
  pub description : Str
  pub tags : Tags

pub record Credentials : Type 0 where
  pub username : Str
  pub password : Str
  pub token : Str

pub record Endpoint : Type 0 where
  pub type : Str
  pub enabled : Str
  pub url : Str
  pub skip_certificate_validation : Bool
  pub credentials : Credentials
  pub collection_interval : Str
  pub tenant : Str
  pub tags : Tags
  pub metrics : List MonitoredMetric
