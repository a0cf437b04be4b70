-- ===== src/Collector/Validation/Tests.antt =====
-- The theorems on validation at concrete inputs.
use hawkular_openshift_agent.Base.{
  if◌then◌else◌, Str, codes, str_eq, ℤ, pos, ◌≡◌, refl, ◌↔◌, Option, none, some, [], ◌∷◌, map,
  false,
}
use hawkular_openshift_agent.Collector.{Endpoint, MonitoredMetric}
use hawkular_openshift_agent.Config.Security.{validate_credentials}
use hawkular_openshift_agent.Collector.Validation.{
  validate_endpoint, validate_endpoint_iff, validate_endpoint-default_id, IsEndpoint, default_id,
  jolokia, gauge,
}

abbrev parse : Str → Option ℤ
parse s = if str_eq s (codes "10s") then some (pos 10_000_000_000) else none

abbrev threads : MonitoredMetric
threads = record {
  id = [];
  name = codes "java.lang:type=Threading#ThreadCount";
  type = gauge;
  units = [];
  description = [];
  tags = [];
}

abbrev wildfly : Endpoint
wildfly = record {
  type = jolokia;
  enabled = codes "true";
  url = codes "http://h/jolokia";
  skip_certificate_validation = false;
  credentials = record { username = []; password = []; token = [] };
  collection_interval = codes "10s";
  tenant = [];
  tags = [];
  metrics = threads ∷ [];
}

wildfly_validates : (validate_endpoint parse wildfly).1 ≡ none
unfolding validate_endpoint validate_credentials str_eq
wildfly_validates = refl

validate_endpoint_iff_example :
    ((validate_endpoint parse wildfly).1 ≡ none) ↔ IsEndpoint parse wildfly
validate_endpoint_iff_example = validate_endpoint_iff parse wildfly

validate_endpoint-default_id_example :
    (validate_endpoint parse wildfly).0
    ≡ record wildfly { metrics = map default_id wildfly.metrics }
validate_endpoint-default_id_example = validate_endpoint-default_id parse wildfly wildfly_validates
