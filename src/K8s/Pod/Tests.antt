-- ===== src/K8s/Pod/Tests.antt =====
-- A pod's identifier at a concrete pod.
use hawkular_openshift_agent.Base.{codes, refl, ◌≡◌, []}
use hawkular_openshift_agent.K8s.Pod.{Pod, get_identifier}

abbrev web : Pod
web = record {
  node = record { name = codes "n1"; uid = codes "u1" };
  namespace = record { name = codes "shop"; uid = codes "u2" };
  name = codes "web";
  uid = codes "7/a";
  pod_ip = codes "10.0.0.1";
  host_ip = [];
  hostname = [];
  subdomain = [];
  labels = [];
  annotations = [];
  config_map_volumes = [];
  cluster_name = [];
  resource_version = [];
  self_link = [];
}

abbrev moved : Pod
moved = record web { pod_ip = codes "10.0.0.2" }

identifier_of_moved : get_identifier moved ≡ get_identifier web
unfolding get_identifier
identifier_of_moved = refl
