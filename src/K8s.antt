-- ===== src/K8s.antt =====
-- k8s: the pods and config maps of the node, and the events that they cause.
pub mod Pod
pub mod ConfigMaps
pub mod Discovery
pub mod Watcher
pub mod Secrets
pub mod Consumer
