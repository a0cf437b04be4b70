-- ===== src/Jolokia.antt =====
-- jolokia: the protocol of the Jolokia endpoints.
pub mod MetricName
pub mod Response
pub mod Collector
