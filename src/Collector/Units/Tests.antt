-- ===== src/Collector/Units/Tests.antt =====
-- The theorem on units at concrete inputs.
use hawkular_openshift_agent.Base.{codes, str_eq, ◌≡◌, refl, true, false}
use hawkular_openshift_agent.Collector.Units.{
  MetricUnits, get_metric_units, find_units, standard_metric_units_list, unknown,
}

abbrev bytes_per_second : MetricUnits
bytes_per_second = record { symbol = codes "B/s"; custom = true }

units_of_custom : get_metric_units (codes "custom:B/s") ≡ (bytes_per_second, true)
unfolding get_metric_units
units_of_custom = refl

units_of_nothing_custom :
    get_metric_units (codes "custom:") ≡ (record { symbol = unknown; custom = false }, false)
unfolding get_metric_units find_units standard_metric_units_list str_eq
units_of_nothing_custom = refl
