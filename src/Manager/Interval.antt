-- ===== src/Manager/Interval.antt =====
-- How often a collector collects.
use hawkular_openshift_agent.Base.{
  Str, str_eq_iff, ℤ, pos, negsuc, int_lt, ◌≡◌, ◌≢◌, false, or_else, none, some, [], arith,
  if◌then◌else◌,
}
use hawkular_openshift_agent.Manager.{Platform, CollectorConfig, collection_interval, five_minutes}

int_lt_irrefl : (a : ℤ) → int_lt a a ≡ false
int_lt_irrefl (pos a) = ground arith
int_lt_irrefl (negsuc a) = ground arith

-- When the configured minimum is a duration, no collector's interval is below it, whatever its
-- endpoint asks for.
pub interval-ge-minimum :
    (os : Platform) (conf : CollectorConfig) (interval : Str) (minimum : ℤ)
    → os.parse_duration conf.minimum_collection_interval ≡ some minimum
    → int_lt (collection_interval os conf interval) minimum ≡ false
unfolding collection_interval
interval-ge-minimum os conf interval minimum h = ground (arith, int_lt_irrefl minimum)

-- An interval that is no duration is replaced by the default, and by five minutes if the default
-- is no duration either.
pub interval-fallback :
    (os : Platform) (conf : CollectorConfig) (interval : Str) (minimum : ℤ)
    → interval ≢ []
    → os.parse_duration interval ≡ none
    → os.parse_duration conf.minimum_collection_interval ≡ some minimum
    → collection_interval os conf interval ≡ (
        let d = or_else (os.parse_duration conf.default_collection_interval) five_minutes in
        if int_lt d minimum then minimum else d)
unfolding collection_interval
interval-fallback os conf interval minimum given h k = ground (arith, str_eq_iff interval [])
