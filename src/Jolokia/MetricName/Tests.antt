-- ===== src/Jolokia/MetricName/Tests.antt =====
-- Metric names with a wildcard and with a pair that is not one.
use hawkular_openshift_agent.Base.{
  str_eq, Str, codes, ℕ, ◌==◌, ==_iff, ◌≡◌, ◌↔◌, refl, Bool, true, not, ◌&&◌, none, [], ◌∷◌, All,
  arith,
}
use hawkular_openshift_agent.Jolokia.MetricName.{
  Without, IsPair, split_two, split_commas, key_value_pairs, new_metric_name_parts,
  new_metric_name_parts_lem, read_pairs, split_name,
}

has_none : ℕ → Str → Bool
has_none c [] = true
has_none c (d ∷ s) = not (d == c) && has_none c s

has_none-Without : (c : ℕ) (s : Str) → has_none c s ≡ true → Without c s
unfolding has_none
has_none-Without c [] h = tt
has_none-Without c (d ∷ s) h = (ground (arith, ==_iff d c), has_none-Without c s (ground arith))

abbrev as_it_is : Str → Str
as_it_is s = s

abbrev mbean : Str
mbean = codes "java.lang:type=Memory,name=*"

new_metric_name_parts_lem_example :
    let (parts, err) =
      new_metric_name_parts as_it_is (codes "java.lang:type=Memory,name=*#HeapMemoryUsage#used") in
    (parts.mbean ≡ mbean)
    × (parts.attribute ≡ codes "HeapMemoryUsage")
    × (parts.path ≡ codes "used")
    × ((err ≡ none) ↔ All (IsPair as_it_is) (split_commas (key_value_pairs mbean)))
unfolding has_none
new_metric_name_parts_lem_example =
    new_metric_name_parts_lem as_it_is mbean (codes "HeapMemoryUsage") (codes "used")
      (has_none-Without b'#' mbean refl) (has_none-Without b'#' (codes "HeapMemoryUsage") refl)

name_is_accepted :
    (new_metric_name_parts as_it_is (codes "java.lang:type=Memory,name=*#HeapMemoryUsage#used")).1
    ≡ none
unfolding new_metric_name_parts split_name split_two split_commas key_value_pairs read_pairs str_eq
name_is_accepted = refl
