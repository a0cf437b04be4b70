-- ===== src/Jolokia/Collector/Tests.antt =====
-- A bulk request for two metrics, and one of which the first name cannot be read.
use hawkular_openshift_agent.Base.{
  Str, codes, str_eq, string_eq, ℕ, ◌+◌, ◌≡◌, refl, Option, some, List, [], ◌∷◌, All, arith, ok,
}
use hawkular_openshift_agent.Values.{number}
use hawkular_openshift_agent.Values.Counting.{counting}
use hawkular_openshift_agent.Collector.{MonitoredMetric, MetricHeader}
use hawkular_openshift_agent.Jolokia.MetricName.{
  not_key_value, new_metric_name_parts, split_name, split_two, split_commas, key_value_pairs,
  read_pairs,
}
use hawkular_openshift_agent.Jolokia.Collector.{JolokiaRequest, JolokiaResponse, collect_metrics}
use hawkular_openshift_agent.Jolokia.Collector.Aligned.{
  IsReadable, zipped, collect_metrics-zipped, collect_metrics-misplaced,
}

abbrev as_it_is : Str → Str
as_it_is s = s

abbrev named : Str → MonitoredMetric
named name = record {
  id = [];
  name = name;
  type = codes "gauge";
  units = [];
  description = [];
  tags = [];
}

abbrev memory : MonitoredMetric
memory = named (codes "java.lang:type=Memory#Used")

abbrev threads : MonitoredMetric
threads = named (codes "java.lang:type=Threading#Count")

-- A pair without a value.
abbrev broken : MonitoredMetric
broken = named (codes "java.lang:type#Used")

abbrev response : ℕ → JolokiaResponse (Option ℕ)
response n = record { status = 200; value = number (some n) }

-- The endpoint answers each request.
abbrev answers : ℕ → List JolokiaRequest → List (JolokiaResponse (Option ℕ))
answers n [] = []
answers n (r ∷ rs) = response n ∷ answers (n + 1) rs

abbrev send : List JolokiaRequest → Option (List (JolokiaResponse (Option ℕ)))
send reqs = some (answers 1 reqs)

memory-IsReadable : IsReadable as_it_is memory
unfolding new_metric_name_parts split_name split_two split_commas key_value_pairs read_pairs str_eq
memory-IsReadable = refl

threads-IsReadable : IsReadable as_it_is threads
unfolding new_metric_name_parts split_name split_two split_commas key_value_pairs read_pairs str_eq
threads-IsReadable = refl

collect_metrics-zipped_example :
    collect_metrics counting 9 (codes "t") as_it_is send (memory ∷ threads ∷ [])
    ≡ ok (
        zipped as_it_is counting 9
          (codes "t")
          (response 1 ∷ response 2 ∷ [])
          (memory ∷ threads ∷ []))
collect_metrics-zipped_example =
    collect_metrics-zipped as_it_is counting 9 (codes "t") send memory (threads ∷ [])
      (response 1 ∷ response 2 ∷ []) (memory-IsReadable, (threads-IsReadable, tt)) refl
      (omega arith)

broken_name : (new_metric_name_parts as_it_is broken.name).1 ≡ some (not_key_value (codes "type"))
unfolding new_metric_name_parts split_name split_two split_commas key_value_pairs read_pairs str_eq
broken_name = refl

collect_metrics-misplaced_example :
    (ms : List (MetricHeader (Option ℕ))) × (collect_metrics counting 9
        (codes "t")
        as_it_is
        send
        (broken ∷ threads ∷ [])
      ≡ ok ms)
    × All (λ m. m.id ≡ broken.name) ms
collect_metrics-misplaced_example =
    collect_metrics-misplaced as_it_is counting 9 (codes "t") send broken threads (response 1)
      (not_key_value (codes "type")) broken_name threads-IsReadable refl
