-- ===== src/Json/Tests.antt =====
-- A JSON text with a number, an array of numbers and a nested map.
use hawkular_openshift_agent.Base.{
  str_eq, Str, codes, string_eq, ℕ, ◌+◌, true, false, ◌≡◌, refl, Option, some, List, [], ◌∷◌, In,
  err,
}
use hawkular_openshift_agent.Values.{bool, number, array, object, nil, item, Fields, end, field}
use hawkular_openshift_agent.Values.Counting.{counting}
use hawkular_openshift_agent.Collector.{MetricHeader, Endpoint}
use hawkular_openshift_agent.Json.{
  not_a_map, process_json, enter, type_in, metric_name_map, put_metrics, build_metric_id, add_label,
  metric, walk,
}
use hawkular_openshift_agent.Json.Sent.{AllSent, StandsFor, names_of, walk-StandsFor}
use hawkular_openshift_agent.Json.Panics.{AreUniform, IsUniform, Succeeds, walk-Succeeds}
use hawkular_openshift_agent.Json.{process_array, process_items, process_fields}
use hawkular_openshift_agent.Base.Sort.{sort_strings, keys}
use hawkular_openshift_agent.Base.{str_leb}
use hawkular_openshift_agent.Base.Map
use hawkular_openshift_agent.Json.Collection.{returned, unique_key}
use hawkular_openshift_agent.Json.Collected.{Distinct, keys_of, key_of, has_data, returned-once}

abbrev endpoint : Endpoint
endpoint = record {
  type = codes "json";
  enabled = codes "true";
  url = codes "http://pod/";
  skip_certificate_validation = false;
  credentials = record { username = []; password = []; token = [] };
  collection_interval = codes "30s";
  tenant = codes "t";
  tags = [];
  metrics = [];
}

-- One digit is enough here.
abbrev print : ℕ → Str
print n = (48 + n) ∷ []

abbrev cpu : Fields (Option ℕ)
cpu = field (codes "user") (number (some 7)) (field (codes "idle") (bool true) end)

abbrev json_text : Fields (Option ℕ)
json_text =
    field (codes "load") (array (item (number (some 3)) (item (number (some 5)) nil)))
      (field (codes "cpu") (object cpu) end)

abbrev sent : List (MetricHeader (Option ℕ))
sent =
    metric counting print endpoint 9 (codes "a") (codes "gauge") (some 1) []
    ∷ metric counting print endpoint 9 (codes "a") (codes "gauge") (some 2) []
    ∷ []

walk-StandsFor_example :
    AllSent
      (StandsFor counting print endpoint 9 (names_of json_text))
      (walk counting print endpoint 9 json_text)
walk-StandsFor_example =
    walk-StandsFor counting print endpoint 9 json_text ((λ e. cc), ((λ e. cc), tt))

json_text-AreUniform : AreUniform json_text
unfolding AreUniform IsUniform
json_text-AreUniform = (tt, ((tt, (tt, tt)), tt))

walk-Succeeds_example : Succeeds (walk counting print endpoint 9 json_text)
walk-Succeeds_example = walk-Succeeds counting print endpoint 9 json_text json_text-AreUniform

-- A number behind two maps of an array.
abbrev mixed_text : Fields (Option ℕ)
mixed_text = field (codes "load") (number (some 3)) (
    field (codes "cpus")
      (array (item (object cpu) (item (object cpu) (item (number (some 1)) nil)))) end)

mixed_test : walk counting print endpoint 9 mixed_text ≡ err not_a_map
unfolding walk process_json process_array process_items process_fields enter type_in metric_name_map
    put_metrics build_metric_id add_label
mixed_test = refl

returned-once_example :
    Distinct (keys_of (returned false sent))
    × ((m : MetricHeader (Option ℕ))
        → In m sent
        → has_data m ≡ true
        → In (key_of m) (keys_of (returned false sent)))
returned-once_example = returned-once sent

-- The keys of two different metrics can be the same.
keys_collide :
    unique_key {V = ℕ}
      (codes "a")
      (record { timestamp = 9; value = 1; tags = (codes "label1", codes "x") ∷ [] })
    ≡ unique_key {V = ℕ} (codes "alabel1x") (record { timestamp = 9; value = 1; tags = [] })
unfolding unique_key sort_strings keys str_leb Map.get str_eq
keys_collide = refl
