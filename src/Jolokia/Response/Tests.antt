-- ===== src/Jolokia/Response/Tests.antt =====
-- The response for all attributes of an mbean.
use hawkular_openshift_agent.Base.{
  codes, str_eq, string_eq, ℕ, true, false, ◌≡◌, refl, Option, some, [], ◌∷◌, All,
}
use hawkular_openshift_agent.Values.{bool, number, object, Fields, end, field, entries}
use hawkular_openshift_agent.Values.Counting.{counting}
use hawkular_openshift_agent.Jolokia.MetricName.{is_all_attributes}
use hawkular_openshift_agent.Jolokia.Response.{
  Reading, process_jolokia_response_value_object, process_single_mbean,
}
use hawkular_openshift_agent.Jolokia.Response.Samples.{IsSample, process-AreSamples}
use hawkular_openshift_agent.Jolokia.Response.Tagged.{IsOfAttribute, all_attributes-IsOfAttribute}

abbrev reading : Reading
reading = record {
  now = 9;
  tenant_id = codes "t";
  metric = record {
    id = [];
    name = codes "java.lang:type=Memory#*";
    type = codes "gauge";
    units = [];
    description = [];
    tags = [];
  };
  parts = record {
    mbean = codes "java.lang:type=Memory";
    attribute = codes "*";
    path = [];
    key_values = (codes "type", codes "Memory") ∷ [];
    key_wildcards = [];
  };
}

abbrev fields : Fields (Option ℕ)
fields =
    field (codes "Verbose") (bool false)
      (field (codes "HeapMemoryUsage") (object (field (codes "used") (number (some 7)) end)) end)

asks_for_all : is_all_attributes reading.parts ≡ true
unfolding is_all_attributes str_eq
asks_for_all = refl

process-AreSamples_example :
    All
      (IsSample reading)
      (process_jolokia_response_value_object counting reading (λ s. s) (object fields))
process-AreSamples_example = process-AreSamples counting reading (λ s. s) (object fields)

all_attributes-IsOfAttribute_example :
    All
      (IsOfAttribute counting reading (entries fields))
      (process_single_mbean counting reading (object fields))
all_attributes-IsOfAttribute_example =
    all_attributes-IsOfAttribute counting reading fields asks_for_all
