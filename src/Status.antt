-- ===== src/Status.antt =====
-- emitter/status/status_emitter.go: the status report with its rolling log. The report holds a
-- pointer to the manager's tracker; what it points to is an argument here, `none` for nil. The lock
-- makes each method one step.
pub mod Report
pub mod Log
mod Tests
use hawkular_openshift_agent.Base.{
  Str, codes, str_eq, string_eq, ℕ, ltb, Bool, true, false, not, Option, none, some, List, [], ◌∷◌,
  ◌++◌, length, replicate, if◌then◌else◌,
}
use hawkular_openshift_agent.Base.Map
use hawkular_openshift_agent.Base.Map.{Map}
use hawkular_openshift_agent.Collector.{CollectorId}
use hawkular_openshift_agent.Tracker.{MetricsTracker, get_all_pods, get_all_endpoints}

pub record StatusReport : Type 0 where
  pub name : Str
  pub version : Str
  pub commit_hash : Str
  pub metrics : Map Str (Map Str ℕ)
  pub endpoints : Map Str Str
  pub log : List Str

-- make([]string, logSize); a negative size panics in Go and is no size here.
unfoldable pub init_status_report : Str → Str → Str → ℕ → StatusReport
init_status_report name version commit_hash log_size = record {
  name = name;
  version = version;
  commit_hash = commit_hash;
  metrics = [];
  endpoints = [];
  log = replicate log_size [];
}

unfoldable pub get_endpoint_message : StatusReport → CollectorId → Option Str
get_endpoint_message s id = Map.get s.endpoints id.endpoint_id

unfoldable pub set_endpoint_message : StatusReport → CollectorId → Str → StatusReport
set_endpoint_message s id msg =
    if str_eq msg []
    then record s { endpoints = Map.delete s.endpoints id.endpoint_id }
    else record s { endpoints = Map.put s.endpoints id.endpoint_id msg }

-- The loop deletes every key.
unfoldable pub delete_all_endpoint_messages : StatusReport → StatusReport
delete_all_endpoint_messages s = record s { endpoints = [] }

-- copy(s.Log, s.Log[1:]), and the last entry set.
shift : List Str → Str → List Str
shift [] entry = []
shift (x ∷ xs) entry = xs ++ entry ∷ []

-- `now` is the formatted time.
unfoldable pub add_log_message : Str → StatusReport → Str → StatusReport
unfolding shift
add_log_message now s m =
    if ltb 1 (length s.log) then record s { log = shift s.log (now ++ (codes ": " ++ m)) } else s

add_valid : Map Str ℕ → Map Str Bool → Map Str Bool
add_valid [] valid = valid
add_valid ((eid, n) ∷ endpoints) valid = add_valid endpoints (Map.put valid eid true)

valid_endpoints : MetricsTracker → Map Str ℕ → Map Str Bool → Map Str Bool
unfolding add_valid
valid_endpoints mt [] valid = valid
valid_endpoints mt ((pid, n) ∷ pods) valid =
    valid_endpoints mt pods (add_valid (get_all_endpoints mt pid) valid)

keep_valid : Map Str Bool → Map Str Str → Map Str Str
keep_valid valid [] = []
keep_valid valid ((eid, msg) ∷ endpoints) =
    let rest = keep_valid valid endpoints in if Map.has valid eid then (eid, msg) ∷ rest else rest

unfoldable pub cleanup : Option MetricsTracker → StatusReport → StatusReport
unfolding valid_endpoints keep_valid
cleanup none s = s
cleanup (some mt) s = record s {
  endpoints = keep_valid (valid_endpoints mt (get_all_pods mt) []) s.endpoints;
}

report_pods : MetricsTracker → Map Str ℕ → Map Str (Map Str ℕ) → Map Str (Map Str ℕ)
report_pods mt [] metrics = metrics
report_pods mt ((pid, n) ∷ pods) metrics =
    report_pods mt pods (Map.put metrics pid (get_all_endpoints mt pid))

report_metrics : Option MetricsTracker → Map Str (Map Str ℕ)
unfolding report_pods
report_metrics none = []
report_metrics (some mt) = report_pods mt (get_all_pods mt) []

unfoldable pub populate : Option MetricsTracker → StatusReport → StatusReport
unfolding report_metrics
populate tracker s = record (cleanup tracker s) { metrics = report_metrics tracker }
