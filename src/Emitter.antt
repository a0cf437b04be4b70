-- ===== src/Emitter.antt =====
-- emitter/emitter_server.go: which handlers are registered, where the server listens, and what a
-- handler answers. `page` is what the Prometheus handler, or the status report, gives.
pub mod Access
mod Tests
use hawkular_openshift_agent.Base.{
  Str, String, codes, str_eq, str_eq_iff, str_eq_refl, string_eq, ℕ, zero, suc, ◌+◌, ◌-◌, ◌≤◌, ◌<◌,
  ◌==◌, ==_iff, ltb, leb, ℤ, pos, Bool, true, false, not, ◌&&◌, ◌||◌, ◌≡◌, ◌≢◌, ◌↔◌, ◌⊎◌, inl, inr,
  refl, sym, ap, ◌∙◌, Option, Option-cases, none, some, is_some, List, [], ◌∷◌, ◌++◌, append_assoc,
  append-nil, map, length, All, All-append, In, arith, Bool-cases, if◌then◌else◌, Result, ok, err,
  ◌>>=◌,
}
use hawkular_openshift_agent.Base.Map
use hawkular_openshift_agent.Base.Map.{Map}
use hawkular_openshift_agent.Collector.{Credentials}
use hawkular_openshift_agent.Config.Settings.{Config, Emitter}

pub data Handler : Type 0 where
  metrics_handler status_handler : Credentials → Handler
  health_handler : Handler

-- The server that StartEmitter starts: the handlers by path, the address, and if it is secure.
pub record Server : Type 0 where
  pub handlers : List (Str × Handler)
  pub address : Str
  pub secure : Bool

abbrev is_set : Str → Bool
is_set [] = false
is_set (c ∷ s) = true

abbrev is_enabled : Str → Bool
is_enabled s = str_eq s (codes "true")

-- The credentials of a handler, without a token.
abbrev basic : Credentials → Credentials
basic c = record { username = c.username; password = c.password; token = [] }

unfoldable pub handlers_of : Emitter → List (Str × Handler)
handlers_of e =
    (if is_enabled e.metrics_enabled
      then (codes "/metrics", metrics_handler (basic e.metrics_credentials)) ∷ []
      else [])
    ++ (if is_enabled e.status_enabled
        then (codes "/status", status_handler (basic e.status_credentials)) ∷ []
        else [])
    ++ (if is_enabled e.health_enabled then (codes "/health", health_handler) ∷ [] else [])

unfoldable pub is_secure : Config → Bool
is_secure conf = is_set conf.cert_file && is_set conf.private_key_file

unfoldable pub address_of : Config → Str
address_of conf = elim conf.emitter.address [
  | [] ↦ if is_secure conf then codes ":8443" else codes ":8080"
  | c ∷ address ↦ c ∷ address
]

unfoldable pub start_with : Config → List (Str × Handler) → Option Server
start_with conf [] = none
start_with conf (h ∷ hs) =
    some (record { handlers = h ∷ hs; address = address_of conf; secure = is_secure conf })

-- None where the emitter is disabled.
unfoldable pub start_emitter : Config → Option Server
start_emitter conf = start_with conf (handlers_of conf.emitter)

-- What is written to the client.
pub record Answer : Type 0 where
  pub status : ℕ
  pub challenge : Bool
  pub body : Str

-- The status code that the first part of a handler computes, from what BasicAuth gives.
unfoldable pub status_code : Credentials → Option (Str × Str) → ℕ
status_code c auth =
    if is_set c.username || is_set c.password
    then elim auth [
      | none ↦ 401
      | some (u, p) ↦ if not (str_eq c.username u) || not (str_eq c.password p) then 403 else 200
    ]
    else 200

-- The switch on the status code. `page` is what is served with 200; http.Error writes the code's
-- text, with a line end that is left out here.
unfoldable pub answer : ℕ → Str → Answer
answer code page =
    if code == 200
    then record { status = 200; challenge = false; body = page }
    else if code == 401
    then record { status = 401; challenge = true; body = codes "Unauthorized" }
    else record { status = code; challenge = false; body = codes "Forbidden" }

unfoldable pub handle_metrics : Credentials → Option (Str × Str) → Str → Answer
handle_metrics c auth page = answer (status_code c auth) page

unfoldable pub handle_status : Credentials → Option (Str × Str) → Str → Answer
handle_status c auth report = answer (status_code c auth) report

-- The health probe writes the status and the content that emitter/health keeps.
unfoldable pub handle_health : ℕ → Str → Answer
handle_health code content = record { status = code; challenge = false; body = content }

-- What a handler answers, where the pages of the metrics and of the status report are given.
unfoldable pub handle : Str → Str → ℕ × Str → Option (Str × Str) → Handler → Answer
handle metrics report health auth (metrics_handler c) = handle_metrics c auth metrics
handle metrics report health auth (status_handler c) = handle_status c auth report
handle metrics report health auth health_handler = handle_health health.0 health.1

-- A request for a path: none where no handler is registered, which net/http answers.
unfoldable pub serve :
    Server → (metrics report : Str) → ℕ × Str → Str → Option (Str × Str) → Option Answer
serve server metrics report health path auth = elim (Map.get server.handlers path) [
  | none ↦ none
  | some h ↦ some (handle metrics report health auth h)
]
