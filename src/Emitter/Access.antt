-- ===== src/Emitter/Access.antt =====
-- emitter/emitter_server.go: the access to what the emitter serves.
use hawkular_openshift_agent.Base.{
  Str, codes, str_eq_iff, string_eq, ℕ, Bool, true, false, ◌||◌, ◌≡◌, ◌≢◌, ◌↔◌, ◌⊎◌, inl, inr, refl,
  ap, Option, Option-cases, none, some, List, [], ◌∷◌, All, All-append, arith, if◌then◌else◌,
}
use hawkular_openshift_agent.Base.Map
use hawkular_openshift_agent.Base.Map.{Map, All-get}
use hawkular_openshift_agent.Collector.{Credentials}
use hawkular_openshift_agent.Config.Settings.{Config, Emitter}
use hawkular_openshift_agent.Emitter.{
  Handler, metrics_handler, status_handler, health_handler, Server, is_set, is_enabled, basic,
  handlers_of, start_with, start_emitter, status_code, answer, handle_status, handle, serve,
}

-- The credentials ask for a login.
abbrev pub AreSet : Credentials → Type 0
AreSet c = (is_set c.username || is_set c.password) ≡ true

-- A handler answers with 200 just where its credentials do not ask for a login, or the request
-- brings the same name and password; the metrics handler and the status handler do the same.
pub status_code_iff :
    (c : Credentials) (auth : Option (Str × Str))
    → (status_code c auth ≡ 200) ↔ (
        ((is_set c.username || is_set c.password) ≡ false) ⊎ (auth ≡ some (c.username, c.password)))
unfolding status_code
status_code_iff c none = ground arith
status_code_iff c (some (u, p)) = ground (arith, str_eq_iff c.username u, str_eq_iff c.password p)

answer-hides : (code : ℕ) (page page' : Str) → code ≢ 200 → answer code page ≡ answer code page'
unfolding answer
answer-hides code page page' ne = ground arith

module _ (auth : Option (Str × Str)) where
  -- A status handler that does not let the request in.
  abbrev IsClosed : Str × Handler → Type 0
  IsClosed (path, metrics_handler c) = Unit
  IsClosed (path, status_handler c) = status_code c auth ≢ 200
  IsClosed (path, health_handler) = Unit

  All-if : (b : Bool) (h : Str × Handler) → IsClosed h → All IsClosed (if b then h ∷ [] else [])
  All-if true h c = (c, tt)
  All-if false h c = tt

  handlers-IsClosed :
      (e : Emitter)
      → status_code (basic e.status_credentials) auth ≢ 200
      → All IsClosed (handlers_of e)
  unfolding handlers_of
  handlers-IsClosed e h =
      All-append IsClosed _ _
        (All-append IsClosed _ _
          (All-if (is_enabled e.metrics_enabled)
            (codes "/metrics", metrics_handler (basic e.metrics_credentials)) tt)
          (All-if (is_enabled e.status_enabled)
            (codes "/status", status_handler (basic e.status_credentials)) h))
        (All-if (is_enabled e.health_enabled) (codes "/health", health_handler) tt)

  handle-hides :
      (metrics report report' path : Str) (health : ℕ × Str) (h : Handler)
      → IsClosed (path, h)
      → handle metrics report health auth h ≡ handle metrics report' health auth h
  unfolding handle handle_status
  handle-hides metrics report report' path health (metrics_handler c) closed = refl
  handle-hides metrics report report' path health (status_handler c) closed =
      answer-hides (status_code c auth) report report' closed
  handle-hides metrics report report' path health health_handler closed = refl

  serve-hides :
      (server : Server) (metrics report report' path : Str) (health : ℕ × Str)
      → All IsClosed server.handlers
      → serve server metrics report health path auth ≡ serve server metrics report' health path auth
  unfolding serve
  serve-hides server metrics report report' path health closed =
      elim (Option-cases (Map.get server.handlers path)) [
        | inl missing ↦ rw (missing, serve) refl
        | inr (h, is) ↦
            rw (is, serve)
              (ap some (
                handle-hides metrics report report' path health h
                  (All-get IsClosed server.handlers path h closed is)))
      ]

start_with-handlers :
    (conf : Config) (hs : List (Str × Handler)) (server : Server)
    → start_with conf hs ≡ some server
    → server.handlers ≡ hs
unfolding start_with
start_with-handlers conf [] server h = cc
start_with-handlers conf (x ∷ hs) server h = ground arith

start_emitter-handlers :
    (conf : Config) (server : Server)
    → start_emitter conf ≡ some server
    → server.handlers ≡ handlers_of conf.emitter
unfolding start_emitter
start_emitter-handlers conf server h = start_with-handlers conf (handlers_of conf.emitter) server h

refused :
    (c : Credentials) (auth : Option (Str × Str))
    → AreSet c
    → auth ≢ some (c.username, c.password)
    → status_code (basic c) auth ≢ 200
refused c auth set wrong = ground (arith, status_code_iff (basic c) auth)

-- Where the emitter was started with credentials for the status report, what it answers to a
-- request without this name and password, for any path, is the same whatever the report says.
pub serve-private :
    (conf : Config) (server : Server) (auth : Option (Str × Str))
    (metrics report report' path : Str) (health : ℕ × Str)
    → start_emitter conf ≡ some server
    → AreSet conf.emitter.status_credentials
    → auth
      ≢ some (conf.emitter.status_credentials.username, conf.emitter.status_credentials.password)
    → serve server metrics report health path auth ≡ serve server metrics report' health path auth
serve-private conf server auth metrics report report' path health started set wrong =
    serve-hides auth server metrics report report' path health (
      rw (start_emitter-handlers conf server started) (
        handlers-IsClosed auth conf.emitter
          (refused conf.emitter.status_credentials auth set wrong)))
