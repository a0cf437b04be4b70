-- ===== src/Main/Validated/Checks.antt =====
-- hawkular-openshift-agent.go: the checks of validateConfig one by one.
use hawkular_openshift_agent.Base.{
  Result-cases, Str, codes, str_eq, string_eq, ℕ, zero, suc, ◌≤◌, ℤ, pos, true, false, ◌≡◌, ◌≢◌,
  inl, inr, refl, Option, Option-cases, none, some, List, [], ◌∷◌, All, arith, Result, ok, int_lt,
  negsuc,
}
use mathlib.Core.Path.{subst}
use hawkular_openshift_agent.Collector.{Credentials, Endpoint}
use hawkular_openshift_agent.Config.Security.{
  IsOneKind, validate_credentials_iff, CredentialsError, given,
}
use hawkular_openshift_agent.Collector.Validation.{validate_endpoint, validate_endpoint-ids}
use hawkular_openshift_agent.Main.{
  Fatal, five_seconds, check_emitter, check_server, check_log_size, check_max_metrics,
  minimum_interval, given_default, default_interval, validate_endpoints,
}

pub ok_inj : {E A : Type 0} {a b : A} → ◌≡◌ {A = Result E A} (ok a) (ok b) → a ≡ b
ok_inj h = ground arith

pub check_log_size_lem :
    (n : ℤ) (u : Unit {0}) → check_log_size n ≡ ok u → (k : ℕ) × (n ≡ pos k) × (10 ≤ k) × (k ≤ 1000)
unfolding check_log_size
check_log_size_lem (pos k) u h = (k, refl, ground arith, ground arith)
check_log_size_lem (negsuc k) u h = cc

pub check_max_metrics_lem :
    (n : ℤ) (u : Unit {0}) → check_max_metrics n ≡ ok u → (k : ℕ) × (n ≡ pos (suc k))
unfolding check_max_metrics
check_max_metrics_lem (pos zero) u h = cc
check_max_metrics_lem (pos (suc k)) u h = (k, refl)
check_max_metrics_lem (negsuc k) u h = cc

-- The credentials of an emitter that is enabled are of one kind, and that is not a token.
abbrev pub IsGuarded : Str → Credentials → Type 0
IsGuarded enabled c = str_eq enabled (codes "true") ≡ true → IsOneKind c × (given c.token ≡ false)

pub check_emitter_lem :
    (enabled : Str) (c : Credentials) (bad : CredentialsError → Fatal) (token : Fatal)
    (u : Unit {0})
    → check_emitter enabled c bad token ≡ ok u
    → IsGuarded enabled c
unfolding check_emitter
check_emitter_lem enabled c bad token u h = λ on. ground (arith, validate_credentials_iff c)

pub check_server_lem : (c : Credentials) (u : Unit {0}) → check_server c ≡ ok u → IsOneKind c
unfolding check_server
check_server_lem c u h = ground (arith, validate_credentials_iff c)

module _ (parse_duration : Str → Option ℤ)
    (five : parse_duration (codes "5s") ≡ some five_seconds) where
  pub minimum_interval_lem :
      (s : Str) (m : Str × ℤ)
      → minimum_interval parse_duration s ≡ ok m
      → (parse_duration m.0 ≡ some m.1) × (int_lt m.1 five_seconds ≡ false)
  unfolding minimum_interval
  minimum_interval_lem [] m h = ground arith
  minimum_interval_lem (c ∷ s) m h = ground arith

  pub default_interval_lem :
      (s : Str) (minimum : ℤ) (r : Str)
      → default_interval parse_duration s minimum ≡ ok r
      → (d : ℤ) × (parse_duration r ≡ some d) × (int_lt d minimum ≡ false)
  unfolding default_interval
  default_interval_lem s minimum r h =
      elim (Option-cases (parse_duration (given_default parse_duration s))) [
        | inl bad ↦ cc
        | inr (d, is) ↦ (d, ground arith, ground arith)
      ]

  -- Every endpoint is valid, and every one of its metrics has an id.
  pub validate_endpoints_lem :
      (es es' : List Endpoint)
      → validate_endpoints parse_duration es ≡ ok es'
      → All (λ e. (validate_endpoint parse_duration e).1 ≡ none) es
        × All (λ e. All (λ m. m.id ≢ []) e.metrics) es'
  unfolding validate_endpoints
  validate_endpoints_lem [] [] h = (tt, tt)
  validate_endpoints_lem [] (e ∷ es') h = cc
  validate_endpoints_lem (e ∷ es) es' h =
      elim (Option-cases (validate_endpoint parse_duration e).1) [
        | inr (x, bad) ↦ cc (rw (bad, validate_endpoints) at h)
        | inl good ↦ elim (Result-cases (validate_endpoints parse_duration es)) [
          | inl (x, bad) ↦ cc (rw (good, bad, validate_endpoints) at h)
          | inr (more, is) ↦
              let (valid, named) = validate_endpoints_lem es more is in
              let head : ◌≡◌ {A = Result Fatal (List Endpoint)}
                  (ok ((validate_endpoint parse_duration e).0 ∷ more)) (ok es') =
                rw (good, is, validate_endpoints) at h in
              (
                (good, valid),
                subst (All (λ e. All (λ m. m.id ≢ []) e.metrics)) (ok_inj head)
                    (validate_endpoint-ids parse_duration e good, named),
              )
        ]
      ]
