-- ===== src/Storage/Secret/Waiting.antt =====
-- storage/metrics_storage.go: the loop of waitForSecret, as a whole.
use hawkular_openshift_agent.Base.{
  Str, string_eq, ℕ, zero, suc, ◌+◌, ◌≤◌, ◌<◌, ltb, true, false, ◌≡◌, inl, inr, refl, ◌∙◌, Option,
  Option-cases, none, some, is_some, arith, Bool-cases, Result, ok, err,
}
use hawkular_openshift_agent.Base.Map.{Map}
use Prim.Native.Nat.{◌*◌}
use hawkular_openshift_agent.Storage.Secret.{
  ConfigError, timed_out, World, value_at, wait, wait_for_secret,
}

module _ (takes : ℕ → ℕ) (look_up : Str → Str → ℕ → Option (Map Str Str)) where
  abbrev waits : ℕ → (ℕ → Option Str) → ℕ → ℕ → Option (ℕ × Result ConfigError Str)
  waits = wait look_up takes

  -- A value that was found at a time before the timeout, or the timeout's error behind it.
  abbrev pub IsOutcome : (ℕ → Option Str) → ℕ → ℕ → Result ConfigError Str → Type 0
  IsOutcome value timeout now (ok v) = (now ≤ timeout) × (value now ≡ some v)
  IsOutcome value timeout now (err e) = (timeout < now) × (e ≡ timed_out)

  wait-late :
      (fuel : ℕ) (value : ℕ → Option Str) (timeout now : ℕ)
      → ltb timeout now ≡ true
      → waits (suc fuel) value timeout now ≡ some (now, err timed_out)
  unfolding wait
  wait-late fuel value timeout now late = rw (late, wait) refl

  wait-found :
      (fuel : ℕ) (value : ℕ → Option Str) (timeout now : ℕ) (v : Str)
      → ltb timeout now ≡ false
      → value now ≡ some v
      → waits (suc fuel) value timeout now ≡ some (now, ok v)
  unfolding wait
  wait-found fuel value timeout now v early is = rw (early, is, wait) refl

  wait-again :
      (fuel : ℕ) (value : ℕ → Option Str) (timeout now : ℕ)
      → ltb timeout now ≡ false
      → value now ≡ none
      → waits (suc fuel) value timeout now ≡ waits fuel value timeout (now + takes now + 5)
  unfolding wait
  wait-again fuel value timeout now early missing = rw (early, missing, wait) refl

  wait-ends :
      (fuel : ℕ) (value : ℕ → Option Str) (timeout now : ℕ)
      → timeout < now + 5 * fuel
      → (o : ℕ × Result ConfigError Str) × (waits (suc fuel) value timeout now ≡ some o)
        × IsOutcome value timeout o.0 o.1
        × (now ≤ o.0)
  wait-ends zero value timeout now h = (
    (now, err timed_out),
    wait-late 0 value timeout now (ground arith),
    (omega arith, refl),
    omega arith,
  )
  wait-ends (suc fuel) value timeout now h = elim (Bool-cases (ltb timeout now)) [
    | inl late ↦ (
      (now, err timed_out),
      wait-late (suc fuel) value timeout now late,
      (ground arith, refl),
      omega arith,
    )
    | inr early ↦ elim (Option-cases (value now)) [
      | inl missing ↦
          let (o, is, says, later) =
            wait-ends fuel value timeout (now + takes now + 5) (omega arith) in
          (
            o,
            wait-again (suc fuel) value timeout now early missing ∙ is,
            says,
            omega (arith, later),
          )
      | inr (v, is) ↦ (
        (now, ok v),
        wait-found (suc fuel) value timeout now v early is,
        (ground arith, is),
        omega arith,
      )
    ]
  ]

  -- A secret that is there from a time on is found, if a pass can start after that time.
  wait-finds :
      (fuel : ℕ) (value : ℕ → Option Str) (timeout now there slow : ℕ)
      → timeout < now + 5 * fuel
      → now ≤ timeout
      → there + slow + 5 ≤ timeout
      → ((t : ℕ) → takes t ≤ slow)
      → ((t : ℕ) → there ≤ t → is_some (value t) ≡ true)
      → (t : ℕ) × (v : Str) × (waits (suc fuel) value timeout now ≡ some (t, ok v))
  wait-finds zero value timeout now there slow h le in_time quick is_there = absurd (omega arith)
  wait-finds (suc fuel) value timeout now there slow h le in_time quick is_there =
      let early : ltb timeout now ≡ false = ground arith in
      elim (Option-cases (value now)) [
        | inr (v, is) ↦ (now, v, wait-found (suc fuel) value timeout now v early is)
        | inl missing ↦
            let before : now < there = ground (arith, is_there now) in
            let (t, v, is) =
              wait-finds fuel value timeout (now + takes now + 5) there slow (omega arith)
                (omega (arith, quick now)) in_time quick is_there in
            (t, v, wait-again (suc fuel) value timeout now early missing ∙ is)
      ]

  -- waitForSecret returns, whatever the look-ups of the secret give and however long they take: a
  -- value that stood under the key at a time within the five minutes, or the error of the timeout
  -- behind them.
  pub wait_for_secret-ends :
      (namespace name key : Str) (w : World)
      → (o : World × Result ConfigError Str) × (wait_for_secret look_up takes namespace name key w
          ≡ some o)
        × IsOutcome (value_at look_up takes namespace name key) (w.now + 300) o.0.now o.1
        × (w.now ≤ o.0.now)
  unfolding wait_for_secret
  wait_for_secret-ends namespace name key w =
      let (o, is, says, later) =
        wait-ends 61 (value_at look_up takes namespace name key) (w.now + 300) w.now
          (omega arith) in
      ((record w { now = o.0 }, o.1), rw (is, wait_for_secret) refl, says, later)

  -- A secret that has the key from a time on is found, if that time leaves room for the slowest
  -- look-up and the sleep before the five minutes are over.
  pub wait_for_secret-finds :
      (namespace name key : Str) (w : World) (there slow : ℕ)
      → there + slow + 5 ≤ w.now + 300
      → ((t : ℕ) → takes t ≤ slow)
      → ((t : ℕ) → there ≤ t → is_some (value_at look_up takes namespace name key t) ≡ true)
      → (w' : World) × (v : Str) × (wait_for_secret look_up takes namespace name key w
          ≡ some (w', ok v))
  unfolding wait_for_secret
  wait_for_secret-finds namespace name key w there slow in_time quick is_there =
      let (t, v, is) =
        wait-finds 61 (value_at look_up takes namespace name key) (w.now + 300) w.now there slow
          (omega arith) (omega arith) in_time quick is_there in
      (record w { now = t }, v, rw (is, wait_for_secret) refl)
