-- ===== src/Storage/Secret/Outcome.antt =====
-- storage/metrics_storage.go: what processHawkularMetricsConfig makes of one value of the configuration,
-- and why that fails.
use hawkular_openshift_agent.Base.{
  starts_with, Str, str_eq_refl, string_eq, ℕ, ◌+◌, ◌≤◌, ◌<◌, Bool, true, false, not, ◌≡◌, ◌⊎◌, inl,
  inr, refl, sym, ap, ◌∙◌, Option, Option-cases, none, some, [], arith, Bool-cases, Result, ok, err,
}
use hawkular_openshift_agent.Base.Map
use hawkular_openshift_agent.Base.Map.{Map, get-put}
use mathlib.Core.Path.{subst}
use hawkular_openshift_agent.K8s.Secrets.{secret}
use hawkular_openshift_agent.Storage.Secret.{
  ConfigError, timed_out, invalid_specifier, not_written, no_client, no_hawkular_client, World,
  Waits, ◌>=>◌, specified, value_at, wait, wait_for_secret, file_name, write_file, deliver, fetch,
  credential,
}
use hawkular_openshift_agent.Storage.Secret.Waiting.{IsOutcome, wait_for_secret-ends}

-- Code that waits ends from this world on, as `P` says of the world and the result then.
abbrev pub HasOutcome :
    {A : Type 0} → Waits A → World → (World → Result ConfigError A → Type 0) → Type 0
HasOutcome {A} m w P = (o : World × Result ConfigError A) × (m w ≡ some o) × P o.0 o.1

-- What the second part makes of the outcome of the first.
abbrev continue :
    {A B : Type 0}
    → (A → Waits B)
    → Option (World × Result ConfigError A)
    → Option (World × Result ConfigError B)
continue f o = ((λ w. o) >=> f) (record { now = 0; files = [] })

module _ {A B : Type 0} (f : A → Waits B) (P : World → Result ConfigError A → Type 0)
    (Q : World → Result ConfigError B → Type 0)
    (goes_on : (w : World) (a : A) → P w (ok a) → HasOutcome (f a) w Q)
    (fails : (w : World) (e : ConfigError) → P w (err e) → Q w (err e)) where
  continue-HasOutcome :
      (w : World) (r : Result ConfigError A)
      → P w r
      → (o : World × Result ConfigError B) × (continue f (some (w, r)) ≡ some o) × Q o.0 o.1
  continue-HasOutcome w (ok a) p = goes_on w a p
  continue-HasOutcome w (err e) p = ((w, err e), refl, fails w e p)

  pub then-HasOutcome : (m : Waits A) (w : World) → HasOutcome m w P → HasOutcome (m >=> f) w Q
  then-HasOutcome m w (o, is, p) =
      let (o', is', q) = continue-HasOutcome o.0 o.1 p in (o', ap (continue f) is ∙ is', q)

-- The files of the temporary directory are left alone, if the Boolean says so.
abbrev pub AreKept : Bool → World → World → Type 0
AreKept true w w' = w'.files ≡ w.files
AreKept false w w' = Unit

pub AreKept-refl : (keep : Bool) (w : World) → AreKept keep w w
AreKept-refl true w = refl
AreKept-refl false w = tt

some_inj : {A : Type 0} {a b : A} → ◌≡◌ {A = Option A} (some a) (some b) → a ≡ b
some_inj h = ground arith

module _ (look_up : Str → Str → ℕ → Option (Map Str Str)) (takes : ℕ → ℕ) (temp_dir : Str)
    (can_write : Str → Bool) (trim_space : Str → Str) (pod_namespace : Str) where
  -- What the agent uses of the bytes of a secret's key: the trimmed text, or the name of a file that
  -- has the bytes.
  abbrev pub IsDelivered : Bool → Str → Str → Str → World → Str → Type 0
  IsDelivered false name key bytes w r = r ≡ trim_space bytes
  IsDelivered true name key bytes w r =
      (r ≡ file_name look_up takes temp_dir can_write trim_space name key)
      × (Map.get w.files r ≡ some bytes)

  -- The bytes stood under the key at a time from the first world to the second.
  pub record IsSecret (file : Bool) (w : World) (v : Str) (w' : World) (r : Str) : Type 0 where
    pub namespace : Str
    pub name : Str
    pub key : Str
    pub bytes : Str
    pub time : ℕ
    pub names : specified pod_namespace v ≡ some (namespace, name, key)
    pub since : w.now ≤ time
    pub until : time ≤ w'.now
    pub stood : value_at look_up takes namespace name key time ≡ some bytes
    pub delivered : IsDelivered file name key bytes w' r

  -- `r` is what is used for the configured value `v`: the value itself, or what its secret gave.
  abbrev pub IsValueOf : Bool → World → Str → World → Str → Type 0
  IsValueOf file w v w' r =
      ((starts_with v secret ≡ false) × (r ≡ v))
      ⊎ ((starts_with v secret ≡ true) × IsSecret file w v w' r)

  -- Why a configured value gives an error.
  abbrev pub IsReason : Bool → World → Str → World → ConfigError → Type 0
  IsReason file w v w' invalid_specifier = specified pod_namespace v ≡ none
  IsReason file w v w' timed_out = w.now + 300 < w'.now
  IsReason file w v w' not_written =
      (file ≡ true)
      × ((at : Str × Str × Str) × (specified pod_namespace v ≡ some at)
          × (can_write (file_name look_up takes temp_dir can_write trim_space at.1 at.2) ≡ false))
  IsReason file w v w' no_client = ⊥
  IsReason file w v w' no_hawkular_client = ⊥

  abbrev pub IsRefused : Bool → World → Str → World → ConfigError → Type 0
  IsRefused file w v w' e = (starts_with v secret ≡ true) × IsReason file w v w' e

  abbrev pub IsSettled : Bool → World → Str → World → Result ConfigError Str → Type 0
  IsSettled file w v w' (ok r) =
      (w.now ≤ w'.now) × AreKept (not file) w w' × IsValueOf file w v w' r
  IsSettled file w v w' (err e) = IsRefused file w v w' e

  -- The outcome for the bytes that were found.
  deliver-lem :
      (file : Bool) (w : World) (v namespace name key bytes : Str) (w1 : World)
      → starts_with v secret ≡ true
      → specified pod_namespace v ≡ some (namespace, name, key)
      → w1.files ≡ w.files
      → w.now ≤ w1.now
      → value_at look_up takes namespace name key w1.now ≡ some bytes
      → HasOutcome
          (deliver look_up takes temp_dir can_write trim_space file name key bytes)
          w1
          (IsSettled file w v)
  unfolding deliver write_file
  deliver-lem false w v namespace name key bytes w1 is names same later stood = (
    (w1, ok (trim_space bytes)),
    refl,
    (
      later,
      same,
      inr (
        is,
        record {
          namespace = namespace;
          name = name;
          key = key;
          bytes = bytes;
          time = w1.now;
          names = names;
          since = later;
          until = omega arith;
          stood = stood;
          delivered = refl;
        },
      ),
    ),
  )
  deliver-lem true w v namespace name key bytes w1 is names same later stood =
      let file : Str = file_name look_up takes temp_dir can_write trim_space name key in
      elim (Bool-cases (can_write file)) [
        | inr cannot ↦ (
          (w1, err not_written),
          rw (cannot, write_file) refl,
          (is, (refl, ((namespace, name, key), names, cannot))),
        )
        | inl can ↦ (
          (record w1 { files = Map.put w1.files file bytes }, ok file),
          rw (can, write_file) refl,
          (
            later,
            tt,
            inr (
              is,
              record {
                namespace = namespace;
                name = name;
                key = key;
                bytes = bytes;
                time = w1.now;
                names = names;
                since = later;
                until = omega arith;
                stood = stood;
                delivered =
                    (refl, ground (arith, get-put w1.files file file bytes, str_eq_refl file));
              },
            ),
          ),
        )
      ]

  -- Waiting leaves the files alone.
  wait_for_secret-files :
      (namespace name key : Str) (w : World) (o : World × Result ConfigError Str)
      → wait_for_secret look_up takes namespace name key w ≡ some o
      → o.0.files ≡ w.files
  unfolding wait_for_secret
  wait_for_secret-files namespace name key w o h =
      elim (Option-cases
        (wait look_up takes 62 (value_at look_up takes namespace name key) (w.now + 300) w.now)) [
          | inl none_left ↦ cc (rw (none_left, wait_for_secret) at h)
          | inr (x, is) ↦
              subst (λ o. o.0.files ≡ w.files) (some_inj (rw (is, wait_for_secret) at h)) refl
        ]

  fetch-lem :
      (at : Option (Str × Str × Str)) (file : Bool) (w : World) (v : Str)
      → starts_with v secret ≡ true
      → specified pod_namespace v ≡ at
      → HasOutcome
          (fetch look_up takes temp_dir can_write trim_space at file)
          w
          (IsSettled file w v)
  unfolding fetch
  fetch-lem none file w v is names = ((w, err invalid_specifier), refl, (is, names))
  fetch-lem (some (namespace, name, key)) file w v is names =
      let (o, gives, says, later) = wait_for_secret-ends takes look_up namespace name key w in
      then-HasOutcome (deliver look_up takes temp_dir can_write trim_space file name key)
        (λ w1 r.
          (w1.files ≡ w.files)
          × (w.now ≤ w1.now)
          × IsOutcome takes look_up (value_at look_up takes namespace name key) (w.now + 300) w1.now
              r)
        (IsSettled file w v)
        (λ w1 bytes (same, later1, (early, stood)).
          deliver-lem file w v namespace name key bytes w1 is names same later1 stood)
        (λ w1 e (same, later1, (late, timeout)).
          subst (λ e. IsRefused file w v w1 e) (sym timeout) (is, late))
        (wait_for_secret look_up takes namespace name key) w
        (o, gives, (wait_for_secret-files namespace name key w o gives, later, says))

  -- One value is either used as it is, or fetched.
  pub credential-lem :
      (v : Str) (file : Bool) (w : World)
      → HasOutcome
          (credential look_up takes temp_dir can_write trim_space pod_namespace v file)
          w
          (IsSettled file w v)
  unfolding credential
  credential-lem v file w = elim (Bool-cases (starts_with v secret)) [
    | inl is ↦ rw (is, credential) (fetch-lem (specified pod_namespace v) file w v is refl)
    | inr plain ↦ (
      (w, ok v),
      rw (plain, credential) refl,
      (omega arith, AreKept-refl (not file) w, inl (plain, refl)),
    )
  ]
