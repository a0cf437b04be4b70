-- ===== src/K8s/Consumer/Listed.antt =====
-- Which collectors run for a pod: the consumer keeps track of all of them, so none is left behind.
use hawkular_openshift_agent.Base.{
  Str, str_eq_iff, string_eq, Bool, true, false, ◌&&◌, ◌||◌, ◌≡◌, refl, inl, inr, Option,
  Option-cases, none, some, List, [], ◌∷◌, ◌++◌, arith, if◌then◌else◌,
}
use hawkular_openshift_agent.Base.Map
use hawkular_openshift_agent.Base.Map.{Map, get-put, get-delete, has-put, has-delete}
use hawkular_openshift_agent.Collector.{
  CollectorId, id_key, id_eq, id_eq_iff, Endpoint, Credentials,
}
use hawkular_openshift_agent.Collector.Validation.{EndpointError, is_enabled, validate_endpoint}
use hawkular_openshift_agent.Manager.{Manager, Collector, stop_collecting, not_collecting}
use hawkular_openshift_agent.Manager.Creator.{create_metrics_collector}
use hawkular_openshift_agent.Manager.Running.{start_collecting_lem, stop_collecting_lem}
use hawkular_openshift_agent.K8s.Pod.{Pod, get_identifier}
use hawkular_openshift_agent.K8s.ConfigMaps.{K8sEndpoint, k8s_is_enabled, get_url}
use hawkular_openshift_agent.K8s.Secrets.{SecretError, determine_credentials}
use hawkular_openshift_agent.K8s.Consumer.{
  Consumer, Setting, Decision, collect, refuse, decide, decide_with, create, convert_endpoint, act,
  additional_env, already_there, keep_track, get_id_for_endpoint, start_endpoint,
  nec_start_collecting, stop_each,
}

abbrev pub running : Manager → CollectorId → Bool
running m c = Map.has m.tickers c

pub stop_each-running :
    (now : Str) (m : Manager) (ids : List CollectorId) (c : CollectorId)
    → running (stop_each now m ids) c ≡ (if already_there c ids then false else running m c)
unfolding stop_each already_there Map.has
stop_each-running now m [] c = refl
stop_each-running now m (id ∷ ids) c =
    ground (
      arith,
      stop_each-running now (stop_collecting now m id) ids c,
      stop_collecting_lem now m id c,
    )

already_there-append :
    (c id : CollectorId) (ids : List CollectorId)
    → already_there c (ids ++ id ∷ []) ≡ (already_there c ids || id_eq id c)
unfolding already_there
already_there-append c id [] = ground arith
already_there-append c id (i ∷ ids) = ground (arith, already_there-append c id ids)

-- The consumer keeps track of the collector.
abbrev pub listed : Map Str (List CollectorId) → CollectorId → Bool
listed m c = elim (Map.get m c.pod_id) [ none ↦ false | some ids ↦ already_there c ids ]

pub listed-keep_track :
    (m : Map Str (List CollectorId)) (id c : CollectorId)
    → listed (keep_track m id) c ≡ (id_eq id c || listed m c)
unfolding keep_track already_there
listed-keep_track m id c = elim (Option-cases (Map.get m id.pod_id)) [
  | inl missing ↦
      rw (missing, keep_track)
        (ground (arith, get-put m id.pod_id c.pod_id (id ∷ []), str_eq_iff id.pod_id c.pod_id))
  | inr (ids, found) ↦
      rw (found, keep_track)
        (ground (
          arith,
          get-put m id.pod_id c.pod_id (ids ++ id ∷ []),
          str_eq_iff id.pod_id c.pod_id,
          already_there-append c id ids,
          id_eq_iff id c,
        ))
]

-- Each list of collectors is the list of the pod that it stands under.
abbrev pub IsKeyed : Map Str (List CollectorId) → Type 0
IsKeyed m =
    (k : Str) (ids : List CollectorId) (c : CollectorId)
    → Map.get m k ≡ some ids
    → already_there c ids ≡ true
    → c.pod_id ≡ k

pub keep_track-IsKeyed :
    (m : Map Str (List CollectorId)) (id : CollectorId) → IsKeyed m → IsKeyed (keep_track m id)
unfolding keep_track already_there
keep_track-IsKeyed m id h k ids c = elim (Option-cases (Map.get m id.pod_id)) [
  | inl missing ↦
      rw (missing, keep_track)
        (ground (
          arith,
          get-put m id.pod_id k (id ∷ []),
          str_eq_iff id.pod_id k,
          id_eq_iff id c,
          h k ids c,
        ))
  | inr (old, found) ↦
      rw (found, keep_track)
        (ground (
          arith,
          get-put m id.pod_id k (old ++ id ∷ []),
          str_eq_iff id.pod_id k,
          already_there-append c id old,
          id_eq_iff id c,
          h k ids c,
          h k old c,
        ))
]

module _ (s : Setting) where
  abbrev pub is_collect : Decision s → Bool
  is_collect (collect c) = true
  is_collect (refuse e) = false

  -- This endpoint of the entry is to be collected from, by this collector.
  pub wants : Pod → K8sEndpoint → CollectorId → Bool
  wants p e c = elim (get_url s.show_port s.parse_url e p.pod_ip) [
    | none ↦ false
    | some url ↦ elim (get_id_for_endpoint s p e) [
      | none ↦ false
      | some endpoint_id ↦
          let id : CollectorId = record { pod_id = get_identifier p; endpoint_id = endpoint_id } in
          id_eq id c && is_collect (decide s p e url id)
    ]
  ]

  -- Some endpoint of the entry is.
  pub wanted : Pod → List K8sEndpoint → CollectorId → Bool
  wanted p [] c = false
  wanted p (e ∷ es) c = wants p e c || wanted p es c

  -- A collector that is made has the id and the endpoint that it is made of.
  create-collect :
      (id : CollectorId) (env : Map Str Str) (r : Endpoint × Option EndpointError) (c : Collector)
      → create s id env r ≡ collect c
      → (c.id ≡ id) × (c.endpoint ≡ r.0)
  unfolding create create_metrics_collector
  create-collect id env (endpoint, none) c h = ground arith
  create-collect id env (endpoint, some e) c h = ground arith

  validate_endpoint-enabled :
      (e : Endpoint) → (validate_endpoint s.os.parse_duration e).0.enabled ≡ e.enabled
  unfolding validate_endpoint
  validate_endpoint-enabled e = ground arith

  decide_with-collect :
      (p : Pod) (e : K8sEndpoint) (url : Str) (id : CollectorId)
      (r : Credentials × Option SecretError) (c : Collector)
      → decide_with s p e url id r ≡ collect c
      → (c.id ≡ id) × (is_enabled c.endpoint ≡ k8s_is_enabled e)
  unfolding decide_with is_enabled k8s_is_enabled convert_endpoint
  decide_with-collect p e url id (credentials, some err) c h = ground arith
  decide_with-collect p e url id (credentials, none) c h =
      let converted = convert_endpoint s p e url credentials in
      let validated = validate_endpoint s.os.parse_duration converted in
      let (same, made) = create-collect id (additional_env p) validated c h in
      (same, rw made (rw (validate_endpoint-enabled converted) refl))

  decide-collect :
      (p : Pod) (e : K8sEndpoint) (url : Str) (id : CollectorId) (c : Collector)
      → decide s p e url id ≡ collect c
      → (c.id ≡ id) × (is_enabled c.endpoint ≡ true)
  unfolding decide
  decide-collect p e url id c h =
      let r = determine_credentials (s.secrets p.namespace.name) e.credentials in
      ground (arith, decide_with-collect p e url id r c)

  pub act-running :
      (now : Str) (m : Manager) (p : Pod) (e : K8sEndpoint) (url : Str) (id c : CollectorId)
      (d : Decision s)
      → decide s p e url id ≡ d
      → running (act s now m p url id d) c ≡ (id_eq id c && is_collect d || running m c)
  unfolding act Map.has not_collecting
  act-running now m p e url id c (collect new) h =
      ground
        (arith, start_collecting_lem s.os s.collector now m new c, decide-collect p e url id new h)
  act-running now m p e url id c (refuse err) h = ground arith

  start_endpoint-running :
      (now : Str) (nec : Consumer) (p : Pod) (e : K8sEndpoint) (c : CollectorId)
      → running (start_endpoint s now nec p e).manager c ≡ (wants p e c || running nec.manager c)
  unfolding start_endpoint wants
  start_endpoint-running now nec p e c =
      elim (Option-cases (get_url s.show_port s.parse_url e p.pod_ip)) [
        | inl no_url ↦ rw (no_url, start_endpoint, wants) refl
        | inr (url, has_url) ↦ elim (Option-cases (get_id_for_endpoint s p e)) [
          | inl no_id ↦ rw (has_url, no_id, start_endpoint, wants) refl
          | inr (eid, has_id) ↦
              let id : CollectorId = record { pod_id = get_identifier p; endpoint_id = eid } in
              rw (has_url, has_id, start_endpoint, wants)
                (act-running now nec.manager p e url id c (decide s p e url id) refl)
        ]
      ]

  -- startCollecting leaves the tickers that run, and a ticker runs afterwards for each endpoint of
  -- the entry that can be collected from, and for no other.
  pub nec_start_collecting-running :
      (now : Str) (nec : Consumer) (p : Pod) (es : List K8sEndpoint) (c : CollectorId)
      → running (nec_start_collecting s now nec p es).manager c
        ≡ (wanted p es c || running nec.manager c)
  unfolding nec_start_collecting wanted
  nec_start_collecting-running now nec p [] c = refl
  nec_start_collecting-running now nec p (e ∷ es) c = ground (
    arith,
    nec_start_collecting-running now (start_endpoint s now nec p e) p es c,
    start_endpoint-running now nec p e c,
  )

  wants-pod :
      (p : Pod) (e : K8sEndpoint) (c : CollectorId)
      → wants p e c ≡ true
      → c.pod_id ≡ get_identifier p
  unfolding wants
  wants-pod p e c h = ground (arith, str_eq_iff (get_identifier p) c.pod_id)

  pub wanted-pod :
      (p : Pod) (es : List K8sEndpoint) (c : CollectorId)
      → wanted p es c ≡ true
      → c.pod_id ≡ get_identifier p
  unfolding wanted
  wanted-pod p [] c h = cc
  wanted-pod p (e ∷ es) c h = ground (arith, wants-pod p e c, wanted-pod p es c)
