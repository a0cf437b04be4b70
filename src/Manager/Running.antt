-- ===== src/Manager/Running.antt =====
-- What holds of the manager after any sequence of its operations.
use hawkular_openshift_agent.Base.{
  Str, string_eq, ℤ, int_lt, ◌≡◌, inl, inr, Option-cases, true, false, none, some, List, [], ◌∷◌,
  arith, if◌then◌else◌,
}
use hawkular_openshift_agent.Base.Map
use hawkular_openshift_agent.Base.Map.{
  Map, IsMap, get-put, get-delete, has-put, has-delete, put-IsMap, delete-IsMap,
}
use hawkular_openshift_agent.Collector.{CollectorId, id_key, id_eq, id_eq_iff}
use hawkular_openshift_agent.Collector.Validation.{is_enabled}
use hawkular_openshift_agent.Status.{StatusReport}
use hawkular_openshift_agent.Tracker.{MetricsTracker}
use hawkular_openshift_agent.Tracker.Invariant.{
  IsValid, IsValid-new, add-IsValid, purge-IsValid, purge_all-IsValid,
}
use hawkular_openshift_agent.Tracker.Endpoints.{has_endpoint, has_endpoint-add, has_endpoint-purge}
use hawkular_openshift_agent.Manager.{
  Manager, Platform, CollectorConfig, Collector, Gauges, collection_interval, stop_ticker,
  stop_collecting, stop_collecting_all, track, not_collecting, start_collecting,
  new_metrics_collector_manager,
}
use hawkular_openshift_agent.Manager.Interval.{interval-ge-minimum}

tickers-stop_ticker :
    (now : Str) (id : CollectorId) (m : Manager) (c : CollectorId)
    → Map.get (stop_ticker now id (Map.get m.tickers id) m).tickers c
      ≡ Map.get (Map.delete m.tickers id) c
unfolding stop_ticker
tickers-stop_ticker now id m c = elim (Option-cases (Map.get m.tickers id)) [
  | inl missing ↦
      rw (missing, stop_ticker) (ground (arith, get-delete m.tickers id c, id_eq_iff id c))
  | inr (t, found) ↦ rw (found, stop_ticker)
]

-- After StopCollecting no ticker runs for the collector and the tracker does not know its endpoint;
-- every other ticker and endpoint is as it was.
pub stop_collecting_lem :
    (now : Str) (m : Manager) (id c : CollectorId)
    → (Map.get (stop_collecting now m id).tickers c
        ≡ (if id_eq id c then none else Map.get m.tickers c))
      × (has_endpoint (stop_collecting now m id).tracker c
          ≡ (if id_eq id c then false else has_endpoint m.tracker c))
unfolding stop_collecting
stop_collecting_lem now m id c = (
  rw (tickers-stop_ticker now id m c) (get-delete m.tickers id c),
  has_endpoint-purge m.tracker id c,
)

-- After StartCollecting a ticker runs for the collector exactly if its endpoint is enabled, at the
-- interval worked out from its configuration, in place of any that ran before; the tracker knows
-- its endpoint either way; every other ticker and endpoint is as it was.
pub start_collecting_lem :
    (os : Platform) (conf : CollectorConfig) (now : Str) (m : Manager) (new : Collector)
    (c : CollectorId)
    → (Map.get (start_collecting os conf now m new).tickers c ≡ (
        if id_eq new.id c
        then if is_enabled new.endpoint
          then some (collection_interval os conf new.endpoint.collection_interval)
          else none
        else Map.get m.tickers c))
      × (has_endpoint (start_collecting os conf now m new).tracker c
          ≡ (if id_eq new.id c then true else has_endpoint m.tracker c))
unfolding start_collecting track
start_collecting_lem os conf now m new c =
    let stopped = stop_collecting now m new.id in
    let interval = collection_interval os conf new.endpoint.collection_interval in
    ground (
      arith,
      stop_collecting_lem now m new.id c,
      get-put stopped.tickers new.id c interval,
      has_endpoint-add {V = Unit {0}} stopped.tracker new.id c [],
    )

track-IsValid : (mt : MetricsTracker) (id : CollectorId) → IsValid mt → IsValid (track mt id)
unfolding track
track-IsValid mt id v = add-IsValid mt id [] v

-- The operations of the manager, each at the time that it logs.
pub data Call : Type 0 where
  start : Str → Collector → Call
  stop : Str → CollectorId → Call
  stop_all : Str → Call
  not_collected : CollectorId → Str → Call

module _ (os : Platform) (conf : CollectorConfig) where
  unfoldable pub step : Manager → Call → Manager
  step m (start now c) = start_collecting os conf now m c
  step m (stop now id) = stop_collecting now m id
  step m (stop_all now) = stop_collecting_all now m
  step m (not_collected id reason) = not_collecting m id reason

  pub run : Manager → List Call → Manager
  unfolding step
  run m [] = m
  run m (c ∷ cs) = run (step m c) cs

  -- No pod is over its limit, the tracker knows every endpoint that is being collected from, and
  -- no ticker ticks faster than the minimum.
  pub record IsRunning (minimum : ℤ) (m : Manager) : Type 0 where
    pub tracker : IsValid m.tracker
    pub known : (c : CollectorId) → Map.has m.tickers c ≡ true → has_endpoint m.tracker c ≡ true
    pub slow : (c : CollectorId) (i : ℤ) → Map.get m.tickers c ≡ some i → int_lt i minimum ≡ false

  module _ (minimum : ℤ)
      (parses : os.parse_duration conf.minimum_collection_interval ≡ some minimum) where
    stop-IsRunning :
        (now : Str) (m : Manager) (id : CollectorId)
        → IsRunning minimum m
        → IsRunning minimum (stop_collecting now m id)
    unfolding Map.has
    stop-IsRunning now m id v = record {
      tracker = unfold stop_collecting in purge-IsValid m.tracker id v.tracker;
      known = λ c h. ground (arith, stop_collecting_lem now m id c, v.known c);
      slow = λ c i h. ground (arith, stop_collecting_lem now m id c, v.slow c i);
    }

    start-tracker :
        (now : Str) (m : Manager) (new : Collector)
        → (start_collecting os conf now m new).tracker
          ≡ track (stop_collecting now m new.id).tracker new.id
    unfolding start_collecting
    start-tracker now m new = ground arith

    start-IsRunning :
        (now : Str) (m : Manager) (new : Collector)
        → IsRunning minimum m
        → IsRunning minimum (start_collecting os conf now m new)
    unfolding Map.has
    start-IsRunning now m new v = record {
      tracker = rw (start-tracker now m new) (
          track-IsValid (stop_collecting now m new.id).tracker new.id
            (stop-IsRunning now m new.id v).tracker);
      known = λ c h. ground (arith, start_collecting_lem os conf now m new c, v.known c);
      slow = λ c i h. ground (
        arith,
        start_collecting_lem os conf now m new c,
        v.slow c i,
        interval-ge-minimum os conf new.endpoint.collection_interval minimum parses,
      );
    }

    stop_all-IsRunning : (now : Str) (m : Manager) → IsRunning minimum (stop_collecting_all now m)
    unfolding stop_collecting_all Map.has Map.get
    stop_all-IsRunning now m = record {
      tracker = purge_all-IsValid m.tracker;
      known = λ c h. cc;
      slow = λ c i h. cc;
    }

    not_collecting-IsRunning :
        (m : Manager) (id : CollectorId) (reason : Str)
        → IsRunning minimum m
        → IsRunning minimum (not_collecting m id reason)
    unfolding not_collecting track
    not_collecting-IsRunning m id reason v = record {
      tracker = add-IsValid m.tracker id [] v.tracker;
      known = λ c h. ground (arith, has_endpoint-add {V = Unit {0}} m.tracker id c [], v.known c h);
      slow = v.slow;
    }

    -- When the configured minimum is a duration, every operation of the manager keeps: no pod over
    -- its limit, the endpoint of every ticker known to the tracker, no interval below the minimum.
    pub step-IsRunning :
        (m : Manager) (c : Call) → IsRunning minimum m → IsRunning minimum (step m c)
    unfolding step
    step-IsRunning m (start now c) v = start-IsRunning now m c v
    step-IsRunning m (stop now id) v = stop-IsRunning now m id v
    step-IsRunning m (stop_all now) v = stop_all-IsRunning now m
    step-IsRunning m (not_collected id reason) v = not_collecting-IsRunning m id reason v

    run-IsRunning :
        (m : Manager) (cs : List Call) → IsRunning minimum m → IsRunning minimum (run m cs)
    unfolding run
    run-IsRunning m [] v = v
    run-IsRunning m (c ∷ cs) v = run-IsRunning (step m c) cs (step-IsRunning m c v)

    -- Where the configured minimum interval is a duration: after any operations on a new manager, no
    -- pod is over its limit of metrics, the tracker knows every endpoint that has a ticker, and no
    -- ticker ticks faster than the minimum.
    pub run_new-IsRunning :
        (status : StatusReport) (gauges : Gauges) (cs : List Call)
        → IsRunning minimum (run (new_metrics_collector_manager conf status gauges) cs)
    run_new-IsRunning status gauges cs = run-IsRunning _ cs (new_lem status gauges)
      where
        new_lem :
            (status : StatusReport) (gauges : Gauges)
            → IsRunning minimum (new_metrics_collector_manager conf status gauges)
        new_lem status gauges =
            unfold new_metrics_collector_manager Map.has Map.get in
            record {
              tracker = IsValid-new conf.max_metrics_per_pod;
              known = λ c h. cc;
              slow = λ c i h. cc;
            }
