-- ===== src/K8s/Watcher.antt =====
-- k8s/discovery.go: watchProcessor, as steps of its goroutine, of the one who stops it, and of the
-- server that closes a watch. The lock makes shouldStop and stop one step each; the loop reads
-- and sets the field `watcher` without it.
mod Tests
use hawkular_openshift_agent.Base.{
  ℕ, suc, ◌+◌, ◌≤◌, ◌==◌, Bool, true, false, not, ◌≡◌, refl, Option, none, some, List, [], ◌∷◌,
  arith,
}

-- Where the goroutine of start stands: before the test of the loop, after it, before it creates a
-- watch, in processFunc with a watch, and at its end.
pub data Place : Type 0 where
  testing checked creating : Place
  processing : ℕ → Place
  ended : Place

-- Watches are numbered as they are created; `created` counts them.
pub record WatchProcessor : Type 0 where
  pub abort : Bool
  pub watcher : Option ℕ
  pub place : Place
  pub created : ℕ
  pub stopped : List ℕ

unfoldable pub new_watch_processor : WatchProcessor
new_watch_processor = record {
  abort = false;
  watcher = none;
  place = testing;
  created = 0;
  stopped = [];
}

-- watcher.Stop(), if there is one.
unfoldable pub stop_watch : Option ℕ → List ℕ → List ℕ
stop_watch none stopped = stopped
stop_watch (some n) stopped = n ∷ stopped

-- stop
unfoldable pub stop_processor : WatchProcessor → WatchProcessor
stop_processor w = record w {
  abort = true;
  stopped = stop_watch w.watcher w.stopped;
  watcher = none;
}

pub data Step : WatchProcessor → WatchProcessor → Type 0 where
  test_go_on :
      (w : WatchProcessor)
      → w.abort ≡ false
      → w.place ≡ testing
      → Step w (record w { place = checked })
  test_abort :
      (w : WatchProcessor)
      → w.abort ≡ true
      → w.place ≡ testing
      → Step w (record w { place = ended })
  stop_old :
      (w : WatchProcessor)
      → w.place ≡ checked
      → Step w (record w { place = creating; stopped = stop_watch w.watcher w.stopped })
  create_watch :
      (w : WatchProcessor)
      → w.place ≡ creating
      → Step w (record w {
        place = processing w.created;
        watcher = some w.created;
        created = w.created + 1;
      })
  watch_closed :
      (w : WatchProcessor) (n : ℕ) → w.place ≡ processing n → Step w (record w { place = testing })
  stop : (w : WatchProcessor) → Step w (stop_processor w)

pub data Steps : WatchProcessor → WatchProcessor → Type 0 where
  done : (w : WatchProcessor) → Steps w w
  more : (a b c : WatchProcessor) → Step a b → Steps b c → Steps a c

-- How many watches the goroutine can still create once abort is set.
pending : Place → ℕ
pending testing = 0
pending checked = 1
pending creating = 1
pending (processing n) = 0
pending ended = 0

one_aborted_lem :
    (a b : WatchProcessor)
    → Step a b
    → a.abort ≡ true
    → (b.abort ≡ true) × (b.created + pending b.place ≤ a.created + pending a.place)
unfolding pending stop_processor
one_aborted_lem a b (test_go_on w go at) h = ground arith
one_aborted_lem a b (test_abort w ab at) h = ground arith
one_aborted_lem a b (stop_old w at) h = rw at (h, ground arith)
one_aborted_lem a b (create_watch w at) h = ground arith
one_aborted_lem a b (watch_closed w n at) h = ground arith
one_aborted_lem a b (stop w) h = ground arith

aborted_lem :
    (a b : WatchProcessor)
    → Steps a b
    → a.abort ≡ true
    → b.created + pending b.place ≤ a.created + pending a.place
aborted_lem a b (done w) h = ground arith
aborted_lem a c (more _ b _ s r) h =
    let (aborted, le) = one_aborted_lem a b s h in ground (arith, aborted_lem b c r aborted, le)

pending_le : (p : Place) → pending p ≤ 1
unfolding pending
pending_le testing = ground arith
pending_le checked = ground arith
pending_le creating = ground arith
pending_le (processing n) = ground arith
pending_le ended = ground arith

-- Once stop has been called, however the goroutine and the server go on, at most one more watch is
-- created, and none if the goroutine was waiting for the events of a watch.
pub created-stop_le :
    (a b : WatchProcessor)
    → Steps (stop_processor a) b
    → (b.created ≤ a.created + 1) × ((n : ℕ) → a.place ≡ processing n → b.created ≤ a.created)
unfolding stop_processor pending
created-stop_le a b s =
    let le = aborted_lem (stop_processor a) b s refl in
    (ground (arith, le, pending_le a.place), λ n at. ground (arith, le))
