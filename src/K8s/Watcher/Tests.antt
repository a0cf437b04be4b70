-- ===== src/K8s/Watcher/Tests.antt =====
-- A watcher that is stopped while its goroutine is about to create a watch.
use hawkular_openshift_agent.Base.{ℕ, ◌+◌, ◌≤◌, ◌≡◌, refl, true, false, none, some, []}
use hawkular_openshift_agent.K8s.Watcher.{
  WatchProcessor, checked, creating, processing, test_go_on, stop_old, create_watch, stop, Steps,
  done, more, new_watch_processor, stop_processor, stop_watch, created-stop_le,
}

abbrev at_creating : WatchProcessor
at_creating = record { abort = false; watcher = none; place = creating; created = 0; stopped = [] }

abbrev left_running : WatchProcessor
left_running = record {
  abort = true;
  watcher = some 0;
  place = processing 0;
  created = 1;
  stopped = [];
}

one_more : Steps (stop_processor at_creating) left_running
unfolding stop_processor stop_watch
one_more =
    more _ left_running left_running (create_watch (stop_processor at_creating) refl)
      (done left_running)

created-stop_le_example :
    (left_running.created ≤ at_creating.created + 1)
    × ((n : ℕ) → at_creating.place ≡ processing n → left_running.created ≤ at_creating.created)
created-stop_le_example = created-stop_le at_creating left_running one_more

-- The race: stop finds no watch to stop, and the one that is created behind it is never stopped.
stop_leaves_a_watch : Steps new_watch_processor left_running
unfolding new_watch_processor stop_processor stop_watch
stop_leaves_a_watch =
    let a : WatchProcessor = record new_watch_processor { place = checked } in
    more new_watch_processor a left_running (test_go_on new_watch_processor refl refl) (
      more a at_creating left_running (stop_old a refl)
        (more at_creating (stop_processor at_creating) left_running (stop at_creating) one_more))
