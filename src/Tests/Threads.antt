-- ===== src/Tests/Threads.antt =====
-- A pool of one worker that runs one task and is stopped.
use alphadb.Prelude.{◌≡◌, refl, true, [], ◌∷◌, ◌++◌, arith}
use alphadb.Network.ThreadPool.{
  ThreadPool, new, enqueue, is_empty, ready, take_front, wake, finish, stop, Joined, enqueues,
  wakes, finishes, stops, Steps, here, onward,
}
use alphadb.Network.ThreadPool.Drain.{Steps-Drained}

abbrev queued : ThreadPool
queued = record {
  working = true;
  tasks = 7 ∷ [];
  waiting = 1;
  busy = 0;
  gone = 0;
  started = [];
  accepted = 7 ∷ [];
}

run : Steps (new 1) (wake (stop (finish (wake queued))))
unfolding new enqueue is_empty ready take_front wake finish stop
run =
    onward _ _ _
      (onward _ _ _
        (onward _ _ _
          (onward _ _ _ (onward _ _ _ (here (new 1)) (enqueues 7 (new 1) queued refl))
            (wakes queued (omega arith) refl))
          (finishes (wake queued) (omega arith)))
        (stops (finish (wake queued))))
      (wakes (stop (finish (wake queued))) (omega arith) refl)

Steps-Drained_example :
    ((wake (stop (finish (wake queued)))).started ++ (wake (stop (finish (wake queued)))).tasks
      ≡ (wake (stop (finish (wake queued)))).accepted)
    × (Joined 1 (wake (stop (finish (wake queued))))
        → ((wake (stop (finish (wake queued)))).started
            ≡ (wake (stop (finish (wake queued)))).accepted)
          × ((wake (stop (finish (wake queued)))).busy ≡ 0))
Steps-Drained_example = Steps-Drained 1 (wake (stop (finish (wake queued)))) (omega arith) run
