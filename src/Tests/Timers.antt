-- ===== src/Tests/Timers.antt =====
-- The timer theorems at a dispatcher with two timers.
use alphadb.Prelude.{ℕ, true, List, [], ◌∷◌}
use alphadb.Network.Dispatcher.{Key, Task, once, Dispatcher, max_timeouts}

abbrev key : ℕ → ℕ → Key
key time seq = record { time = time; seq = seq }

abbrev timers : List (Key × Task)
timers = (key 100 2, once 7) ∷ (key 250 1, once 8) ∷ []

abbrev busy : Dispatcher
busy = record {
  working = true;
  time_seq = 2;
  next_timeout = max_timeouts;
  timers = timers;
  repeatable_timers = [];
  queue = [];
}
