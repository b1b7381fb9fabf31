-- ===== src/Network/Dispatcher.antt =====
-- The timers of class dispatcher, network/dispatcher.h and network/dispatcher.cc. A std::map is the
-- list of its pairs in the order of the keys. Times are natural numbers of milliseconds that do not
-- overflow, and the time that get_current_time answers is an argument. Polling, the pipe that wakes
-- the loop, and the threads that run the tasks are left out.
pub mod Timeline
use alphadb.Prelude.{
  ℕ, zero, suc, ◌+◌, ◌-◌, ◌^◌, Bool, true, false, ◌&&◌, ◌||◌, not, List, [], ◌∷◌, ◌++◌, Option,
  none, some, ltb, ◌==◌, if◌then◌else◌,
}
use alphadb.Prelude.Int.{ℤ, pos, negsuc}

-- A key of timers_: the time and the sequence number.
pub record Key : Type 0 where
  pub time : ℕ
  pub seq : ℕ

-- timer_id_t, as run_at returns it: the time is negative for a repeated timer.
pub record TimerId : Type 0 where
  pub first : ℤ
  pub second : ℕ

-- What a timer runs: a task, or repeat() for the repeated timer with this key.
pub data Task : Type 0 where
  once : ℕ → Task
  repeats : Key → Task

pub record RepeatableTask : Type 0 where
  pub time : ℕ
  pub interval : ℕ
  pub timer_id : Key
  pub callback : ℕ

pub record Dispatcher : Type 0 where
  pub working : Bool
  pub time_seq : ℕ
  pub next_timeout : ℕ
  pub timers : List (Key × Task)
  pub repeatable_timers : List (Key × RepeatableTask)
  -- what the thread pool was given, oldest first
  pub queue : List Task

abbrev pub max_timeouts : ℕ
max_timeouts = 2 ^ 30

abbrev pub same_key : Key → Key → Bool
same_key a b = a.time == b.time && a.seq == b.seq

-- operator< of std::pair
abbrev pub key_lt : Key → Key → Bool
key_lt a b = ltb a.time b.time || a.time == b.time && ltb a.seq b.seq

module _ {V : Type 0} where
  -- std::map::find
  unfoldable pub lookup : Key → List (Key × V) → Option V
  lookup k [] = none
  lookup k ((l, v) ∷ rest) = if same_key l k then some v else lookup k rest

  -- map[k] = v
  unfoldable pub assign : Key → V → List (Key × V) → List (Key × V)
  assign k v [] = (k, v) ∷ []
  assign k v ((l, w) ∷ rest) =
      let later = assign k v rest in
      if same_key l k
      then (k, v) ∷ rest
      else if key_lt k l
      then (k, v) ∷ (l, w) ∷ rest
      else (l, w) ∷ later

  -- map.erase(k)
  unfoldable pub erase_key : Key → List (Key × V) → List (Key × V)
  erase_key k [] = []
  erase_key k ((l, w) ∷ rest) = if same_key l k then rest else (l, w) ∷ erase_key k rest

unfoldable pub update_next_timeout : ℕ → Dispatcher → Dispatcher
update_next_timeout now d = record d {
  next_timeout = elim d.timers [ [] ↦ max_timeouts | (k, _) ∷ _ ↦ k.time - now ];
}

-- dispatcher::repeat for the timer with key `r`, up to the callback, which it then runs; the timer
-- may have been cancelled, and its memory is gone then: `none`.
unfoldable pub repeat : ℕ → Key → Dispatcher → Option (ℕ × Dispatcher)
unfolding lookup assign update_next_timeout
repeat now r d = elim (lookup r d.repeatable_timers) [
  | none ↦ none
  | some task ↦
      let next : Key = record { time = task.time + task.interval; seq = d.time_seq + 1 } in
      some (
        task.callback,
        update_next_timeout now (record d {
          time_seq = d.time_seq + 1;
          repeatable_timers =
              assign r (record task { time = next.time; timer_id = next }) d.repeatable_timers;
          timers = assign next (repeats r) d.timers;
        }),
      )
]

-- -tp
abbrev pub negate : ℕ → ℤ
negate zero = pos 0
negate (suc n) = negsuc n

-- dispatcher::run_at: the id of the timer.
unfoldable pub run_at : ℕ → ℕ → ℕ → ℕ → Dispatcher → TimerId × Dispatcher
unfolding assign update_next_timeout
run_at now tp callback interval d =
    let first : Key = record { time = tp; seq = d.time_seq + 1 } in
    let second : Key = record { time = tp; seq = d.time_seq + 2 } in
    if not d.working
    then (record { first = pos 0; second = 0 }, d)
    else if interval == 0
    then (
      record { first = pos tp; second = d.time_seq + 1 },
      update_next_timeout now
          (record d { time_seq = d.time_seq + 1; timers = assign first (once callback) d.timers }),
    )
    else (
      record { first = negate tp; second = d.time_seq + 1 },
      update_next_timeout now (record d {
        time_seq = d.time_seq + 2;
        repeatable_timers =
            assign first
              (record { time = tp; interval = interval; timer_id = second; callback = callback })
              d.repeatable_timers;
        timers = assign second (repeats first) d.timers;
      }),
    )

unfoldable pub run_after : ℕ → ℕ → ℕ → Dispatcher → TimerId × Dispatcher
unfolding run_at
run_after now ms callback d = run_at now (now + ms) callback 0 d

unfoldable pub run_every : ℕ → ℕ → ℕ → ℕ → Dispatcher → TimerId × Dispatcher
unfolding run_at
run_every now ms interval callback d = run_at now (now + ms) callback interval d

-- dispatcher::cancel: a repeated timer that is not there is looked at all the same: `none`.
unfoldable pub cancel : TimerId → Dispatcher → Option (Bool × Dispatcher)
unfolding lookup erase_key
cancel tid d = elim tid.first [
  | negsuc n ↦ elim (lookup (record { time = n + 1; seq = tid.second }) d.repeatable_timers) [
    | none ↦ none
    | some task ↦ some (
      true,
      record d {
        timers = erase_key task.timer_id d.timers;
        repeatable_timers =
            erase_key (record { time = n + 1; seq = tid.second }) d.repeatable_timers;
      },
    )
  ]
  | pos n ↦ elim (lookup (record { time = n; seq = tid.second }) d.timers) [
    | none ↦ some (false, d)
    | some task ↦
        some
          (true, record d { timers = erase_key (record { time = n; seq = tid.second }) d.timers })
  ]
]

-- The loop of handle_timeout: what goes to the thread pool, and what is left.
unfoldable pub take_due : ℕ → List (Key × Task) → List Task × List (Key × Task)
take_due now [] = ([], [])
take_due now ((k, t) ∷ rest) =
    let later = take_due now rest in
    if key_lt k (record { time = now; seq = max_timeouts })
    then (t ∷ later.0, later.1)
    else ([], (k, t) ∷ rest)

unfoldable pub handle_timeout : ℕ → Dispatcher → Dispatcher
unfolding take_due update_next_timeout
handle_timeout now d =
    let r = take_due now d.timers in
    update_next_timeout now (record d { timers = r.1; queue = d.queue ++ r.0 })
