-- ===== src/Network/ThreadPool.antt =====
-- network/thread_pool.cc: the queue of tasks and the workers, in any interleaving of what they do under
-- the mutex. A task is a number. `started` and `accepted` are no fields of the code: they record the
-- tasks that workers have taken and those that enqueue has queued, in order.
pub mod Drain
use alphadb.Prelude.{
  ℕ, zero, suc, ◌+◌, ◌-◌, ◌<◌, ◌≡◌, Bool, true, false, not, ◌&&◌, ◌||◌, Option, none, some, List,
  [], ◌∷◌, ◌++◌, if◌then◌else◌,
}

pub record ThreadPool : Type 0 where
  pub working : Bool
  pub tasks : List ℕ
  pub waiting : ℕ
  pub busy : ℕ
  pub gone : ℕ
  pub started : List ℕ
  pub accepted : List ℕ

-- thread_pool::thread_pool
unfoldable pub new : ℕ → ThreadPool
new threads = record {
  working = true;
  tasks = [];
  waiting = threads;
  busy = 0;
  gone = 0;
  started = [];
  accepted = [];
}

-- thread_pool::enqueue; none where it throws.
unfoldable pub enqueue : ℕ → ThreadPool → Option ThreadPool
enqueue task p =
    if not p.working
    then none
    else some (record p { tasks = p.tasks ++ task ∷ []; accepted = p.accepted ++ task ∷ [] })

-- tasks_.empty()
unfoldable pub is_empty : List ℕ → Bool
is_empty [] = true
is_empty (_ ∷ _) = false

-- The condition that a worker waits for.
unfoldable pub ready : ThreadPool → Bool
ready p = not p.working || not (is_empty p.tasks)

-- What a worker does when it wakes: it returns, or it takes the front of the queue.
unfoldable pub take_front : ThreadPool → List ℕ → ThreadPool
take_front p [] = p
take_front p (task ∷ rest) = record p {
  tasks = rest;
  waiting = p.waiting - 1;
  busy = p.busy + 1;
  started = p.started ++ task ∷ [];
}

unfoldable pub wake : ThreadPool → ThreadPool
wake p =
    if not p.working && is_empty p.tasks
    then record p { waiting = p.waiting - 1; gone = p.gone + 1 }
    else take_front p p.tasks

-- A worker ends its task.
unfoldable pub finish : ThreadPool → ThreadPool
finish p = record p { busy = p.busy - 1; waiting = p.waiting + 1 }

-- The first block of thread_pool::~thread_pool.
unfoldable pub stop : ThreadPool → ThreadPool
stop p = record p { working = false }

-- thread_pool::~thread_pool returns: every worker of `threads` is Joined.
unfoldable pub Joined : ℕ → ThreadPool → Type 0
Joined threads p = (p.working ≡ false) × (p.gone ≡ threads)

-- One step of a thread of the program or of a worker.
pub data Step : ThreadPool → ThreadPool → Type 0 where
  enqueues : (task : ℕ) → (p q : ThreadPool) → enqueue task p ≡ some q → Step p q
  wakes : (p : ThreadPool) → 0 < p.waiting → ready p ≡ true → Step p (wake p)
  finishes : (p : ThreadPool) → 0 < p.busy → Step p (finish p)
  stops : (p : ThreadPool) → Step p (stop p)

pub data Steps : ThreadPool → ThreadPool → Type 0 where
  here : (p : ThreadPool) → Steps p p
  onward : (p q r : ThreadPool) → Steps p q → Step q r → Steps p r
