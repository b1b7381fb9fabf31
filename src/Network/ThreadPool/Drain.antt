-- ===== src/Network/ThreadPool/Drain.antt =====
-- What the pool has done with the tasks it has accepted.
use mathlib.Core.List.{append-nil, append_assoc}
use mathlib.Core.Option.{some-injective}
use alphadb.Prelude.{
  ℕ, ◌+◌, ◌<◌, ◌≡◌, refl, ap, sym, ◌∙◌, subst, true, false, not, ◌&&◌, some, List, [], ◌∷◌, ◌++◌,
  inl, inr, arith, Bool-cases,
}
use alphadb.Network.ThreadPool.{
  ThreadPool, new, enqueue, is_empty, take_front, wake, finish, stop, Joined, Step, enqueues, wakes,
  finishes, stops, Steps, here, onward,
}

pub record IsPool (threads : ℕ) (p : ThreadPool) : Type 0 where
  -- every worker is in one place
  pub workers : p.waiting + (p.busy + p.gone) ≡ threads
  -- first in, first out
  pub order : p.started ++ p.tasks ≡ p.accepted
  -- a worker returns only from a stopped pool with no task left
  pub stopped : 0 < p.gone → p.working ≡ false
  pub drained : 0 < p.gone → p.tasks ≡ []

new-IsPool : (threads : ℕ) → IsPool threads (new threads)
unfolding new
new-IsPool threads = record {
  workers = omega arith;
  order = refl;
  stopped = λ h. absurd (omega arith);
  drained = λ h. absurd (omega arith);
}

enqueue-IsPool :
    (threads task : ℕ) (p q : ThreadPool)
    → IsPool threads p
    → enqueue task p ≡ some q
    → IsPool threads q
unfolding enqueue
enqueue-IsPool threads task p q v e = elim (Bool-cases p.working) [
  | inr down ↦ absurd (ground (arith, down, e))
  | inl up ↦
      let accepts : not p.working ≡ false = ground arith in
      subst (IsPool threads) (some-injective _ q (rw (enqueue, accepts) at e)) (record {
        workers = v.workers;
        order = sym (append_assoc p.started p.tasks (task ∷ [])) ∙ ap (λ l. l ++ task ∷ []) v.order;
        stopped = v.stopped;
        drained = λ g. absurd (ground (arith, v.stopped g, up));
      })
]

take_front-IsPool :
    (threads : ℕ) (p : ThreadPool) (l : List ℕ)
    → p.tasks ≡ l
    → 0 < p.waiting
    → IsPool threads p
    → IsPool threads (take_front p l)
unfolding take_front
take_front-IsPool threads p [] at h v = v
take_front-IsPool threads p (task ∷ rest) at h v = record {
  workers = omega (arith, v.workers);
  order = append_assoc p.started (task ∷ []) rest ∙ ap (λ l. p.started ++ l) (sym at) ∙ v.order;
  stopped = v.stopped;
  drained = λ g. absurd (ground (arith, v.drained g, at));
}

is_empty-[] : (l : List ℕ) → is_empty l ≡ true → l ≡ []
unfolding is_empty
is_empty-[] [] e = refl
is_empty-[] (x ∷ l) e = absurd (ground arith)

wake-IsPool :
    (threads : ℕ) (p : ThreadPool) → 0 < p.waiting → IsPool threads p → IsPool threads (wake p)
unfolding wake
wake-IsPool threads p waiting v = elim (Bool-cases (not p.working && is_empty p.tasks)) [
  | inr more ↦ rw (wake, more) (take_front-IsPool threads p p.tasks refl waiting v)
  | inl over ↦
      rw (wake, over)
        (record {
          workers = omega (arith, v.workers);
          order = v.order;
          stopped = λ h. ground arith;
          drained = λ h. is_empty-[] p.tasks (ground arith);
        })
]

Step-IsPool : (threads : ℕ) (p q : ThreadPool) → Step p q → IsPool threads p → IsPool threads q
unfolding finish stop
Step-IsPool threads _ _ (enqueues task p q e) v = enqueue-IsPool threads task p q v e
Step-IsPool threads _ _ (wakes p waiting r) v = wake-IsPool threads p waiting v
Step-IsPool threads _ _ (finishes p busy) v = record {
  workers = omega (arith, v.workers);
  order = v.order;
  stopped = v.stopped;
  drained = v.drained;
}
Step-IsPool threads _ _ (stops p) v = record {
  workers = v.workers;
  order = v.order;
  stopped = λ h. refl;
  drained = v.drained;
}

Steps-IsPool : (threads : ℕ) (p q : ThreadPool) → Steps p q → IsPool threads p → IsPool threads q
Steps-IsPool threads _ _ (here p) v = v
Steps-IsPool threads _ _ (onward p q r before last) v =
    Step-IsPool threads q r last (Steps-IsPool threads p q before v)

-- However the callers and the workers of a pool with at least one worker interleave, the tasks
-- taken by workers and then the queued ones are the accepted ones in order; and once the destructor
-- has joined all workers, every accepted task has been taken and no worker is still in one.
pub Steps-Drained :
    (threads : ℕ) (p : ThreadPool)
    → 0 < threads
    → Steps (new threads) p
    → (p.started ++ p.tasks ≡ p.accepted)
      × (Joined threads p → (p.started ≡ p.accepted) × (p.busy ≡ 0))
unfolding Joined
Steps-Drained threads p h s =
    let v : IsPool threads p = Steps-IsPool threads (new threads) p s (new-IsPool threads) in
    (
      v.order,
      λ (down, all). (
        sym (append-nil p.started)
            ∙ ap (λ l. p.started ++ l) (sym (v.drained (omega (arith, all))))
            ∙ v.order,
        omega (arith, all, v.workers),
      ),
    )
