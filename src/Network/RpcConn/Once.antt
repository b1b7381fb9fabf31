-- ===== src/Network/RpcConn/Once.antt =====
-- How often the function of a call is run.
use mathlib.Core.Option.{some-injective}
use alphadb.Prelude.{
  ℕ, ◌+◌, ◌≤◌, ◌<◌, ◌≡◌, sym, subst, inl, inr, some, ltb, if◌then◌else◌, arith, count, count-erase,
  Bool-cases,
}
use alphadb.Network.RpcConn.{
  RpcConn, new, start_call, insert_future, find_future, run_future, cancel, Step, starts, inserts,
  finds, runs, cancels, Steps, here, onward,
}

-- In how many places the call is: sent, waiting for its reply, or run.
abbrev pub places : ℕ → RpcConn → ℕ
places id c = count id c.sent + (count id c.futures + count id c.ran)

-- A call is in one place at most, and in none before it was made.
abbrev pub IsOnce : RpcConn → Type 0
IsOnce c = (id : ℕ) → places id c ≤ (if ltb id c.rpc_id then 1 else 0)

new-IsOnce : IsOnce new
unfolding new count
new-IsOnce id = omega arith

start_call-IsOnce : (c : RpcConn) → IsOnce c → IsOnce (start_call c)
unfolding start_call count
start_call-IsOnce c v id = ground (arith, v id)

insert_future-IsOnce :
    (id : ℕ) (c : RpcConn) → IsOnce c → 0 < count id c.sent → IsOnce (insert_future id c)
unfolding insert_future count
insert_future-IsOnce id c v h k = ground (arith, v k, count-erase id k c.sent, h)

run_future-IsOnce : (id : ℕ) (c d : RpcConn) → IsOnce c → run_future id c ≡ some d → IsOnce d
unfolding run_future count
run_future-IsOnce id c d v e = elim (Bool-cases (ltb 0 (count id c.futures))) [
  | inl held ↦
      subst IsOnce (some-injective _ d (rw (run_future, held) at e))
        (λ k. ground (arith, v k, count-erase id k c.futures, held))
  | inr gone ↦ absurd (ground (arith, gone, e))
]

cancel-IsOnce : (id : ℕ) (c : RpcConn) → IsOnce c → IsOnce (cancel id c)
unfolding cancel
cancel-IsOnce id c v k = ground (arith, v k, count-erase id k c.futures)

Step-IsOnce : (c d : RpcConn) → Step c d → IsOnce c → IsOnce d
unfolding find_future
Step-IsOnce c _ (starts d more e) v = subst IsOnce (sym e) (start_call-IsOnce c v)
Step-IsOnce c _ (inserts id d waits e) v = subst IsOnce (sym e) (insert_future-IsOnce id c v waits)
Step-IsOnce c _ (finds id d free e) v = subst IsOnce (sym e) (λ k. v k)
Step-IsOnce c _ (runs id d at e) v = run_future-IsOnce id c d v e
Step-IsOnce c _ (cancels id d e) v = subst IsOnce (sym e) (cancel-IsOnce id c v)

Steps-IsOnce : (c d : RpcConn) → Steps c d → IsOnce c → IsOnce d
Steps-IsOnce _ _ (here c) v = v
Steps-IsOnce _ _ (onward c d e before last) v = Step-IsOnce d e last (Steps-IsOnce c d before v)

-- However callers, replies and cancellations interleave on a new connection, the function of every
-- call is run at most once, only after the call was made, and it is then no longer kept.
pub Steps-Once :
    (c : RpcConn)
    → Steps new c
    → (id : ℕ)
    → (count id c.ran ≤ 1) × (0 < count id c.ran → (id < c.rpc_id) × (count id c.futures ≡ 0))
Steps-Once c steps id =
    let v = Steps-IsOnce new c steps new-IsOnce id in
    (ground (arith, v), λ ran. (ground (arith, v, ran), ground (arith, v, ran)))
