-- ===== src/Tests/Locks.antt =====
-- The lock theorems at an item that one or two transactions ask for.
use alphadb.Prelude.{refl, true, [], ◌∷◌}
use alphadb.Prelude.Int.{pos}
use alphadb.Transaction.LockManager.{
  unlocked, shared, exclusive, granted, waiting, LockEntry, request, try_grant, asks, wakes, Steps,
  stay, then_step,
}
use alphadb.Transaction.LockManager.Exclusion.{Steps-Excludes}
use alphadb.Transaction.LockManager.Shapes.{Excludes}
use alphadb.Transaction.LockTable.{LockTable}

abbrev fresh : LockEntry
fresh = record { wait_list = []; current_lock_mode = unlocked; shared_lock_cnt = pos 0 }

abbrev asked_once : LockEntry
asked_once = request 1 exclusive fresh

abbrev asked_twice : LockEntry
asked_twice = request 2 shared asked_once

abbrev locked : LockEntry
locked = record asked_twice {
  wait_list =
      record { txn = 1; mode = exclusive; status = granted }
      ∷ record { txn = 2; mode = shared; status = waiting }
      ∷ [];
  current_lock_mode = exclusive;
}

run : Steps fresh locked
unfolding request try_grant
run =
    then_step fresh asked_twice locked
      (then_step fresh asked_once asked_twice
        (then_step fresh fresh asked_once (stay fresh) (asks 1 exclusive fresh refl refl))
        (asks 2 shared asked_once refl refl))
      (wakes 1 exclusive true asked_twice locked refl refl refl)

Steps-Excludes_example : Excludes locked.wait_list
Steps-Excludes_example = Steps-Excludes fresh locked run refl

-- Transaction 7 has a shared lock.
abbrev held : LockEntry
held = record {
  wait_list = record { txn = 7; mode = shared; status = granted } ∷ [];
  current_lock_mode = unlocked;
  shared_lock_cnt = pos 1;
}

abbrev no_items : LockTable
no_items = record { table_size = 1024; table = λ i. [] }
