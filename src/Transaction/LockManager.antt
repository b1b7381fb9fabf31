-- ===== src/Transaction/LockManager.antt =====
-- transaction/lock_manager.cc and struct lock_entry: the requests for the locks of one item. A
-- thread adds its request, and then waits until the test on the entry, which grants the request,
-- answers true; the test is evaluated under the entry's mutex, each time the thread is woken.
pub mod Shapes
pub mod Exclusion
pub mod Release
use alphadb.Prelude.{
  ◌≡◌, ℕ, zero, suc, ◌+◌, Bool, true, false, ◌&&◌, ◌||◌, not, List, [], ◌∷◌, ◌++◌, Option, none,
  some, ◌==◌, if◌then◌else◌,
}
use alphadb.Prelude.Int.{ℤ, pos, negsuc, int_eq, inc, dec}

-- enum class lock_mode, where `unlocked` is none
pub data LockMode : Type 0 where
  unlocked shared exclusive : LockMode

pub data LockStatus : Type 0 where
  granted waiting : LockStatus

-- std::tuple<txn_id_t, lock_mode, lock_status>
pub record Request : Type 0 where
  pub txn : ℕ
  pub mode : LockMode
  pub status : LockStatus

pub record LockEntry : Type 0 where
  pub wait_list : List Request
  pub current_lock_mode : LockMode
  pub shared_lock_cnt : ℤ

abbrev pub is_mode : LockMode → LockMode → Bool
is_mode unlocked unlocked = true
is_mode shared shared = true
is_mode exclusive exclusive = true
is_mode _ _ = false

abbrev pub is_granted : LockStatus → Bool
is_granted granted = true
is_granted waiting = false

-- The first block of lock_manager::lock.
unfoldable pub request : ℕ → LockMode → LockEntry → LockEntry
request txn mode e = record e {
  wait_list = e.wait_list ++ record { txn = txn; mode = mode; status = waiting } ∷ [];
}

-- The loop of the test for a shared lock: the answer, and the list. Past the last request the test
-- returns nothing: `none`.
unfoldable pub scan : ℕ → LockMode → Bool → Bool → List Request → Option (Bool × List Request)
scan txn mode all_shared all_granted [] = none
scan txn mode all_shared all_granted (r ∷ rs) =
    let rest =
      scan txn mode (all_shared && is_mode r.mode shared) (all_granted && is_granted r.status) rs in
    if r.txn == txn
    then (if all_shared && all_granted
        then some (true, record { txn = txn; mode = mode; status = granted } ∷ rs)
        else some (false, r ∷ rs))
    else (elim rest [ none ↦ none | some (b, qs) ↦ some (b, r ∷ qs) ])

-- The test that lock_manager::lock waits for.
unfoldable pub try_grant : ℕ → LockMode → LockEntry → Option (Bool × LockEntry)
unfolding scan
try_grant txn mode e =
    if is_mode mode exclusive
    then (elim e.wait_list [
      | [] ↦ none
      | r ∷ rs ↦
          if r.txn == txn
          then some (
            true,
            record e {
              wait_list = record { txn = txn; mode = mode; status = granted } ∷ rs;
              current_lock_mode = exclusive;
            },
          )
          else some (false, e)
    ])
    else (elim (scan txn mode true true e.wait_list) [
      | none ↦ none
      | some (true, rs) ↦
          some (true, record e { wait_list = rs; shared_lock_cnt = inc e.shared_lock_cnt })
      | some (false, rs) ↦ some (false, record e { wait_list = rs })
    ])

-- wait_list.remove({txn_id, mode, granted})
unfoldable pub drop_granted : ℕ → LockMode → List Request → List Request
drop_granted txn mode [] = []
drop_granted txn mode (r ∷ rs) =
    let rest = drop_granted txn mode rs in
    if r.txn == txn && is_mode r.mode mode && is_granted r.status then rest else r ∷ rest

-- The block of lock_manager::unlock: whether to notify, and the entry.
unfoldable pub release : ℕ → LockEntry → Bool × LockEntry
unfolding drop_granted
release txn e =
    let kept = drop_granted txn e.current_lock_mode e.wait_list in
    elim e.current_lock_mode [
      | unlocked ↦ (false, record e { wait_list = kept })
      | exclusive ↦ (true, record e { wait_list = kept; current_lock_mode = unlocked })
      | shared ↦
          if int_eq (dec e.shared_lock_cnt) (pos 0)
          then (
            true,
            record e {
              wait_list = kept;
              current_lock_mode = unlocked;
              shared_lock_cnt = dec e.shared_lock_cnt;
            },
          )
          else (false, record e { wait_list = kept; shared_lock_cnt = dec e.shared_lock_cnt })
    ]

-- A request of `txn` for `mode` is in the list, and the first of the transaction's.
abbrev pub mode_of : ℕ → List Request → LockMode
mode_of txn [] = unlocked
mode_of txn (r ∷ rs) = if r.txn == txn then r.mode else mode_of txn rs

-- What the threads do to an entry, in any order: a transaction asks for an item once, and is woken
-- for its own request.
pub data Step : LockEntry → LockEntry → Type 0 where
  asks :
      (txn : ℕ) (mode : LockMode) (e : LockEntry)
      → is_mode mode unlocked ≡ false
      → mode_of txn e.wait_list ≡ unlocked
      → Step e (request txn mode e)
  wakes :
      (txn : ℕ) (mode : LockMode) (b : Bool) (e e' : LockEntry)
      → is_mode mode unlocked ≡ false
      → mode_of txn e.wait_list ≡ mode
      → try_grant txn mode e ≡ some (b, e')
      → Step e e'
  leaves : (txn : ℕ) (e : LockEntry) → Step e (release txn e).1

pub data Steps : LockEntry → LockEntry → Type 0 where
  stay : (e : LockEntry) → Steps e e
  then_step : (e f g : LockEntry) → Steps e f → Step f g → Steps e g
