-- ===== src/Transaction/LockTable.antt =====
-- transaction/lock_table.cc: the entries of the items, in chains. `new lock_entry()` leaves the
-- item of an entry indeterminate, and nothing sets it: it is the parameter `raw` of `add`. An
-- item's address is a number; the array of chains is zeroed, which the constructor does not do.
use alphadb.Prelude.{
  ℕ, ◌%◌, ◌≡◌, Bool, true, false, List, [], ◌∷◌, Option, none, some, arith, ◌==◌, if◌then◌else◌,
  update,
}
use alphadb.Transaction.LockManager.{LockEntry}

-- An entry with its item.
pub record Node : Type 0 where
  pub item : ℕ
  pub entry : LockEntry

pub record LockTable : Type 0 where
  pub table_size : ℕ
  pub table : ℕ → List Node

unfoldable pub hash : LockTable → ℕ → ℕ
hash t item = item % t.table_size

-- The loop of lock_table::search; `none` is the null pointer.
unfoldable pub search_chain : ℕ → List Node → Option Node
search_chain item [] = none
search_chain item (n ∷ ns) = if item == n.item then some n else search_chain item ns

unfoldable pub search : LockTable → ℕ → Option Node
unfolding search_chain hash
search t item = search_chain item (t.table (hash t item))

-- lock_table::add: the entry and the table. `head->prev = entry` goes through a null pointer if the
-- chain is empty: `none`.
unfoldable pub add : Node → LockTable → ℕ → Option (Node × LockTable)
unfolding search hash
add raw t item = elim (search t item) [
  | some n ↦ some (n, t)
  | none ↦ elim (t.table (hash t item)) [
    | [] ↦ none
    | head ∷ rest ↦
        some (raw, record t { table = update t.table (hash t item) (raw ∷ head ∷ rest) })
  ]
]

unfoldable pub unlink : ℕ → List Node → List Node
unlink item [] = []
unlink item (n ∷ ns) = if item == n.item then ns else n ∷ unlink item ns

-- lock_table::remove
unfoldable pub remove : LockTable → ℕ → Bool × LockTable
unfolding search hash unlink
remove t item = elim (search t item) [
  | none ↦ (false, t)
  | some _ ↦ (
    true,
    record t { table = update t.table (hash t item) (unlink item (t.table (hash t item))) },
  )
]

-- In a lock table whose chain for an item is empty, add writes through a null pointer.
pub add-empty :
    (raw : Node) (t : LockTable) (item : ℕ) → t.table (hash t item) ≡ [] → add raw t item ≡ none
unfolding add search_chain
add-empty raw t item nothing = ground arith
