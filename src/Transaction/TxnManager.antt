-- ===== src/Transaction/TxnManager.antt =====
-- transaction/txn_manager.cc: the handles of tables and indexes that a transaction manager keeps, in
-- maps that are here lists of pairs, the pair that was added last first. What the table manager and
-- the index manager do to open one is a parameter.
pub mod Handles
use alphadb.Prelude.{ℕ, List, [], ◌∷◌, Option, none, some, if◌then◌else◌, ◌==◌}
use alphadb.Prelude.Int.{ℤ}
use alphadb.Io.Result.{Out, ok, exception, crash, M}

-- table_manager::open_table and index_manager::open_index; W is the state that they act on.
pub record Managers (T I W : Type 0) : Type 0 where
  pub open_table : ℕ → M W T
  pub open_index : ℕ → ℤ → M W I

pub record TxnManager (T I W : Type 0) : Type 0 where
  pub tables : List (ℕ × T)
  pub indexes : List (ℕ × I)
  pub world : W

-- find of a map
unfoldable pub lookup : {A : Type 0} → ℕ → List (ℕ × A) → Option A
lookup name [] = none
lookup name ((key, handle) ∷ l) = if name == key then some handle else lookup name l

module _ {T I W : Type 0} (mgr : Managers T I W) where
  -- What follows a call of open_table: a handle that it returns is kept, an exception passes on.
  unfoldable pub keep_table : ℕ → TxnManager T I W → Out W T → Out (TxnManager T I W) T
  keep_table name s (ok handle w) =
      ok handle (record s { tables = (name, handle) ∷ s.tables; world = w })
  keep_table name s (exception w) = exception (record s { world = w })
  keep_table name s crash = crash

  unfoldable pub keep_index : ℕ → TxnManager T I W → Out W I → Out (TxnManager T I W) I
  keep_index name s (ok handle w) =
      ok handle (record s { indexes = (name, handle) ∷ s.indexes; world = w })
  keep_index name s (exception w) = exception (record s { world = w })
  keep_index name s crash = crash

  -- txn_manager::get_table
  unfoldable pub get_table : ℕ → M (TxnManager T I W) T
  get_table name s = elim (lookup name s.tables) [
    | some handle ↦ ok handle s
    | none ↦ keep_table name s (mgr.open_table name s.world)
  ]

  -- txn_manager::get_index, which looks in the map under the name alone
  unfoldable pub get_index : ℕ → ℤ → M (TxnManager T I W) I
  get_index name index s = elim (lookup name s.indexes) [
    | some handle ↦ ok handle s
    | none ↦ keep_index name s (mgr.open_index name index s.world)
  ]
