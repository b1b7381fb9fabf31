-- ===== src/Transaction/LockManager/Release.antt =====
-- Shared locks under unlock.
use alphadb.Prelude.{ℕ, ◌≡◌, Bool, true, false, ◌&&◌, ◌||◌, List, [], ◌∷◌, ◌==◌}
use alphadb.Transaction.LockManager.{shared, Request, LockEntry, is_mode, is_granted}

-- Transaction `t` has a granted shared lock.
abbrev pub holds_shared : ℕ → List Request → Bool
holds_shared t [] = false
holds_shared t (r ∷ rs) =
    r.txn == t && is_mode r.mode shared && is_granted r.status || holds_shared t rs

-- The lock is held, and unlock takes the entry for one that is not locked for shared access.
pub record Stuck (t : ℕ) (e : LockEntry) : Type 0 where
  pub holds : holds_shared t e.wait_list ≡ true
  pub mode : is_mode e.current_lock_mode shared ≡ false
