-- ===== src/Io/BufferManager/Total.antt =====
-- get_page over a kernel whose calls succeed: it throws only when it has to.
use alphadb.Prelude.{ℕ, ◌≤◌, ◌≡◌, ◌⊎◌, Bool, false, List, [], none, some, count}
use alphadb.Prelude.Int.{pos}
use alphadb.Io.HashTable
use alphadb.Io.Unix.{Unix}
use alphadb.Io.BufferManager.{BufferManager}

-- Every seek succeeds, and every read and write transfers all bytes.
pub record IsHealthy {D W : Type 0} (os : Unix D W) : Type 0 where
  pub seeks : (fd off : ℕ) (w : W) → (r : ℕ) × ((os.lseek fd (pos off) w).0 ≡ pos r)
  pub reads : (fd n : ℕ) (d : D) (w : W) → (os.read fd n d w).0 ≡ pos n
  pub writes : (fd n : ℕ) (d : D) (w : W) → (os.write fd d n w).0 ≡ pos n

module _ {D W : Type 0} (os : Unix D W) (m : BufferManager D W) where
  -- Every slot that is in use is pinned, and there is no other.
  pub record Exhausted : Type 0 where
    pub none_free : m.free_list ≡ []
    pub pinned : (s : ℕ) → 1 ≤ count s m.used_list → 1 ≤ (m.pool s).pin

  -- When get_page cannot answer a slot.
  abbrev pub Refuses : ℕ → ℕ → Bool → Type 0
  Refuses fd page multiple =
      ((slot : ℕ) × (HashTable.find m.table fd page ≡ some slot)
        × (multiple ≡ false)
        × (1 ≤ (m.pool slot).pin))
      ⊎ ((HashTable.find m.table fd page ≡ none) × Exhausted)
