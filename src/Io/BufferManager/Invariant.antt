-- ===== src/Io/BufferManager/Invariant.antt =====
-- When a pool is well formed, when it agrees with the disk, and what it shows to its clients.
use mathlib.Core.List.{reverse, reverse-cons}
use alphadb.Prelude.{
  ℕ, ◌+◌, ◌≤◌, ◌≡◌, refl, ◌⊎◌, inl, inr, false, List, [], ◌∷◌, none, some, arith, ltb, ◌==◌,
  if◌then◌else◌, count, count-append, ◌∙◌, ap,
}
use alphadb.Io.HashTable
use alphadb.Io.HashTable.Laws.{IsTable}
use alphadb.Io.BufferManager.Disk.{place}
use alphadb.Io.BufferManager.{BufferManager, BufferEntry, first_unpinned}

-- Every slot is in one of the two lists, once; the hash table and the entries of the used slots
-- say the same. Slot `x` is excepted: it is used, and holds no page yet.
pub record IsPoolBut {D W : Type 0} (x : ℕ) (m : BufferManager D W) : Type 0 where
  pub table : IsTable m.table
  pub slots :
      (s : ℕ) → count s m.used_list + count s m.free_list ≡ (if ltb s m.pool_size then 1 else 0)
  pub mapped :
      (f p s : ℕ)
      → HashTable.find m.table f p ≡ some s
      → (count s m.used_list ≡ 1) × ((s == x) ≡ false) × ((m.pool s).fd ≡ f) × ((m.pool s).page ≡ p)
  pub resident :
      (s : ℕ)
      → count s m.used_list ≡ 1
      → (s == x) ≡ false
      → HashTable.find m.table (m.pool s).fd (m.pool s).page ≡ some s

-- No slot is excepted: `pool_size` is none of them.
abbrev pub IsPool : {D W : Type 0} → BufferManager D W → Type 0
IsPool m = IsPoolBut m.pool_size m

module _ {D W : Type 0} (block : W → ℕ → ℕ → D) where
  -- A used slot that is not dirty holds what the disk holds; slot `x` is excepted.
  pub record IsCleanBut (x : ℕ) (m : BufferManager D W) : Type 0 where
    pub clean :
        (s : ℕ)
        → count s m.used_list ≡ 1
        → (s == x) ≡ false
        → (m.pool s).dirty ≡ false
        → (m.pool s).contents ≡ block m.world (m.pool s).fd (place m.buffer_size (m.pool s).page)

  abbrev pub IsClean : BufferManager D W → Type 0
  IsClean m = IsCleanBut m.pool_size m

  -- The contents of a page: its buffer's, if it has one, and else the disk's.
  abbrev pub view : BufferManager D W → ℕ → ℕ → D
  view m f p = elim (HashTable.find m.table f p) [
    | some s ↦ (m.pool s).contents
    | none ↦ block m.world f (place m.buffer_size p)
  ]

  abbrev pub SameView : BufferManager D W → BufferManager D W → Type 0
  SameView m m' = (f p : ℕ) → view m' f p ≡ view m f p

pub List-cases : (xs : List ℕ) → (xs ≡ []) ⊎ ((x : ℕ) × (r : List ℕ) × (xs ≡ x ∷ r))
List-cases [] = inl refl
List-cases (x ∷ r) = inr (x, r, refl)

pub count-reverse : (s : ℕ) (xs : List ℕ) → count s (reverse xs) ≡ count s xs
unfolding count
count-reverse s [] = refl
count-reverse s (x ∷ xs) =
    ap (count s) (reverse-cons x xs)
    ∙ omega (arith, count-append s (reverse xs) (x ∷ []), count-reverse s xs)

pub first_unpinned-mem :
    {D : Type 0} (pool : ℕ → BufferEntry D) (xs : List ℕ) (s : ℕ)
    → first_unpinned pool xs ≡ some s
    → (1 ≤ count s xs) × ((pool s).pin ≡ 0)
unfolding first_unpinned count
first_unpinned-mem pool [] s h = ground arith
first_unpinned-mem pool (x ∷ xs) s h = ground (arith, first_unpinned-mem pool xs s)
