-- ===== src/Io/BufferManager/New.antt =====
-- The pool that the constructor makes.
use alphadb.Prelude.{
  ℕ, zero, suc, ◌+◌, ◌≡◌, refl, ◌&&◌, none, arith, ltb, leb, if◌then◌else◌, count,
}
use alphadb.Io.HashTable
use alphadb.Io.HashTable.Laws.{new-IsTable, find-new}
use alphadb.Io.BufferManager.Disk.{place}
use alphadb.Io.BufferManager.Invariant.{IsPool, IsClean, view}
use alphadb.Io.BufferManager.{BufferManager, BufferEntry, hash_table_size, slots_from, new}

count-slots_from :
    (s i n : ℕ) → count s (slots_from i n) ≡ (if leb i s && ltb s (i + n) then 1 else 0)
unfolding slots_from count
count-slots_from s i zero = ground arith
count-slots_from s i (suc n) = ground (arith, count-slots_from s (i + 1) n)

module _ {D W : Type 0} (block : W → ℕ → ℕ → D) (pool_size buffer_size : ℕ)
    (raw : ℕ → BufferEntry D) (zeros : D) (w : W) where
  -- The pool that is left by the constructor, whatever was in the memory that it got.
  pub record Built (m : BufferManager D W) : Type 0 where
    pub pool : IsPool m
    pub clean : IsClean block m
    pub sizes : (m.pool_size ≡ pool_size) × (m.buffer_size ≡ buffer_size)
    pub empty : (f p : ℕ) → HashTable.find m.table f p ≡ none
    pub reads : (f p : ℕ) → view block m f p ≡ block w f (place buffer_size p)

  -- The constructor makes a well-formed pool of the asked sizes that holds no page, agrees with the
  -- disk and shows the contents of the disk, whatever was in the memory that it got.
  pub new-Built : Built (new pool_size buffer_size raw zeros w)
  unfolding new count
  new-Built = record {
    pool = record {
      table = new-IsTable hash_table_size;
      slots = λ s. ground (arith, count-slots_from s 0 pool_size);
      mapped = λ f p s h. absurd (ground (arith, find-new hash_table_size f p));
      resident = λ s h n. absurd (ground arith);
    };
    clean = record { clean = λ s h n e. absurd (ground arith) };
    sizes = (refl, refl);
    empty = λ f p. find-new hash_table_size f p;
    reads = λ f p. ground (arith, find-new hash_table_size f p);
  }
