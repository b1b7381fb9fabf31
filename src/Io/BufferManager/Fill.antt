-- ===== src/Io/BufferManager/Fill.antt =====
-- A slot of the pool gets a page, and its buffer is filled from the disk.
use alphadb.Prelude.{
  ℕ, ◌≡◌, inl, inr, false, ◌&&◌, none, some, arith, ◌==◌, if◌then◌else◌, count, update,
  Option-cases,
}
use alphadb.Io.HashTable
use alphadb.Io.HashTable.Laws.{find-insert, insert-IsTable}
use alphadb.Io.BufferManager.Disk.{place, SameDisk}
use alphadb.Io.BufferManager.Invariant.{IsPoolBut, IsPool, IsCleanBut, IsClean, view, SameView}
use alphadb.Io.BufferManager.{BufferManager, init_page_info, map_page}

module _ {D W : Type 0} where
  -- The slot at hand gets a page that was nowhere in the pool.
  module _ (m : BufferManager D W) (fd page slot : ℕ) (used : count slot m.used_list ≡ 1)
      (ip : IsPoolBut slot m) (absent : HashTable.find m.table fd page ≡ none) where
    pub install-IsPool : IsPool (init_page_info fd page slot (map_page fd page slot m))
    unfolding init_page_info map_page
    install-IsPool = record {
      table = insert-IsTable m.table fd page slot ip.table;
      slots = ip.slots;
      mapped = λ f p s h.
          ground (arith, ip.slots s, find-insert m.table fd page slot f p absent, ip.mapped f p s);
      resident = λ s h n. ground (
        arith,
        find-insert m.table fd page slot (m.pool s).fd (m.pool s).page absent,
        find-insert m.table fd page slot fd page absent,
        ip.resident s,
      );
    }

    pub install-IsCleanBut :
        (block : W → ℕ → ℕ → D)
        → IsCleanBut block slot m
        → IsCleanBut block slot (init_page_info fd page slot (map_page fd page slot m))
    unfolding init_page_info map_page
    install-IsCleanBut block ic = record { clean = λ s h n d. ground (arith, ic.clean s) }

    pub install-IsClean :
        (block : W → ℕ → ℕ → D)
        → IsCleanBut block slot m
        → (m.pool slot).contents ≡ block m.world fd (place m.buffer_size page)
        → IsClean block (init_page_info fd page slot (map_page fd page slot m))
    unfolding init_page_info map_page
    install-IsClean block ic e = record { clean = λ s h n d. ground (arith, ic.clean s) }

    -- Every other page reads as before.
    pub install-view :
        (block : W → ℕ → ℕ → D) (f p : ℕ)
        → view block (init_page_info fd page slot (map_page fd page slot m)) f p
          ≡ (if (fd == f && page == p) then (m.pool slot).contents else view block m f p)
    unfolding init_page_info map_page
    install-view block f p =
        ground (arith, find-insert m.table fd page slot f p absent, ip.mapped f p)

    pub install-absent :
        (f p : ℕ)
        → (fd == f && page == p) ≡ false
        → HashTable.find m.table f p ≡ none
        → HashTable.find (init_page_info fd page slot (map_page fd page slot m)).table f p ≡ none
    unfolding init_page_info map_page
    install-absent f p n h = ground (arith, find-insert m.table fd page slot f p absent)

    pub install-find :
        HashTable.find (init_page_info fd page slot (map_page fd page slot m)).table fd page
        ≡ some slot
    unfolding init_page_info map_page
    install-find = ground (arith, find-insert m.table fd page slot fd page absent)

-- The buffer of the slot at hand is filled from the disk.
module _ {D W : Type 0} (block : W → ℕ → ℕ → D) (m : BufferManager D W) (slot : ℕ) (d : D) (w : W)
    (ip : IsPoolBut slot m) (same : SameDisk block m.buffer_size m.world w) where
  abbrev pub filled : BufferManager D W
  filled = record m { pool = update m.pool slot (record (m.pool slot) { contents = d }); world = w }

  pub filled-IsPoolBut : IsPoolBut slot filled
  filled-IsPoolBut = record {
    table = ip.table;
    slots = ip.slots;
    mapped = λ f p s h. ground (arith, ip.mapped f p s);
    resident = λ s h n. ground (arith, ip.resident s);
  }

  pub filled-IsCleanBut : IsCleanBut block slot m → IsCleanBut block slot filled
  filled-IsCleanBut ic = record {
    clean = λ s h n e. ground (arith, ic.clean s, same (m.pool s).fd (m.pool s).page);
  }

  pub filled-view : SameView block m filled
  filled-view f p = elim (Option-cases (HashTable.find m.table f p)) [
    | inl e ↦ ground (arith, same f p)
    | inr (s, e) ↦ ground (arith, ip.mapped f p s)
  ]
