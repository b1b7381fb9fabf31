-- ===== src/Io/BufferManager/Stale.antt =====
-- Slots that keep the key of a page they no longer hold.
use alphadb.Prelude.{ℕ, ◌≡◌, ◌≢◌, Bool, true, false, List, ◌∷◌, none, some, arith, ltb, ◌==◌, count}
use alphadb.Prelude.Int.{pos, negsuc}
use alphadb.Io.HashTable
use alphadb.Io.Result.{ok, exception, ◌>>=◌}
use alphadb.Io.Unix.{Unix}
use alphadb.Io.BufferManager.Invariant.{IsPool}
use alphadb.Io.BufferManager.{
  BufferManager, flush_slot, set_dirty, unmap_page, remove, insert_free, get_page, write_back,
  internal_alloc, read_page, insert_used, offset,
}

module _ {D W : Type 0} (os : Unix D W) (fd : ℕ) where
  write_back-clean :
      (m : BufferManager D W) (i : ℕ) → (m.pool i).dirty ≡ false → write_back os i m ≡ ok tt m
  unfolding write_back
  write_back-clean m i clean = rw (clean, write_back)

  -- A round of flush_pages at a free slot that still carries the descriptor, unpinned and not
  -- dirty, puts the slot into the free list a second time, which leaves a pool that is not well
  -- formed.
  pub flush_slot-free :
      (m : BufferManager D W) (i : ℕ)
      → count i m.free_list ≡ 1
      → (m.pool i).fd ≡ fd
      → (m.pool i).pin ≡ 0
      → (m.pool i).dirty ≡ false
      → (m' : BufferManager D W) × (flush_slot os fd i m ≡ ok tt m')
        × (count i m'.free_list ≡ 2)
        × ¬ IsPool m'
  unfolding flush_slot count
  flush_slot-free m i free here idle clean =
      let mine : ((m.pool i).fd == fd) ≡ true = ground arith in
      let unpinned : ltb 0 (m.pool i).pin ≡ false = ground arith in
      (
        insert_free i (remove i (unmap_page (m.pool i).fd (m.pool i).page (set_dirty i false m))),
        rw (mine, flush_slot, unpinned, write_back-clean m i clean, ◌>>=◌),
        ground arith,
        λ ip. absurd (ground (arith, ip.slots i)),
      )

  -- On a well-formed pool with a free slot, get_page of an absent page whose seek fails throws and
  -- leaves that slot used with no page mapped to it, so that the pool is no longer well formed.
  pub get_page-unread :
      (m : BufferManager D W) (page slot k : ℕ) (rest : List ℕ) (b : Bool)
      → IsPool m
      → m.free_list ≡ slot ∷ rest
      → HashTable.find m.table fd page ≡ none
      → (os.lseek fd (offset m.buffer_size (pos page)) m.world).0 ≡ negsuc k
      → (m' : BufferManager D W) × (get_page os fd page b m ≡ exception m')
        × (count slot m'.used_list ≡ 1)
        × ((f p : ℕ) → HashTable.find m'.table f p ≢ some slot)
        × ¬ IsPool m'
  unfolding get_page internal_alloc read_page count
  get_page-unread m page slot k rest b ip free absent fails =
      let m₁ = insert_used slot (record m { free_list = rest }) in
      let lost = λ (f p : ℕ) (e : HashTable.find m.table f p ≡ some slot).
        absurd {A = ⊥} (ground (arith, ip.slots slot, ip.mapped f p slot)) in
      (
        record m₁ { world = (os.lseek fd (offset m.buffer_size (pos page)) m.world).1 },
        ground arith,
        ground (arith, ip.slots slot),
        lost,
        λ jp.
            lost _ _
              (jp.resident slot (ground (arith, ip.slots slot)) (ground (arith, ip.slots slot))),
      )
