-- ===== src/Io/BufferManager.antt =====
-- io/buffer_manager.h and io/buffer_manager.cc: a pool of page buffers with pin counts, found
-- through the hash table and evicted in the order of the used list. A `char*` into the pool is the
-- slot that it belongs to, since each slot has one buffer for life. `used_map_` holds, for every
-- slot of `used_list_`, the iterator of its one node, so that erasing through it is erasing that
-- node of the list.
pub mod Disk
pub mod New
pub mod Invariant
pub mod Alloc
pub mod Fill
pub mod GetPage
pub mod Total
pub mod Update
pub mod Flush
pub mod Force
pub mod Stale
use mathlib.Core.List.{reverse}
use alphadb.Prelude.{
  ℕ, zero, suc, ◌+◌, ◌-◌, ◌*◌, Bool, true, false, ◌&&◌, ◌||◌, not, List, [], ◌∷◌, Option, none,
  some, ltb, ◌==◌, if◌then◌else◌, update, erase,
}
use alphadb.Prelude.Int.{ℤ, pos, negsuc, int_eq, sub_ℕ}
use alphadb.Io.HashTable
use alphadb.Io.HashTable.{HashTable}
use alphadb.Io.Result.{M, ok, exception, pure, ◌>>=◌, ◌>>◌, modify, refuse}
use alphadb.Io.Unix.{Unix}

-- buffer_manager::buffer_entry
pub record BufferEntry (D : Type 0) : Type 0 where
  pub dirty : Bool
  pub fd : ℕ
  pub page : ℕ
  pub contents : D
  pub pin : ℕ

pub record BufferManager (D W : Type 0) : Type 0 where
  pub pool_size : ℕ
  pub buffer_size : ℕ
  pub table : HashTable
  pub pool : ℕ → BufferEntry D
  pub free_list : List ℕ
  pub used_list : List ℕ
  -- the state of the kernel
  pub world : W

abbrev pub hash_table_size : ℕ
hash_table_size = 20

-- i, i + 1, ..., i + n - 1
unfoldable pub slots_from : ℕ → ℕ → List ℕ
slots_from i zero = []
slots_from i (suc n) = i ∷ slots_from (i + 1) n

-- page * buffer_size_ + 4096; a negative number is ALL_PAGES or a bad page
abbrev pub offset : ℕ → ℤ → ℤ
offset size (pos p) = pos (p * size + 4096)
offset size (negsuc k) = sub_ℕ 4096 ((k + 1) * size)

-- The first slot of a list that nobody pins.
pub first_unpinned : {D : Type 0} → (ℕ → BufferEntry D) → List ℕ → Option ℕ
first_unpinned pool [] = none
first_unpinned pool (s ∷ ss) = if (pool s).pin == 0 then some s else first_unpinned pool ss

module _ {D W : Type 0} where
  -- buffer_manager::buffer_manager. `new` leaves all of an entry but its zeroed buffer
  -- indeterminate: `raw` stands for what the memory held.
  unfoldable pub new : ℕ → ℕ → (ℕ → BufferEntry D) → D → W → BufferManager D W
  unfolding slots_from
  new pool_size buffer_size raw zeros w = record {
    pool_size = pool_size;
    buffer_size = buffer_size;
    table = HashTable.new hash_table_size;
    pool = λ i. record (raw i) { contents = zeros };
    free_list = slots_from 0 pool_size;
    used_list = [];
    world = w;
  }

  pub insert_free : ℕ → BufferManager D W → BufferManager D W
  insert_free slot m = record m { free_list = slot ∷ m.free_list }

  unfoldable pub insert_used : ℕ → BufferManager D W → BufferManager D W
  insert_used slot m = record m { used_list = slot ∷ m.used_list }

  -- buffer_manager::remove
  pub remove : ℕ → BufferManager D W → BufferManager D W
  remove slot m = record m { used_list = erase slot m.used_list }

  -- remove(slot); insert_used(slot): the slot is the most recently used one
  pub touch : ℕ → BufferManager D W → BufferManager D W
  unfolding remove insert_used
  touch slot m = insert_used slot (remove slot m)

  unfoldable pub init_page_info : ℕ → ℕ → ℕ → BufferManager D W → BufferManager D W
  init_page_info fd page slot m = record m {
    pool =
        update m.pool slot (record (m.pool slot) { dirty = false; fd = fd; page = page; pin = 1 });
  }

  -- hash_table_->insert, hash_table_->remove
  unfoldable pub map_page : ℕ → ℕ → ℕ → BufferManager D W → BufferManager D W
  map_page fd page slot m = record m { table = HashTable.insert m.table fd page slot }

  pub unmap_page : ℕ → ℕ → BufferManager D W → BufferManager D W
  unmap_page fd page m = record m { table = HashTable.remove m.table fd page }

  pub set_dirty : ℕ → Bool → BufferManager D W → BufferManager D W
  set_dirty slot b m = record m { pool = update m.pool slot (record (m.pool slot) { dirty = b }) }

  pub set_pin : ℕ → ℕ → BufferManager D W → BufferManager D W
  set_pin slot n m = record m { pool = update m.pool slot (record (m.pool slot) { pin = n }) }

  -- A client writes through the pointer that it got.
  pub store : ℕ → D → BufferManager D W → BufferManager D W
  store slot d m = record m { pool = update m.pool slot (record (m.pool slot) { contents = d }) }

  module _ (os : Unix D W) where
    -- lseek, read and the tests on their results, into the buffer of `slot`
    unfoldable pub read_page : ℕ → ℕ → ℕ → M (BufferManager D W) (Unit {0})
    read_page fd page slot m = elim (os.lseek fd (offset m.buffer_size (pos page)) m.world).0 [
      | negsuc _ ↦
          exception (record m { world = (os.lseek fd (offset m.buffer_size (pos page)) m.world).1 })
      | pos _ ↦
          let r =
            os.read fd m.buffer_size (m.pool slot).contents
              (os.lseek fd (offset m.buffer_size (pos page)) m.world).1 in
          let m' = record m {
            pool = update m.pool slot (record (m.pool slot) { contents = r.1 });
            world = r.2;
          } in
          if int_eq r.0 (pos m.buffer_size) then ok tt m' else exception m'
    ]

    pub write_page : ℕ → ℤ → D → M (BufferManager D W) (Unit {0})
    write_page fd page src m = elim (os.lseek fd (offset m.buffer_size page) m.world).0 [
      | negsuc _ ↦
          exception (record m { world = (os.lseek fd (offset m.buffer_size page) m.world).1 })
      | pos _ ↦
          let r =
            os.write fd src m.buffer_size (os.lseek fd (offset m.buffer_size page) m.world).1 in
          if int_eq r.0 (pos m.buffer_size)
          then ok tt (record m { world = r.1 })
          else exception (record m { world = r.1 })
    ]

    -- if (dirty) write_page(fd, page, data)
    pub write_back : ℕ → M (BufferManager D W) (Unit {0})
    write_back slot m =
        if (m.pool slot).dirty
        then write_page (m.pool slot).fd (pos (m.pool slot).page) (m.pool slot).contents m
        else ok tt m

    -- The second half of internal_alloc: the slot is taken from its page.
    pub evict : ℕ → M (BufferManager D W) ℕ
    unfolding unmap_page touch
    evict slot m =
        (do
          write_back slot
          modify (unmap_page (m.pool slot).fd (m.pool slot).page)
          modify (touch slot)
          pure slot)
          m

    unfoldable pub internal_alloc : M (BufferManager D W) ℕ
    unfolding insert_used
    internal_alloc m = elim m.free_list [
      | slot ∷ rest ↦ ok slot (insert_used slot (record m { free_list = rest }))
      | [] ↦ elim (first_unpinned m.pool (reverse m.used_list)) [
        | none ↦ exception m
        | some slot ↦ evict slot m
      ]
    ]

    unfoldable pub get_page : ℕ → ℕ → Bool → M (BufferManager D W) ℕ
    unfolding map_page init_page_info set_pin touch
    get_page fd page multiple_pins m = elim (HashTable.find m.table fd page) [
      | none ↦
          (do
            slot ← internal_alloc
            read_page fd page slot
            modify (map_page fd page slot)
            modify (init_page_info fd page slot)
            pure slot)
            m
      | some slot ↦
          (do
            refuse (not multiple_pins && ltb 0 (m.pool slot).pin)
            modify (set_pin slot ((m.pool slot).pin + 1))
            modify (touch slot)
            pure slot)
            m
    ]

    -- `none` is the null pointer.
    pub allocate_page : ℕ → ℕ → M (BufferManager D W) (Option ℕ)
    unfolding map_page init_page_info
    allocate_page fd page m = elim (HashTable.find m.table fd page) [
      | some _ ↦ ok none m
      | none ↦
          (do
            slot ← internal_alloc
            modify (map_page fd page slot)
            modify (init_page_info fd page slot)
            pure (some slot))
            m
    ]

    -- One round of force_page; `page` may be ALL_PAGES, -1, and is what write_page is given.
    pub force_slot : ℕ → ℤ → ℕ → M (BufferManager D W) (Unit {0})
    unfolding set_dirty
    force_slot fd page i m =
        if (m.pool i).fd == fd
          && (int_eq (pos (m.pool i).page) page || int_eq page (negsuc 0))
          && (m.pool i).dirty
        then (do write_page fd page (m.pool i).contents; modify (set_dirty i false)) m
        else ok tt m

    pub force_slots : ℕ → ℤ → List ℕ → M (BufferManager D W) (Unit {0})
    force_slots fd page [] = pure tt
    force_slots fd page (i ∷ is) = force_slot fd page i >> force_slots fd page is

    pub force_page : ℕ → ℤ → M (BufferManager D W) (Unit {0})
    force_page fd page m = force_slots fd page m.used_list m

    -- One round of flush_pages.
    pub flush_slot : ℕ → ℕ → M (BufferManager D W) (Unit {0})
    unfolding set_dirty unmap_page remove insert_free
    flush_slot fd i m =
        if (m.pool i).fd == fd
        then (do
          refuse (ltb 0 (m.pool i).pin)
          write_back i
          modify (set_dirty i false)
          modify (unmap_page (m.pool i).fd (m.pool i).page)
          modify (remove i)
          modify (insert_free i))
            m
        else ok tt m

    -- The rounds i, i + 1, ... of the loop, `n` of them.
    pub flush_slots : ℕ → ℕ → ℕ → M (BufferManager D W) (Unit {0})
    flush_slots fd i zero = pure tt
    flush_slots fd i (suc n) = flush_slot fd i >> flush_slots fd (i + 1) n

    pub flush_pages : ℕ → M (BufferManager D W) (Unit {0})
    flush_pages fd m = flush_slots fd 0 m.pool_size m

  pub mark_dirty : ℕ → ℕ → M (BufferManager D W) (Unit {0})
  unfolding set_dirty touch
  mark_dirty fd page m = elim (HashTable.find m.table fd page) [
    | none ↦ exception m
    | some slot ↦ ok tt (touch slot (set_dirty slot true m))
  ]

  pub unpin_page : ℕ → ℕ → M (BufferManager D W) (Unit {0})
  unfolding set_pin touch
  unpin_page fd page m = elim (HashTable.find m.table fd page) [
    | none ↦ exception m
    | some slot ↦
        if (m.pool slot).pin == 0
        then exception m
        else (let m' = set_pin slot ((m.pool slot).pin - 1) m in
            if (m'.pool slot).pin == 0 then ok tt (touch slot m') else ok tt m')
  ]
