-- ===== src/Tests/Pool.antt =====
-- The pool theorems at pools of two buffers.
use alphadb.Prelude.{
  ◌+◌, ℕ, ◌+◌, ◌*◌, subst, ◌≡◌, refl, ◌⊎◌, inl, inr, true, false, ◌&&◌, [], ◌∷◌, none, some, arith,
  ◌==◌, if◌then◌else◌,
}
use alphadb.Prelude.Int.{pos}
use alphadb.Io.Result.{Out, ok, exception, crash}
use alphadb.Io.Unix.{IsUnix}
use alphadb.Io.HashTable
use alphadb.Io.HashTable.{HashTable, HashEntry}
use alphadb.Io.HashTable.Laws.{find-new, new-IsTable, find-insert, insert-IsTable, find-remove}
use alphadb.Io.BufferManager
use alphadb.Io.BufferManager.{BufferManager, BufferEntry}
use alphadb.Io.BufferManager.Invariant.{IsCleanBut, SameView}
use alphadb.Io.BufferManager.New.{Built, new-Built}
use alphadb.Io.BufferManager.GetPage.{
  Gets, Serves, get_page-Gets, Allocates, allocate_page-Allocates,
}
use alphadb.Io.BufferManager.Update.{Written, mark_dirty-store}
use alphadb.Io.BufferManager.Flush.{NoStale, Flushed, flush_pages-Flushed}
use alphadb.Io.BufferManager.Force.{Forced, force_page-Forced}
use alphadb.Tests.Kernel.{Kernel, block, memory, memory-IsUnix}

-- A block holds one number here; the memory that the pool gets is full of keys of descriptor 9.
abbrev entry_of : ℕ → ℕ → BufferEntry ℕ
entry_of fd page = record { dirty = false; fd = fd; page = page; contents = 0; pin = 0 }

abbrev disk : Kernel ℕ
disk = record { cursor = 0; files = λ f o. 100 * f + o }

abbrev fresh_pool : BufferManager ℕ (Kernel ℕ)
fresh_pool = BufferManager.new 2 4096 (λ i. entry_of 9 i) 0 disk

abbrev stale_pool : BufferManager ℕ (Kernel ℕ)
stale_pool = BufferManager.new 2 4096 (λ i. entry_of 3 i) 0 disk

abbrev state_of : {S A : Type 0} → Out S A → S → S
state_of (ok a s) t = s
state_of (exception s) t = s
state_of crash t = t

kernel-IsUnix : IsUnix (memory {D = ℕ}) fresh_pool.buffer_size block
unfolding BufferManager.new
kernel-IsUnix = memory-IsUnix 4096 (omega arith)

fresh-Built : Built block 2 4096 (λ i. entry_of 9 i) 0 disk fresh_pool
fresh-Built = new-Built block 2 4096 (λ i. entry_of 9 i) 0 disk

find-insert_example :
    HashTable.find (HashTable.insert (HashTable.new 20) 3 7 1) 4 6
    ≡ (if (3 == 4 && 7 == 6) then some 1 else HashTable.find (HashTable.new 20) 4 6)
find-insert_example = find-insert (HashTable.new 20) 3 7 1 4 6 (find-new 20 3 7)

abbrev two_keys : HashTable
two_keys = HashTable.insert (HashTable.insert (HashTable.new 20) 3 7 1) 4 6 0

find-remove_example :
    HashTable.find (HashTable.remove two_keys 3 7) 4 6
    ≡ (if (3 == 4 && 7 == 6) then none else HashTable.find two_keys 4 6)
find-remove_example = find-remove two_keys 3 7 4 6 (
    insert-IsTable (HashTable.insert (HashTable.new 20) 3 7 1) 4 6 0
      (insert-IsTable (HashTable.new 20) 3 7 1 (new-IsTable 20)))

get_page-Gets_example :
    Gets block fresh_pool 3 0 (BufferManager.get_page memory 3 0 true fresh_pool)
get_page-Gets_example =
    get_page-Gets block fresh_pool 3 0 fresh-Built.pool fresh-Built.clean memory true kernel-IsUnix

allocate_page-Allocates_example :
    Allocates block fresh_pool 3 0 (BufferManager.allocate_page memory 3 0 fresh_pool)
allocate_page-Allocates_example =
    allocate_page-Allocates block fresh_pool 3 0 memory fresh-Built.pool fresh-Built.clean
      kernel-IsUnix

-- The pool that holds page 0 of descriptor 3.
abbrev pool_of_one : BufferManager ℕ (Kernel ℕ)
pool_of_one = state_of (BufferManager.get_page memory 3 0 true fresh_pool) fresh_pool

get_page-runs : BufferManager.get_page memory 3 0 true fresh_pool ≡ ok 0 pool_of_one
unfolding BufferManager.get_page BufferManager.internal_alloc BufferManager.read_page
    BufferManager.insert_used BufferManager.map_page BufferManager.init_page_info BufferManager.new
    BufferManager.slots_from HashTable.find HashTable.new
get_page-runs = refl

served :
    (slot : ℕ) (m : BufferManager ℕ (Kernel ℕ)) (r : Out (BufferManager ℕ (Kernel ℕ)) ℕ)
    → r ≡ ok slot m
    → Gets block fresh_pool 3 0 r
    → Serves block fresh_pool 3 0 slot m
served slot m r e (inl (slot', m', e', s)) =
    let same_slot : slot' ≡ slot = ground arith in
    let same_pool : m' ≡ m = ground arith in
    subst (λ x. Serves block fresh_pool 3 0 x m) same_slot
      (subst (λ n. Serves block fresh_pool 3 0 slot' n) same_pool s)
served slot m r e (inr (m', e', same)) = absurd (ground arith)

one-Serves : Serves block fresh_pool 3 0 0 pool_of_one
one-Serves =
    served 0 pool_of_one (BufferManager.get_page memory 3 0 true fresh_pool) get_page-runs
      get_page-Gets_example

one-clean : IsCleanBut block 0 pool_of_one
one-clean = record {
  clean = λ s h n e. one-Serves.clean.clean s h (ground (arith, one-Serves.pool.slots s)) e;
}

mark_dirty-store_example :
    (m' : BufferManager ℕ (Kernel ℕ)) × (BufferManager.mark_dirty 3 0
        (BufferManager.store 0 7 pool_of_one)
      ≡ ok tt m')
    × Written block pool_of_one 3 0 0 one-Serves.pool one-Serves.at 7 m'
mark_dirty-store_example =
    mark_dirty-store block pool_of_one 3 0 0 one-Serves.pool one-Serves.at 7 one-clean

-- Page 0 changed and no longer pinned.
abbrev changed_pool : BufferManager ℕ (Kernel ℕ)
changed_pool = mark_dirty-store_example.0

changed-Written : Written block pool_of_one 3 0 0 one-Serves.pool one-Serves.at 7 changed_pool
changed-Written = mark_dirty-store_example.2

one-size : pool_of_one.buffer_size ≡ 4096
unfolding BufferManager.new BufferManager.get_page BufferManager.internal_alloc
    BufferManager.read_page BufferManager.insert_used BufferManager.map_page
    BufferManager.init_page_info BufferManager.slots_from HashTable.find HashTable.new
one-size = refl

changed-IsUnix : IsUnix (memory {D = ℕ}) changed_pool.buffer_size block
changed-IsUnix =
    memory-IsUnix changed_pool.buffer_size (omega (arith, changed-Written.sizes.1, one-size))

force_page-Forced_example :
    ((m' : BufferManager ℕ (Kernel ℕ)) × (BufferManager.force_page memory 3 (pos 0) changed_pool
        ≡ ok tt m')
      × Forced block 3 0 changed_pool memory changed-IsUnix m')
    ⊎ ((m' : BufferManager ℕ (Kernel ℕ)) × (BufferManager.force_page memory 3 (pos 0) changed_pool
          ≡ exception m')
        × SameView block changed_pool m')
force_page-Forced_example =
    force_page-Forced block 3 0 changed_pool memory changed-IsUnix changed-Written.pool
      changed-Written.clean

nothing_stale : NoStale block 3 fresh_pool
unfolding BufferManager.new
nothing_stale s free e = ground arith

flush_pages-Flushed_example :
    ((m' : BufferManager ℕ (Kernel ℕ)) × (BufferManager.flush_pages memory 3 fresh_pool ≡ ok tt m')
      × Flushed block 3 memory fresh_pool kernel-IsUnix m')
    ⊎ ((m' : BufferManager ℕ (Kernel ℕ)) × (BufferManager.flush_pages memory 3 fresh_pool
          ≡ exception m')
        × SameView block fresh_pool m')
flush_pages-Flushed_example =
    flush_pages-Flushed block 3 memory fresh_pool kernel-IsUnix fresh-Built.pool fresh-Built.clean
      nothing_stale

-- Page 5 of descriptor 3 in slot 0, changed.
abbrev dirty_pool : BufferManager ℕ (Kernel ℕ)
dirty_pool = record {
  pool_size = 1;
  buffer_size = 4096;
  table = HashTable.insert (HashTable.new 20) 3 5 0;
  pool = λ i. record { dirty = true; fd = 3; page = 5; contents = 77; pin = 0 };
  free_list = [];
  used_list = 0 ∷ [];
  world = disk;
}
