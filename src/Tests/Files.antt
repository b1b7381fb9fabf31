-- ===== src/Tests/Files.antt =====
-- The page file theorems at a file of two pages, of which page 0 is free, and at an empty file.
use alphadb.Prelude.{ℕ, ◌≡◌, refl, ◌⊎◌, true, false, [], ◌∷◌, arith, ◌==◌, if◌then◌else◌, count}
use alphadb.Prelude.Int.{pos}
use alphadb.Io.Result.{ok, exception}
use alphadb.Io.Unix.{IsUnix}
use alphadb.Io.BufferManager
use alphadb.Io.BufferManager.{BufferManager, BufferEntry}
use alphadb.Io.BufferManager.New.{Built, new-Built}
use alphadb.Io.FileHandle.{Page, FileHandle, page_list_end, page_used, allocate_page, dispose_page}
use alphadb.Io.FileHandle.FreeChain.{IsFile, page_at}
use alphadb.Io.FileHandle.FreeList.{Allocates, allocate_page-free}
use alphadb.Io.FileHandle.Dispose.{Disposed, dispose_page-Disposed}
use alphadb.Tests.Kernel.{Kernel, block, memory, memory-IsUnix}

abbrev free_page : Page
free_page = record { next_free = page_list_end; body = [] }

abbrev used_page : Page
used_page = record { next_free = page_used; body = 5 ∷ [] }

-- Page 0 of a file is at 4096.
abbrev disk : Kernel Page
disk = record { cursor = 0; files = λ f o. if o == 4096 then free_page else used_page }

abbrev raw_entry : ℕ → BufferEntry Page
raw_entry i = record { dirty = true; fd = 9; page = i; contents = used_page; pin = 0 }

abbrev pool : BufferManager Page (Kernel Page)
pool = BufferManager.new 2 4096 raw_entry free_page disk

pool-Built : Built block 2 4096 raw_entry free_page disk pool
pool-Built = new-Built block 2 4096 raw_entry free_page disk

abbrev two_pages : FileHandle (Kernel Page)
two_pages = record {
  fd = 3;
  header = record { first_free = pos 0; page_num = 2 };
  file_is_open = true;
  header_changed = false;
  manager = pool;
}

abbrev no_pages : FileHandle (Kernel Page)
no_pages = record {
  fd = 3;
  header = record { first_free = page_list_end; page_num = 0 };
  file_is_open = true;
  header_changed = false;
  manager = pool;
}

kernel-IsUnix : IsUnix (memory {D = Page}) pool.buffer_size block
unfolding BufferManager.new
kernel-IsUnix = memory-IsUnix 4096 (omega arith)

no_pages-IsFile : IsFile block [] no_pages
no_pages-IsFile = record {
  pool = pool-Built.pool;
  clean = pool-Built.clean;
  opened = refl;
  bounded = λ p h. pool-Built.empty 3 p;
  chain = refl;
  in_use = λ p h k. absurd (omega (arith, h));
}

two_pages-IsFile : IsFile block (0 ∷ []) two_pages
unfolding count
two_pages-IsFile = record {
  pool = pool-Built.pool;
  clean = pool-Built.clean;
  opened = refl;
  bounded = λ p h. pool-Built.empty 3 p;
  chain = (refl, omega arith, refl, ground (arith, pool-Built.reads 3 0));
  in_use = λ p h k. ground (arith, pool-Built.reads 3 p);
}

allocate_page-free_example :
    Allocates block memory two_pages kernel-IsUnix [] 0 (allocate_page memory two_pages)
allocate_page-free_example =
    allocate_page-free block memory two_pages kernel-IsUnix 0 [] two_pages-IsFile

dispose_page-Disposed_example :
    ((h' : FileHandle (Kernel Page)) × (dispose_page memory (pos 1) two_pages ≡ ok tt h')
      × Disposed block memory two_pages kernel-IsUnix (0 ∷ []) two_pages-IsFile 1 (omega arith) h')
    ⊎ ((h' : FileHandle (Kernel Page)) × (dispose_page memory (pos 1) two_pages ≡ exception h')
        × ((q : ℕ) → page_at block h' q ≡ page_at block two_pages q))
unfolding count
dispose_page-Disposed_example =
    dispose_page-Disposed block memory two_pages kernel-IsUnix (0 ∷ []) two_pages-IsFile 1
      (omega arith) refl
