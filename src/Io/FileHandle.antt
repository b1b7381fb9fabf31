-- ===== src/Io/FileHandle.antt =====
-- io/file_handle.h and io/file_handle.cc: a paged file over the buffer pool. The free pages form a
-- list that runs through the page headers and begins in the file header.
pub mod FreeChain
pub mod FreeList
pub mod Dispose
use alphadb.Prelude.{
  ℕ, zero, suc, ◌+◌, ◌-◌, Bool, true, false, ◌&&◌, not, List, [], ◌∷◌, Option, none, some, ltb,
  ◌==◌, if◌then◌else◌, replicate, ◌||◌,
}
use alphadb.Prelude.Int.{ℤ, pos, negsuc, int_eq}
use alphadb.Io.Result.{Out, M, ok, exception, crash, pure, throw, ◌>>=◌, ◌>>◌, modify, gets, refuse}
use alphadb.Io.Unix.{Unix}
use alphadb.Io.BufferManager
use alphadb.Io.BufferManager.{BufferManager}

-- A page buffer: struct page_header and the bytes behind it.
pub record Page : Type 0 where
  pub next_free : ℤ
  pub body : List ℕ

-- struct file_header
pub record FileHeader : Type 0 where
  pub first_free : ℤ
  pub page_num : ℕ

-- class file_handle, with the buffer manager that it points to
pub record FileHandle (W : Type 0) : Type 0 where
  pub fd : ℕ
  pub header : FileHeader
  pub file_is_open : Bool
  pub header_changed : Bool
  pub manager : BufferManager Page W

abbrev pub page_list_end : ℤ
page_list_end = negsuc 0

abbrev pub page_used : ℤ
page_used = negsuc 1

-- What memset leaves behind the page header: DEFAULT_PAGE_SIZE - sizeof(page_header) zeros.
unfoldable pub blank_body : List ℕ
blank_body = replicate 4092 0

module _ {W : Type 0} where
  -- A call of the buffer manager.
  abbrev pub call : {A : Type 0} → M (BufferManager Page W) A → M (FileHandle W) A
  call f h = elim (f h.manager) [
    | ok a m ↦ ok a (record h { manager = m })
    | exception m ↦ exception (record h { manager = m })
    | crash ↦ crash
  ]

  pub is_valid_page : FileHandle W → ℤ → Bool
  is_valid_page h (negsuc k) = false
  is_valid_page h (pos p) = ltb p h.header.page_num

  -- The page header behind the pointer to a slot, and a write of it.
  abbrev pub next_of : ℕ → FileHandle W → ℤ
  next_of slot h = (h.manager.pool slot).contents.next_free

  pub store_page : ℕ → Page → FileHandle W → FileHandle W
  store_page slot p h = record h { manager = BufferManager.store slot p h.manager }

  pub set_first_free : ℤ → FileHandle W → FileHandle W
  set_first_free z h = record h {
    header = record { first_free = z; page_num = h.header.page_num };
    header_changed = true;
  }

  pub mark_dirty : ℤ → M (FileHandle W) (Unit {0})
  unfolding is_valid_page
  mark_dirty (negsuc k) h = exception h
  mark_dirty (pos p) h =
      if not (h.file_is_open && is_valid_page h (pos p))
      then exception h
      else call (BufferManager.mark_dirty h.fd p) h

  pub unpin_page : ℤ → M (FileHandle W) (Unit {0})
  unfolding is_valid_page
  unpin_page (negsuc k) h = exception h
  unpin_page (pos p) h =
      if not (h.file_is_open && is_valid_page h (pos p))
      then exception h
      else call (BufferManager.unpin_page h.fd p) h

  -- The end of allocate_page: the page is marked as used, its bytes are cleared.
  pub hand_out : ℕ → ℕ → M (FileHandle W) (ℕ × ℕ)
  unfolding store_page
  hand_out p slot = do
    modify (store_page slot (record { next_free = page_used; body = blank_body }))
    mark_dirty (pos p)
    pure (p, slot)

  -- The end of dispose_page: the page becomes the first one of the free list.
  pub give_back : ℕ → ℕ → M (FileHandle W) (Unit {0})
  unfolding store_page set_first_free
  give_back p slot g =
      (do
        modify (
            store_page slot
              (record (g.manager.pool slot).contents { next_free = g.header.first_free }))
        modify (set_first_free (pos p))
        mark_dirty (pos p)
        unpin_page (pos p))
        g

  module _ (os : Unix Page W) where
    -- The page that is taken off the free list. For a negative number the hash table would be
    -- indexed before its array.
    pub take_free : ℤ → M (FileHandle W) (ℕ × ℕ)
    unfolding set_first_free
    take_free (negsuc k) h = crash
    take_free (pos p) h =
        (do
          slot ← call (BufferManager.get_page os h.fd p true)
          (λ g. ok (p, slot) (set_first_free (next_of slot g) g)))
          h

    -- The page that is added behind the last one; a null pointer is written through.
    pub take_new : M (FileHandle W) (ℕ × ℕ)
    take_new h =
        (do
          r ← call (BufferManager.allocate_page os h.fd h.header.page_num)
          elim r [
            | none ↦ λ g. crash
            | some slot ↦ λ g.
                ok (h.header.page_num, slot)
                  (record g {
                    header = record {
                      first_free = g.header.first_free;
                      page_num = g.header.page_num + 1;
                    };
                    header_changed = true;
                  })
          ])
          h

    -- if (header_.first_free != PAGE_LIST_END) ... else ...
    pub choose_page : ℤ → M (FileHandle W) (ℕ × ℕ)
    choose_page first h = if int_eq first page_list_end then take_new h else take_free first h

    -- file_handle::allocate_page: the page number, and the slot of its data.
    pub allocate_page : M (FileHandle W) (ℕ × ℕ)
    allocate_page h =
        if not h.file_is_open
        then exception h
        else ((do r ← choose_page h.header.first_free; hand_out r.0 r.1) h)

    -- file_handle::dispose_page
    pub dispose_page : ℤ → M (FileHandle W) (Unit {0})
    unfolding is_valid_page store_page set_first_free
    dispose_page (negsuc k) h = exception h
    dispose_page (pos p) h =
        if not (h.file_is_open && is_valid_page h (pos p))
        then exception h
        else ((do
          slot ← call (BufferManager.get_page os h.fd p false)
          (λ g.
              if int_eq (next_of slot g) page_used
              then give_back p slot g
              else (unpin_page (pos p) >> throw) g))
            h)

    -- file_handle::get_this_page: the slot of the page's data.
    pub get_this_page : ℤ → M (FileHandle W) ℕ
    unfolding is_valid_page
    get_this_page (negsuc k) h = exception h
    get_this_page (pos p) h =
        if not (h.file_is_open && is_valid_page h (pos p))
        then exception h
        else ((do
          slot ← call (BufferManager.get_page os h.fd p true)
          (λ g.
              if int_eq (next_of slot g) page_used
              then ok slot g
              else (unpin_page (pos p) >> throw) g))
            h)

    -- The loops of get_next_page and get_prev_page: an exception is swallowed and the next page
    -- tried. `n` is the number of pages left to try.
    pub scan_up : ℕ → ℕ → M (FileHandle W) (ℕ × ℕ)
    scan_up zero current h = exception h
    scan_up (suc n) current h = elim (get_this_page (pos current) h) [
      | ok slot g ↦ ok (current, slot) g
      | exception g ↦ scan_up n (current + 1) g
      | crash ↦ crash
    ]

    pub scan_down : ℕ → M (FileHandle W) (ℕ × ℕ)
    scan_down zero h = exception h
    scan_down (suc current) h = elim (get_this_page (pos current) h) [
      | ok slot g ↦ ok (current, slot) g
      | exception g ↦ scan_down current g
      | crash ↦ crash
    ]

    pub get_next_page : ℤ → M (FileHandle W) (ℕ × ℕ)
    unfolding is_valid_page
    get_next_page (pos p) h =
        if not (h.file_is_open && is_valid_page h (pos p))
        then exception h
        else scan_up (h.header.page_num - (p + 1)) (p + 1) h
    get_next_page (negsuc k) h =
        if not (h.file_is_open && k == 0) then exception h else scan_up h.header.page_num 0 h

    pub get_prev_page : ℤ → M (FileHandle W) (ℕ × ℕ)
    unfolding is_valid_page
    get_prev_page (negsuc k) h = exception h
    get_prev_page (pos p) h =
        if not (h.file_is_open && (p == h.header.page_num || is_valid_page h (pos p)))
        then exception h
        else scan_down p h

    pub get_first_page : M (FileHandle W) (ℕ × ℕ)
    get_first_page = get_next_page (negsuc 0)

    pub get_last_page : M (FileHandle W) (ℕ × ℕ)
    get_last_page h = get_prev_page (pos h.header.page_num) h

    -- The header is written where it has changed: lseek(fd_, 0), then write(fd_, &header_, 8).
    module _ (write_header : ℕ → FileHeader → W → ℤ × W) where
      pub save_header : M (FileHandle W) (Unit {0})
      save_header h =
          if not h.header_changed
          then ok tt h
          else (elim (os.lseek h.fd (pos 0) h.manager.world).0 [
            | negsuc _ ↦ exception (record h {
              manager = record (h.manager) { world = (os.lseek h.fd (pos 0) h.manager.world).1 };
            })
            | pos _ ↦
                let r = write_header h.fd h.header (os.lseek h.fd (pos 0) h.manager.world).1 in
                let g = record h { manager = record (h.manager) { world = r.1 } } in
                if int_eq r.0 (pos 8)
                then ok tt (record g { header_changed = false })
                else exception g
          ])

      pub flush_pages : M (FileHandle W) (Unit {0})
      flush_pages h =
          if not h.file_is_open
          then exception h
          else (save_header >> call (BufferManager.flush_pages os h.fd)) h

      pub force_page : ℤ → M (FileHandle W) (Unit {0})
      force_page page h =
          if not h.file_is_open
          then exception h
          else (save_header >> call (BufferManager.force_page os h.fd page)) h
