-- ===== src/Io/FileHandle/FreeList.antt =====
-- How allocate_page takes a page from the list of free pages, or a new one.
use alphadb.Prelude.{
  ℕ, ◌+◌, ◌<◌, ◌≡◌, ◌⊎◌, inl, inr, true, false, not, List, [], ◌∷◌, some, arith, ◌==◌, count, ◌∙◌,
  ap, sym, subst,
}
use alphadb.Prelude.Int.{pos}
use alphadb.Io.HashTable
use alphadb.Io.Result.{ok, exception, ◌>>=◌, Out}
use alphadb.Io.Unix.{Unix, IsUnix}
use alphadb.Io.BufferManager
use alphadb.Io.BufferManager.{BufferManager}
use alphadb.Io.BufferManager.Invariant.{IsPool, IsCleanBut}
use alphadb.Io.BufferManager.GetPage.{get_page-Gets, allocate_page-Allocates}
use alphadb.Io.BufferManager.Update.{Written, mark_dirty-store}
use alphadb.Io.FileHandle.{
  Page, FileHandle, page_list_end, page_used, blank_body, call, store_page, set_first_free,
  hand_out, take_free, take_new, choose_page, allocate_page,
}
use alphadb.Io.FileHandle.FreeChain.{FreeChain, FreeChain-frame, page_at, IsFile, mark_dirty-ok}

-- What allocate_page makes of a page.
abbrev pub blank : Page
blank = record { next_free = page_used; body = blank_body }

module _ {W : Type 0} (block : W → ℕ → ℕ → Page) where
  -- What allocate_page hands out: `p` is a used page with an empty body, and nothing else changed.
  pub record Allocated (h : FileHandle W) (p slot : ℕ) (rest : List ℕ) (h' : FileHandle W)
      : Type 0 where
    pub file : IsFile block rest h'
    pub data_at : HashTable.find h'.manager.table h'.fd p ≡ some slot
    pub contents : page_at block h' p ≡ blank
    pub others : (q : ℕ) → (p == q) ≡ false → page_at block h' q ≡ page_at block h q

  -- The page that was handed out: marked as used, blanked and marked dirty.
  module _ (g : FileHandle W) (p slot : ℕ) (ip : IsPool g.manager)
      (ic : IsCleanBut block slot g.manager)
      (at : HashTable.find g.manager.table g.fd p ≡ some slot) (opened : g.file_is_open ≡ true)
      (below : p < g.header.page_num) where
    hand_out-ok :
        (m : BufferManager Page W) × (hand_out p slot g ≡ ok (p, slot) (record g { manager = m }))
        × Written block g.manager g.fd p slot ip at blank m
    unfolding hand_out
    hand_out-ok =
        let (m, run, w) = mark_dirty-store block g.manager g.fd p slot ip at blank ic in
        (m, rw (mark_dirty-ok block p (store_page slot blank g) opened below run, ◌>>=◌), w)

  module _ (os : Unix Page W) (h : FileHandle W)
      (unix : IsUnix os h.manager.buffer_size block) where
    abbrev pub Allocates : List ℕ → ℕ → Out (FileHandle W) (ℕ × ℕ) → Type 0
    Allocates rest p r =
        ((slot : ℕ) × (h' : FileHandle W) × (r ≡ ok (p, slot) h') × Allocated h p slot rest h')
        ⊎ ((h' : FileHandle W) × (r ≡ exception h')
            × ((q : ℕ) → page_at block h' q ≡ page_at block h q))

    choose_page-ok :
        (p : ℕ) {slot : ℕ} {m : BufferManager Page W}
        → h.header.first_free ≡ pos p
        → BufferManager.get_page os h.fd p true h.manager ≡ ok slot m
        → choose_page os h.header.first_free h
          ≡ ok
              (p, slot)
              (set_first_free (m.pool slot).contents.next_free (record h { manager = m }))
    unfolding choose_page take_free
    choose_page-ok p start run =
        ap (λ z. choose_page os z h) start ∙ rw (choose_page, take_free, ◌>>=◌, call, run)

    choose_page-exception :
        (p : ℕ) {m : BufferManager Page W}
        → h.header.first_free ≡ pos p
        → BufferManager.get_page os h.fd p true h.manager ≡ exception m
        → choose_page os h.header.first_free h ≡ exception (record h { manager = m })
    unfolding choose_page take_free
    choose_page-exception p start run =
        ap (λ z. choose_page os z h) start ∙ rw (choose_page, take_free, ◌>>=◌, call, run)

    -- In an open file whose header starts a list of free pages, the file's allocate_page answers
    -- the first of them as a used page with zeroed bytes and leaves the rest as the list of free
    -- pages and every other page as it was, or throws and changes no page.
    pub allocate_page-free :
        (p : ℕ) (ps : List ℕ) → IsFile block (p ∷ ps) h → Allocates ps p (allocate_page os h)
    unfolding allocate_page set_first_free count
    allocate_page-free p ps v =
        let (start, below, once, rest) = v.chain in
        let is_open : not h.file_is_open ≡ false = ground (arith, v.opened) in
        elim (get_page-Gets block h.manager h.fd p v.pool v.clean os true unix) [
          | inr (m, run, same) ↦ inr (
            record h { manager = m },
            rw (is_open, allocate_page, choose_page-exception p start run, ◌>>=◌),
            λ q. same h.fd q,
          )
          | inl (slot, m, run, s) ↦
              let g = set_first_free (m.pool slot).contents.next_free (record h { manager = m }) in
              let (m', run', w) =
                hand_out-ok g p slot s.pool
                  (record { clean = λ t a b d. ground (arith, s.clean.clean t, s.pool.slots t) })
                  s.at v.opened below in
              let g' : FileHandle W = record g { manager = m' } in
              let kept =
                FreeChain-frame (page_at block h) (page_at block g') h.header.page_num
                  h.header.page_num (page_at block h p).next_free ps (omega arith)
                  (λ q k. ground (arith, w.reads h.fd q, s.same h.fd q)) rest in
              inl (
                slot,
                g',
                rw (is_open, allocate_page, choose_page-ok p start run, ◌>>=◌) run',
                record {
                  file = record {
                    pool = w.pool;
                    clean = w.clean;
                    opened = v.opened;
                    bounded = λ q k. ground (arith, w.table, s.absent h.fd q, v.bounded q);
                    chain =
                        subst (λ z. FreeChain (page_at block g') h.header.page_num z ps)
                          (sym (ap (λ (d : Page). d.next_free) s.contents)) kept;
                    in_use = λ q k n. ground (arith, w.reads h.fd q, s.same h.fd q, v.in_use q);
                  };
                  data_at = ground (arith, w.table, s.at);
                  contents = ground (arith, w.reads h.fd p);
                  others = λ q n. ground (arith, w.reads h.fd q, s.same h.fd q);
                },
              )
        ]

    choose_page-new :
        {slot : ℕ} {m : BufferManager Page W}
        → h.header.first_free ≡ page_list_end
        → BufferManager.allocate_page os h.fd h.header.page_num h.manager ≡ ok (some slot) m
        → choose_page os h.header.first_free h
          ≡ ok
              (h.header.page_num, slot)
              (record h {
                manager = m;
                header = record {
                  first_free = h.header.first_free;
                  page_num = h.header.page_num + 1;
                };
                header_changed = true;
              })
    unfolding choose_page take_new
    choose_page-new start run =
        ap (λ z. choose_page os z h) start ∙ rw (choose_page, take_new, ◌>>=◌, call, run)

    choose_page-new-exception :
        {m : BufferManager Page W}
        → h.header.first_free ≡ page_list_end
        → BufferManager.allocate_page os h.fd h.header.page_num h.manager ≡ exception m
        → choose_page os h.header.first_free h ≡ exception (record h { manager = m })
    unfolding choose_page take_new
    choose_page-new-exception start run =
        ap (λ z. choose_page os z h) start ∙ rw (choose_page, take_new, ◌>>=◌, call, run)

    -- In an open file with no free page, the file's allocate_page adds a used page with zeroed
    -- bytes behind the last page and leaves every other page as it was, or throws and changes no
    -- page.
    pub allocate_page-new : IsFile block [] h → Allocates [] h.header.page_num (allocate_page os h)
    unfolding allocate_page count
    allocate_page-new v =
        let n = h.header.page_num in
        let is_open : not h.file_is_open ≡ false = ground (arith, v.opened) in
        elim (allocate_page-Allocates block h.manager h.fd n os v.pool v.clean unix) [
          | inl (run, (s, e)) ↦ absurd (ground (arith, v.bounded n))
          | inr (inr (m, run, same)) ↦ inr (
            record h { manager = m },
            rw (is_open, allocate_page, choose_page-new-exception v.chain run, ◌>>=◌),
            λ q. same h.fd q,
          )
          | inr (inl (slot, m, run, s)) ↦
              let g : FileHandle W = record h {
                manager = m;
                header = record { first_free = h.header.first_free; page_num = n + 1 };
                header_changed = true;
              } in
              let (m', run', w) = hand_out-ok g n slot s.pool s.clean s.at v.opened (omega arith) in
              let g' : FileHandle W = record g { manager = m' } in
              inl (
                slot,
                g',
                rw (is_open, allocate_page, choose_page-new v.chain run, ◌>>=◌) run',
                record {
                  file = record {
                    pool = w.pool;
                    clean = w.clean;
                    opened = v.opened;
                    bounded = λ q k. ground (arith, w.table, s.absent h.fd q, v.bounded q);
                    chain = v.chain;
                    in_use = λ q k e. ground (arith, w.reads h.fd q, s.others h.fd q, v.in_use q);
                  };
                  data_at = ground (arith, w.table, s.at);
                  contents = ground (arith, w.reads h.fd n);
                  others = λ q k. ground (arith, w.reads h.fd q, s.others h.fd q);
                },
              )
        ]
