-- ===== src/Io/FileHandle/Dispose.antt =====
-- dispose_page, of a used page and of a free one.
use alphadb.Prelude.{
  ℕ, ◌≤◌, ◌<◌, ◌≡◌, refl, ◌⊎◌, inl, inr, true, false, ◌&&◌, not, List, [], ◌∷◌, some, arith, ltb,
  ◌==◌, if◌then◌else◌, count, Bool-cases, ◌∙◌, ap, sym, subst, ◌≢◌,
}
use alphadb.Prelude.Int.{ℤ, pos, int_eq, int_eq_iff}
use alphadb.Io.HashTable
use alphadb.Io.Result.{ok, exception, ◌>>=◌}
use alphadb.Io.Unix.{Unix, IsUnix}
use alphadb.Io.BufferManager
use alphadb.Io.BufferManager.{BufferManager}
use alphadb.Io.BufferManager.Invariant.{IsPool, IsClean, view}
use alphadb.Io.BufferManager.GetPage.{get_page-Gets}
use alphadb.Io.BufferManager.Update.{mark_dirty-store, unpin_page-Unpinned}
use alphadb.Io.FileHandle.FreeChain.{
  FreeChain, FreeChain-frame, page_at, IsFile, mark_dirty-ok, unpin_page-ok,
}
use alphadb.Io.FileHandle.{
  Page, FileHandle, page_used, call, store_page, set_first_free, give_back, dispose_page,
}

module _ {W : Type 0} (block : W → ℕ → ℕ → Page) where
  linked : Page → ℤ → Page
  linked d z = record d { next_free = z }

  -- A pinned page is marked, linked and unpinned.
  module _ (g : FileHandle W) (p slot : ℕ) (ip : IsPool g.manager) (ic : IsClean block g.manager)
      (at : HashTable.find g.manager.table g.fd p ≡ some slot)
      (pinned : 1 ≤ (g.manager.pool slot).pin) (opened : g.file_is_open ≡ true)
      (below : p < g.header.page_num) where
    link : Page
    link = linked (g.manager.pool slot).contents g.header.first_free

    record GivenBack (m : BufferManager Page W) : Type 0 where
      pool : IsPool m
      clean : IsClean block m
      table : m.table ≡ g.manager.table
      reads :
          (f q : ℕ)
          → view block m f q ≡ (if (g.fd == f && p == q) then link else view block g.manager f q)

    give_back-ok :
        (m : BufferManager Page W) × (give_back p slot g
          ≡ ok tt (set_first_free (pos p) (record g { manager = m })))
        × GivenBack m
    unfolding give_back link linked
    give_back-ok =
        let (m, run, w) =
          mark_dirty-store block g.manager g.fd p slot ip at link
            (record { clean = λ t a b d. ground (arith, ic.clean t, ip.slots t) }) in
        let at' : HashTable.find m.table g.fd p ≡ some slot = ground (arith, w.table, at) in
        let marked = set_first_free (pos p) (store_page slot link g) in
        elim (unpin_page-Unpinned block m g.fd p slot w.pool at' w.clean) [
          | inr (run', none_left) ↦ absurd (ground (arith, w.pins slot))
          | inl (m', run', u) ↦ (
            m',
            rw (mark_dirty-ok block p marked opened below run, ◌>>=◌)
                (unpin_page-ok block p (record marked { manager = m }) opened below run'),
            record {
              pool = u.pool;
              clean = u.clean;
              table = u.table ∙ w.table;
              reads = λ f q. u.same f q ∙ w.reads f q;
            },
          )
        ]

FreeChain-first :
    (v : ℕ → Page) (n : ℕ) (first : ℤ) (ps : List ℕ) → FreeChain v n first ps → first ≢ page_used
FreeChain-first v n first [] c = ground arith
FreeChain-first v n first (p ∷ ps) c = ground (arith, c.0)

FreeChain-next :
    (v : ℕ → Page) (n : ℕ) (first : ℤ) (ps : List ℕ) (p : ℕ)
    → FreeChain v n first ps
    → 1 ≤ count p ps
    → (v p).next_free ≢ page_used
unfolding count
FreeChain-next v n first [] p c h = absurd (omega arith)
FreeChain-next v n first (q ∷ ps) p c h = elim (Bool-cases (p == q)) [
  | inl here ↦ let e : p ≡ q = ground arith in rw e (FreeChain-first v n (v q).next_free ps c.3)
  | inr there ↦ FreeChain-next v n (v q).next_free ps p c.3 (ground arith)
]

module _ {W : Type 0} (block : W → ℕ → ℕ → Page) (os : Unix Page W) (h : FileHandle W)
    (unix : IsUnix os h.manager.buffer_size block) (ps : List ℕ) (v : IsFile block ps h) (p : ℕ)
    (below : p < h.header.page_num) where
  -- The page is the first free one now; its bytes and every other page stay as they were.
  pub record Disposed (h' : FileHandle W) : Type 0 where
    pub file : IsFile block (p ∷ ps) h'
    pub body : (page_at block h' p).body ≡ (page_at block h p).body
    pub others : (q : ℕ) → (p == q) ≡ false → page_at block h' q ≡ page_at block h q

  valid : not (h.file_is_open && ltb p h.header.page_num) ≡ false
  valid = ground (arith, v.opened)

  served :
      (slot : ℕ) (m : BufferManager Page W)
      → BufferManager.get_page os h.fd p false h.manager ≡ ok slot m
      → int_eq (m.pool slot).contents.next_free page_used ≡ true
      → dispose_page os (pos p) h ≡ give_back p slot (record h { manager = m })
  unfolding dispose_page
  served slot m run used = rw (valid, dispose_page, ◌>>=◌, call, run, used)

  -- In an open file, dispose_page of a page that is not in the list of free pages puts it in front
  -- of that list, keeps its bytes and every other page, or throws and changes no page.
  pub dispose_page-Disposed :
      count p ps ≡ 0
      → ((h' : FileHandle W) × (dispose_page os (pos p) h ≡ ok tt h') × Disposed h')
        ⊎ ((h' : FileHandle W) × (dispose_page os (pos p) h ≡ exception h')
            × ((q : ℕ) → page_at block h' q ≡ page_at block h q))
  unfolding dispose_page set_first_free link linked count
  dispose_page-Disposed fresh =
      elim (get_page-Gets block h.manager h.fd p v.pool v.clean os false unix) [
        | inr (m, run, same) ↦
            inr (
              record h { manager = m },
              rw (valid, dispose_page, ◌>>=◌, call, run),
              λ q. same h.fd q,
            )
        | inl (slot, m, run, s) ↦
            let g : FileHandle W = record h { manager = m } in
            let used : int_eq (m.pool slot).contents.next_free page_used ≡ true =
              (int_eq_iff _ _).1
                (ap (λ (d : Page). d.next_free) s.contents ∙ v.in_use p below fresh) in
            let (m', run', w) =
              give_back-ok block g p slot s.pool s.clean s.at s.pinned v.opened below in
            let g' : FileHandle W = set_first_free (pos p) (record g { manager = m' }) in
            let first : (page_at block g' p).next_free ≡ h.header.first_free =
              ground (arith, w.reads h.fd p) in
            let kept =
              FreeChain-frame (page_at block h) (page_at block g') h.header.page_num
                h.header.page_num h.header.first_free ps (omega arith)
                (λ q k. ground (arith, w.reads h.fd q, s.same h.fd q)) v.chain in
            inl (
              g',
              served slot m run used ∙ run',
              record {
                file = record {
                  pool = w.pool;
                  clean = w.clean;
                  opened = v.opened;
                  bounded = λ q k. ground (arith, w.table, s.absent h.fd q, v.bounded q);
                  chain = (
                    refl,
                    below,
                    fresh,
                    subst (λ z. FreeChain (page_at block g') h.header.page_num z ps) (sym first)
                        kept,
                  );
                  in_use = λ q k e. ground (arith, w.reads h.fd q, s.same h.fd q, v.in_use q);
                };
                body = ground (arith, w.reads h.fd p, s.contents);
                others = λ q k. ground (arith, w.reads h.fd q, s.same h.fd q);
              },
            )
      ]

  -- In an open file, dispose_page of a page that is in the list of free pages throws, and no page
  -- changes.
  pub dispose_page-free :
      1 ≤ count p ps
      → (h' : FileHandle W) × (dispose_page os (pos p) h ≡ exception h')
        × ((q : ℕ) → page_at block h' q ≡ page_at block h q)
  unfolding dispose_page
  dispose_page-free free =
      elim (get_page-Gets block h.manager h.fd p v.pool v.clean os false unix) [
        | inr (m, run, same) ↦
            (record h { manager = m }, rw (valid, dispose_page, ◌>>=◌, call, run), λ q. same h.fd q)
        | inl (slot, m, run, s) ↦
            let g : FileHandle W = record h { manager = m } in
            let idle : int_eq (m.pool slot).contents.next_free page_used ≡ false = ground (
              arith,
              FreeChain-next (page_at block h) h.header.page_num h.header.first_free ps p v.chain
                  free,
              int_eq_iff (m.pool slot).contents.next_free page_used,
              s.contents,
            ) in
            elim (unpin_page-Unpinned block m h.fd p slot s.pool s.at s.clean) [
              | inr (run', none_left) ↦ absurd (ground (arith, s.pinned))
              | inl (m', run', u) ↦ (
                record g { manager = m' },
                rw (
                  valid,
                  dispose_page,
                  ◌>>=◌,
                  call,
                  run,
                  idle,
                  unpin_page-ok block p g v.opened below run',
                ),
                λ q. u.same h.fd q ∙ s.same h.fd q,
              )
            ]
      ]
