-- ===== src/Io/FileHandle/FreeChain.antt =====
-- The list of free pages in a file, and what its clients see of the pages.
use alphadb.Prelude.{
  ℕ, ◌≤◌, ◌<◌, ◌≡◌, true, false, ◌&&◌, not, List, [], ◌∷◌, none, arith, ltb, count,
}
use alphadb.Prelude.Int.{ℤ, pos}
use alphadb.Io.HashTable
use alphadb.Io.Result.{ok}
use alphadb.Io.BufferManager
use alphadb.Io.BufferManager.{BufferManager}
use alphadb.Io.BufferManager.Invariant.{IsPool, IsClean, view}
use alphadb.Io.FileHandle.{Page, FileHandle, page_list_end, page_used, call, mark_dirty, unpin_page}

-- The pages `ps` are linked in this order from `first`, each below `n` and none twice.
abbrev pub FreeChain : (ℕ → Page) → ℕ → ℤ → List ℕ → Type 0
FreeChain v n first [] = first ≡ page_list_end
FreeChain v n first (p ∷ ps) =
    (first ≡ pos p) × (p < n) × (count p ps ≡ 0) × FreeChain v n (v p).next_free ps

-- Only the headers of the listed pages matter.
pub FreeChain-frame :
    (v v' : ℕ → Page) (n n' : ℕ) (first : ℤ) (ps : List ℕ)
    → n ≤ n'
    → ((p : ℕ) → 1 ≤ count p ps → v' p ≡ v p)
    → FreeChain v n first ps
    → FreeChain v' n' first ps
unfolding count
FreeChain-frame v v' n n' first [] le same c = c
FreeChain-frame v v' n n' first (p ∷ ps) le same (start, below, once, rest) =
    let here : v' p ≡ v p = same p (ground arith) in
    (
      start,
      omega arith,
      once,
      rw here (FreeChain-frame v v' n n' (v p).next_free ps le (λ q h. same q (ground arith)) rest),
    )

module _ {W : Type 0} (block : W → ℕ → ℕ → Page) where
  -- The pages of the file, as its clients see them.
  abbrev pub page_at : FileHandle W → ℕ → Page
  page_at h = view block h.manager h.fd

  -- An open file whose free pages are `ps`: they are linked from the header, and every other page
  -- is marked as used.
  pub record IsFile (ps : List ℕ) (h : FileHandle W) : Type 0 where
    pub pool : IsPool h.manager
    pub clean : IsClean block h.manager
    pub opened : h.file_is_open ≡ true
    -- No page behind the last one is in the pool.
    pub bounded : (p : ℕ) → h.header.page_num ≤ p → HashTable.find h.manager.table h.fd p ≡ none
    pub chain : FreeChain (page_at h) h.header.page_num h.header.first_free ps
    pub in_use :
        (p : ℕ) → p < h.header.page_num → count p ps ≡ 0 → (page_at h p).next_free ≡ page_used

  pub mark_dirty-ok :
      (p : ℕ) (h : FileHandle W) {m : BufferManager Page W}
      → h.file_is_open ≡ true
      → p < h.header.page_num
      → BufferManager.mark_dirty h.fd p h.manager ≡ ok tt m
      → mark_dirty (pos p) h ≡ ok tt (record h { manager = m })
  unfolding mark_dirty
  mark_dirty-ok p h opened below run =
      let fine : not (h.file_is_open && ltb p h.header.page_num) ≡ false = ground arith in
      rw (fine, mark_dirty, call, run)

  pub unpin_page-ok :
      (p : ℕ) (h : FileHandle W) {m : BufferManager Page W}
      → h.file_is_open ≡ true
      → p < h.header.page_num
      → BufferManager.unpin_page h.fd p h.manager ≡ ok tt m
      → unpin_page (pos p) h ≡ ok tt (record h { manager = m })
  unfolding unpin_page
  unpin_page-ok p h opened below run =
      let fine : not (h.file_is_open && ltb p h.header.page_num) ≡ false = ground arith in
      rw (fine, unpin_page, call, run)
