-- ===== src/Io/BufferManager/GetPage.antt =====
-- get_page and allocate_page of the pool.
use alphadb.Prelude.{
  ℕ, ◌+◌, ◌≤◌, ◌≡◌, refl, ◌⊎◌, inl, inr, Bool, false, ◌&&◌, not, List, ◌∷◌, Option, none, some,
  arith, ltb, ◌==◌, count, erase, count-erase, update, Bool-cases, Option-cases, ◌∙◌,
}
use alphadb.Io.HashTable
use alphadb.Io.Result.{ok, exception, ◌>>=◌, Out}
use alphadb.Io.Unix.{Unix, IsUnix}
use alphadb.Io.BufferManager.Disk.{place, read_page-Reads, SameDisk}
use alphadb.Io.BufferManager.Invariant.{IsPool, IsCleanBut, IsClean, view, SameView}
use alphadb.Io.BufferManager.Alloc.{taken, Vacates, internal_alloc-Allocs}
use alphadb.Io.BufferManager.{
  BufferManager, get_page, allocate_page, init_page_info, map_page, set_pin, touch,
}
use alphadb.Io.BufferManager.Fill.{
  install-IsPool, install-IsCleanBut, install-IsClean, install-view, install-absent, install-find,
  filled, filled-IsPoolBut, filled-IsCleanBut, filled-view,
}

pub count-touch :
    (slot s : ℕ) (used : List ℕ)
    → count slot used ≡ 1
    → count s (slot ∷ erase slot used) ≡ count s used
unfolding count
count-touch slot s used h = ground (arith, count-erase slot s used)

module _ {D W : Type 0} (block : W → ℕ → ℕ → D) (m : BufferManager D W) (fd page : ℕ) where
  -- The page is in `slot` of a well-formed pool, pinned, with the contents that it had; every page
  -- reads as before.
  pub record Serves (slot : ℕ) (m' : BufferManager D W) : Type 0 where
    pub pool : IsPool m'
    pub clean : IsClean block m'
    pub same : SameView block m m'
    pub at : HashTable.find m'.table fd page ≡ some slot
    pub contents : (m'.pool slot).contents ≡ view block m fd page
    pub absent :
        (f p : ℕ)
        → (fd == f && page == p) ≡ false
        → HashTable.find m.table f p ≡ none
        → HashTable.find m'.table f p ≡ none
    pub pinned : 1 ≤ (m'.pool slot).pin

  -- A call that returns has served the page, and one that throws has changed no page.
  abbrev pub Gets : Out (BufferManager D W) ℕ → Type 0
  Gets r =
      ((slot : ℕ) × (m' : BufferManager D W) × (r ≡ ok slot m') × Serves slot m')
      ⊎ ((m' : BufferManager D W) × (r ≡ exception m') × SameView block m m')

  module _ (ip : IsPool m) (ic : IsClean block m) where
    hit-Serves :
        (slot : ℕ)
        → HashTable.find m.table fd page ≡ some slot
        → Serves slot (touch slot (set_pin slot ((m.pool slot).pin + 1) m))
    unfolding touch set_pin
    hit-Serves slot e =
        let used = (ip.mapped fd page slot e).0 in
        record {
          pool = record {
            table = ip.table;
            slots = λ s. ground (arith, ip.slots s, used, count-touch slot s m.used_list);
            mapped =
                λ f p s h. ground (arith, ip.mapped f p s, used, count-touch slot s m.used_list);
            resident = λ s h n. ground (arith, ip.resident s, used, count-touch slot s m.used_list);
          };
          clean = record {
            clean = λ s h n d. ground (arith, ic.clean s, used, count-touch slot s m.used_list);
          };
          same = λ f p. ground arith;
          at = e;
          contents = ground arith;
          absent = λ f p n h. h;
          pinned = ground arith;
        }

    -- A slot that was vacated for the page, and whose buffer was read from the disk.
    miss-Serves :
        (slot : ℕ) (m₁ : BufferManager D W) (w : W)
        → HashTable.find m.table fd page ≡ none
        → Vacates block m slot m₁
        → SameDisk block m₁.buffer_size m₁.world w
        → let d = block m₁.world fd (place m₁.buffer_size page) in
          Serves slot (
            init_page_info fd page slot (
              map_page fd page slot (record m₁ {
                pool = update m₁.pool slot (record (m₁.pool slot) { contents = d });
                world = w;
              })))
    unfolding init_page_info map_page
    miss-Serves slot m₁ w absent v same =
        let d = block m₁.world fd (place m₁.buffer_size page) in
        let m₂ = filled block m₁ slot d w v.pool same in
        let ip₂ = filled-IsPoolBut block m₁ slot d w v.pool same in
        let absent₁ = v.absent fd page absent in
        let shown = install-view m₂ fd page slot v.used ip₂ absent₁ block in
        let here : d ≡ view block m fd page = ground (arith, v.same fd page) in
        record {
          pool = install-IsPool m₂ fd page slot v.used ip₂ absent₁;
          clean =
              install-IsClean m₂ fd page slot v.used ip₂ absent₁ block
                (filled-IsCleanBut block m₁ slot d w v.pool same v.clean)
                (ground (arith, same fd page));
          same = λ f p.
              ground (arith, shown f p, filled-view block m₁ slot d w v.pool same f p, v.same f p);
          at = install-find m₂ fd page slot v.used ip₂ absent₁;
          contents = ground arith;
          absent =
              λ f p n h. install-absent m₂ fd page slot v.used ip₂ absent₁ f p n (v.absent f p h);
          pinned = ground arith;
        }

    -- On a well-formed pool that agrees with the disk, get_page either answers a slot that is
    -- mapped to the page, pinned and holds the page's contents, with the pool still well formed and
    -- in agreement, or throws; in both cases every page of every file keeps the contents that
    -- clients see, also when a changed page had to be evicted.
    pub get_page-Gets :
        (os : Unix D W) (multiple : Bool)
        → IsUnix os m.buffer_size block
        → Gets (get_page os fd page multiple m)
    unfolding get_page
    get_page-Gets os multiple unix = elim (Option-cases (HashTable.find m.table fd page)) [
      | inr (slot, e) ↦ elim (Bool-cases (not multiple && ltb 0 (m.pool slot).pin)) [
        | inl pinned ↦ inr (m, rw (e, get_page, pinned), λ f p. refl)
        | inr fine ↦ inl (slot, _, rw (e, get_page, fine), hit-Serves slot e)
      ]
      | inl absent ↦ elim (internal_alloc-Allocs block m ip ic os unix) [
        | inr (w, run, clean, same) ↦
            inr (record m { world = w }, rw (absent, get_page, run, ◌>>=◌), same)
        | inl (slot, t, free, used, w, run, v) ↦
            let m₁ = taken m t free used w in
            elim (read_page-Reads os block m₁ fd page slot unix) [
              | inr (w', d, run', same) ↦ inr (
                filled block m₁ slot d w' v.pool same,
                rw (absent, get_page, run, ◌>>=◌, run'),
                λ f p. filled-view block m₁ slot d w' v.pool same f p ∙ v.same f p,
              )
              | inl (w', run', same) ↦ inl (
                slot,
                init_page_info fd page slot (
                    map_page fd page slot (
                      filled block m₁ slot (block m₁.world fd (place m₁.buffer_size page)) w' v.pool
                        same)),
                rw (absent, get_page, run, ◌>>=◌, run'),
                miss-Serves slot m₁ w' absent v same,
              )
            ]
      ]
    ]

module _ {D W : Type 0} (block : W → ℕ → ℕ → D) (m : BufferManager D W) (fd page : ℕ) where
  -- A fresh page is in `slot`, pinned, over whatever the buffer held; the others read as before.
  pub record Fresh (slot : ℕ) (m' : BufferManager D W) : Type 0 where
    pub pool : IsPool m'
    pub clean : IsCleanBut block slot m'
    pub at : HashTable.find m'.table fd page ≡ some slot
    pub pinned : 1 ≤ (m'.pool slot).pin
    pub absent :
        (f p : ℕ)
        → (fd == f && page == p) ≡ false
        → HashTable.find m.table f p ≡ none
        → HashTable.find m'.table f p ≡ none
    pub others : (f p : ℕ) → (fd == f && page == p) ≡ false → view block m' f p ≡ view block m f p

  abbrev pub Allocates : Out (BufferManager D W) (Option ℕ) → Type 0
  Allocates r =
      ((r ≡ ok none m) × ((s : ℕ) × (HashTable.find m.table fd page ≡ some s)))
      ⊎ (((slot : ℕ) × (m' : BufferManager D W) × (r ≡ ok (some slot) m') × Fresh slot m')
          ⊎ ((m' : BufferManager D W) × (r ≡ exception m') × SameView block m m'))

  vacated-Fresh :
      (slot : ℕ) (m₁ : BufferManager D W)
      → HashTable.find m.table fd page ≡ none
      → Vacates block m slot m₁
      → Fresh slot (init_page_info fd page slot (map_page fd page slot m₁))
  unfolding init_page_info map_page
  vacated-Fresh slot m₁ absent v =
      let absent₁ = v.absent fd page absent in
      record {
        pool = install-IsPool m₁ fd page slot v.used v.pool absent₁;
        clean = install-IsCleanBut m₁ fd page slot v.used v.pool absent₁ block v.clean;
        at = install-find m₁ fd page slot v.used v.pool absent₁;
        pinned = ground arith;
        absent =
            λ f p n h. install-absent m₁ fd page slot v.used v.pool absent₁ f p n (v.absent f p h);
        others = λ f p h.
            ground
              (arith, install-view m₁ fd page slot v.used v.pool absent₁ block f p, v.same f p);
      }

  -- On a well-formed pool that agrees with the disk, the pool's allocate_page answers null for a
  -- page that is in the pool and changes nothing, or maps and pins a slot for it and leaves every
  -- other page's contents alone, or throws and changes no page.
  pub allocate_page-Allocates :
      (os : Unix D W)
      → IsPool m
      → IsClean block m
      → IsUnix os m.buffer_size block
      → Allocates (allocate_page os fd page m)
  unfolding allocate_page
  allocate_page-Allocates os ip ic unix = elim (Option-cases (HashTable.find m.table fd page)) [
    | inr (slot, e) ↦ inl (rw (e, allocate_page), (slot, e))
    | inl absent ↦ elim (internal_alloc-Allocs block m ip ic os unix) [
      | inr (w, run, clean, same) ↦
          inr (inr (record m { world = w }, rw (absent, allocate_page, run, ◌>>=◌), same))
      | inl (slot, t, free, used, w, run, v) ↦
          let m₁ = taken m t free used w in
          inr (
            inl (
              slot,
              init_page_info fd page slot (map_page fd page slot m₁),
              rw (absent, allocate_page, run, ◌>>=◌),
              vacated-Fresh slot m₁ absent v,
            ))
    ]
  ]
