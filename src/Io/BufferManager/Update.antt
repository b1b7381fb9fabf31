-- ===== src/Io/BufferManager/Update.antt =====
-- Writing through a pointer, mark_dirty and unpin_page.
use alphadb.Prelude.{
  ℕ, ◌+◌, ◌-◌, ◌≡◌, refl, ◌⊎◌, inl, inr, true, ◌&&◌, some, arith, ◌==◌, if◌then◌else◌, Bool-cases,
  Option-cases,
}
use alphadb.Io.HashTable
use alphadb.Io.Result.{ok, exception}
use alphadb.Io.BufferManager.Invariant.{IsPool, IsCleanBut, IsClean, view, SameView}
use alphadb.Io.BufferManager.GetPage.{count-touch}
use alphadb.Io.BufferManager.{
  BufferManager, mark_dirty, unpin_page, store, set_pin, set_dirty, touch,
}

module _ {D W : Type 0} (block : W → ℕ → ℕ → D) (m : BufferManager D W) (fd page slot : ℕ)
    (ip : IsPool m) (at : HashTable.find m.table fd page ≡ some slot) where
  -- What a client's write through the pointer to a page comes to, once the page is marked.
  pub record Written (d : D) (m' : BufferManager D W) : Type 0 where
    pub pool : IsPool m'
    pub clean : IsClean block m'
    pub table : m'.table ≡ m.table
    pub sizes : (m'.pool_size ≡ m.pool_size) × (m'.buffer_size ≡ m.buffer_size)
    pub pins : (s : ℕ) → (m'.pool s).pin ≡ (m.pool s).pin
    pub reads :
        (f p : ℕ) → view block m' f p ≡ (if (fd == f && page == p) then d else view block m f p)

  -- On a well-formed pool whose used and clean slots, but perhaps the one of a page, agree with the
  -- disk, a write through the pointer to that page followed by mark_dirty returns; that page has
  -- the written contents, every other page keeps its own, and the pool is well formed and all its
  -- used and clean slots agree with the disk.
  pub mark_dirty-store :
      (d : D)
      → IsCleanBut block slot m
      → (m' : BufferManager D W) × (mark_dirty fd page (store slot d m) ≡ ok tt m') × Written d m'
  unfolding mark_dirty store touch set_dirty
  mark_dirty-store d ic =
      let used = (ip.mapped fd page slot at).0 in
      (
        touch slot (set_dirty slot true (store slot d m)),
        ground arith,
        record {
          pool = record {
            table = ip.table;
            slots = λ s. ground (arith, ip.slots s, used, count-touch slot s m.used_list);
            mapped =
                λ f p s h. ground (arith, ip.mapped f p s, used, count-touch slot s m.used_list);
            resident = λ s h n. ground (arith, ip.resident s, used, count-touch slot s m.used_list);
          };
          clean = record {
            clean = λ s h n e. ground (arith, ic.clean s, used, count-touch slot s m.used_list);
          };
          table = refl;
          sizes = (refl, refl);
          pins = λ s. ground arith;
          reads = λ f p. elim (Option-cases (HashTable.find m.table f p)) [
            | inl e ↦ ground arith
            | inr (s, e) ↦ ground (arith, ip.mapped f p s, ip.mapped fd page slot)
          ];
        },
      )

  -- One pin fewer; nothing else that a client sees changes.
  pub record Unpinned (m' : BufferManager D W) : Type 0 where
    pub pool : IsPool m'
    pub clean : IsClean block m'
    pub table : m'.table ≡ m.table
    pub same : SameView block m m'
    pub pins : (s : ℕ) → (m'.pool s).pin + (if s == slot then 1 else 0) ≡ (m.pool s).pin

  -- On a well-formed pool that agrees with the disk, unpin_page of a page of the pool takes off
  -- exactly one pin, and throws exactly in the case where there is none to take off; no page
  -- changes its contents.
  pub unpin_page-Unpinned :
      IsClean block m
      → ((m' : BufferManager D W) × (unpin_page fd page m ≡ ok tt m') × Unpinned m')
        ⊎ ((unpin_page fd page m ≡ exception m) × ((m.pool slot).pin ≡ 0))
  unfolding unpin_page touch set_pin
  unpin_page-Unpinned ic = elim (Bool-cases ((m.pool slot).pin == 0)) [
    | inl none_left ↦ inr (ground arith, ground arith)
    | inr held ↦ elim (Bool-cases ((m.pool slot).pin - 1 == 0)) [
      | inr more ↦ inl (
        set_pin slot ((m.pool slot).pin - 1) m,
        ground arith,
        record {
          pool = record {
            table = ip.table;
            slots = ip.slots;
            mapped = λ f p s h. ground (arith, ip.mapped f p s);
            resident = λ s h n. ground (arith, ip.resident s);
          };
          clean = record { clean = λ s h n e. ground (arith, ic.clean s) };
          table = refl;
          same = λ f p. ground arith;
          pins = λ s. ground arith;
        },
      )
      | inl last ↦
          let used = (ip.mapped fd page slot at).0 in
          inl (
            touch slot (set_pin slot ((m.pool slot).pin - 1) m),
            ground arith,
            record {
              pool = record {
                table = ip.table;
                slots = λ s. ground (arith, ip.slots s, used, count-touch slot s m.used_list);
                mapped = λ f p s h.
                    ground (arith, ip.mapped f p s, used, count-touch slot s m.used_list);
                resident =
                    λ s h n. ground (arith, ip.resident s, used, count-touch slot s m.used_list);
              };
              clean = record {
                clean = λ s h n e. ground (arith, ic.clean s, used, count-touch slot s m.used_list);
              };
              table = refl;
              same = λ f p. ground arith;
              pins = λ s. ground arith;
            },
          )
    ]
  ]
