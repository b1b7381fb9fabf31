-- ===== src/Io/BufferManager/Flush.antt =====
-- flush_pages, one round after the other.
use alphadb.Prelude.{
  ℕ, zero, suc, ◌+◌, ◌≤◌, ◌<◌, ◌≡◌, ◌≢◌, refl, ◌⊎◌, inl, inr, false, none, arith, ltb, ◌==◌, count,
  count-erase, Bool-cases, Option-cases, sym, subst,
}
use alphadb.Io.HashTable
use alphadb.Io.HashTable.{HashTable}
use alphadb.Io.HashTable.Laws.{find-remove, remove-IsTable}
use alphadb.Io.Result.{ok, exception, ◌>>=◌, Out}
use alphadb.Io.Unix.{Unix, IsUnix}
use alphadb.Io.BufferManager.Disk.{place, write_back-WritesBack, SameBut}
use alphadb.Io.BufferManager.Invariant.{IsPool, IsClean, view, SameView}
use alphadb.Io.BufferManager.{
  BufferManager, flush_slot, flush_slots, flush_pages, set_dirty, unmap_page, remove, insert_free,
}

module _ {D W : Type 0} (block : W → ℕ → ℕ → D) (fd : ℕ) where
  -- No free slot still carries the descriptor of a page that it held before.
  abbrev pub NoStale : BufferManager D W → Type 0
  NoStale m = (s : ℕ) → 1 ≤ count s m.free_list → (m.pool s).fd ≢ fd

  -- After the rounds below `i` of a flush that began at `m`.
  pub record Flushing (m : BufferManager D W) (i : ℕ) (m' : BufferManager D W) : Type 0 where
    pub pool : IsPool m'
    pub clean : IsClean block m'
    pub same : SameView block m m'
    pub sizes : (m'.pool_size ≡ m.pool_size) × (m'.buffer_size ≡ m.buffer_size)
    pub gone : (s : ℕ) → s < i → (m'.pool s).fd ≡ fd → count s m'.used_list ≡ 0
    pub fresh : (s : ℕ) → i ≤ s → 1 ≤ count s m'.free_list → (m'.pool s).fd ≢ fd

  module _ (m : BufferManager D W) (i : ℕ) (n : BufferManager D W) (v : Flushing m i n)
      (here : (n.pool i).fd ≡ fd) (used : count i n.used_list ≡ 1) (w' : W)
      (written : block w' (n.pool i).fd (place n.buffer_size (n.pool i).page) ≡ (n.pool i).contents)
      (apart : SameBut block n.buffer_size (n.pool i).fd (n.pool i).page n.world w') where
    flushed : BufferManager D W
    flushed = insert_free i (
        remove i
          (unmap_page (n.pool i).fd (n.pool i).page (set_dirty i false (record n { world = w' }))))

    flushed-Flushing : Flushing m (suc i) flushed
    unfolding flushed insert_free remove unmap_page set_dirty count
    flushed-Flushing =
        let e = n.pool i in
        let ip = v.pool in
        let ic = v.clean in
        let home = ip.resident i used (ground (arith, ip.slots i)) in
        record {
          pool = record {
            table = remove-IsTable n.table e.fd e.page ip.table;
            slots = λ s. ground (arith, used, ip.slots s, count-erase i s n.used_list);
            mapped = λ f p s h. ground (
              arith,
              used,
              find-remove n.table e.fd e.page f p ip.table,
              ip.mapped f p s,
              ip.slots s,
              count-erase i s n.used_list,
            );
            resident = λ s h k. ground (
              arith,
              used,
              home,
              find-remove n.table e.fd e.page (n.pool s).fd (n.pool s).page ip.table,
              ip.resident s,
              ip.slots s,
              count-erase i s n.used_list,
            );
          };
          clean = record {
            clean = λ s h k d. ground (
              arith,
              used,
              home,
              ip.resident s,
              ip.slots s,
              ic.clean s,
              count-erase i s n.used_list,
              apart (n.pool s).fd (n.pool s).page,
            );
          };
          same = λ f p. ground (
            arith,
            v.same f p,
            home,
            written,
            apart f p,
            find-remove n.table e.fd e.page f p ip.table,
          );
          sizes = v.sizes;
          gone = λ s h k. ground (arith, used, v.gone s, count-erase i s n.used_list);
          fresh = λ s h k. ground (arith, used, v.fresh s);
        }

  skip-Flushing :
      (m : BufferManager D W) (i : ℕ) (n : BufferManager D W)
      → Flushing m i n
      → ((n.pool i).fd == fd) ≡ false
      → Flushing m (suc i) n
  skip-Flushing m i n v other = record {
    pool = v.pool;
    clean = v.clean;
    same = v.same;
    sizes = v.sizes;
    gone = λ s h k. ground (arith, v.gone s);
    fresh = λ s h k. ground (arith, v.fresh s);
  }

  module _ (os : Unix D W) (m : BufferManager D W) (unix : IsUnix os m.buffer_size block) where
    -- A call that returns has done the rounds below `i`, and one that throws has changed no page.
    abbrev FlushesTo : ℕ → Out (BufferManager D W) (Unit {0}) → Type 0
    FlushesTo i r =
        ((m' : BufferManager D W) × (r ≡ ok tt m') × Flushing m i m')
        ⊎ ((m' : BufferManager D W) × (r ≡ exception m') × SameView block m m')

    flush_slot-FlushesTo :
        (i : ℕ) (n : BufferManager D W)
        → i < m.pool_size
        → Flushing m i n
        → FlushesTo (suc i) (flush_slot os fd i n)
    unfolding flush_slot flushed
    flush_slot-FlushesTo i n bound v = elim (Bool-cases ((n.pool i).fd == fd)) [
      | inr other ↦ inl (n, rw (other, flush_slot), skip-Flushing m i n v other)
      | inl mine ↦
          let here : (n.pool i).fd ≡ fd = ground arith in
          let used : count i n.used_list ≡ 1 = ground (arith, v.fresh i, v.pool.slots i) in
          elim (Bool-cases (ltb 0 (n.pool i).pin)) [
            | inl pinned ↦ inr (n, rw (mine, flush_slot, pinned), v.same)
            | inr idle ↦
                elim (write_back-WritesBack os block n i
                  (subst (λ b. IsUnix os b block) (sym v.sizes.1) unix)
                  (λ d. ground (arith, v.clean.clean i, v.pool.slots i))) [
                    | inl (w', run, sets, apart) ↦ inl (
                      flushed m i n v here used w' sets apart,
                      rw (mine, flush_slot, idle, run, ◌>>=◌),
                      flushed-Flushing m i n v here used w' sets apart,
                    )
                    | inr (w', run, dirty, apart) ↦ inr (
                      record n { world = w' },
                      rw (mine, flush_slot, idle, run, ◌>>=◌),
                      λ f p.
                          ground (arith, v.same f p, v.pool.resident i, v.pool.slots i, apart f p),
                    )
                  ]
          ]
    ]

    flush_slots-FlushesTo :
        (k i : ℕ) (n : BufferManager D W)
        → i + k ≡ m.pool_size
        → Flushing m i n
        → FlushesTo m.pool_size (flush_slots os fd i k n)
    unfolding flush_slots
    flush_slots-FlushesTo zero i n e v =
        let e' : i ≡ m.pool_size = omega arith in inl (n, refl, subst (λ j. Flushing m j n) e' v)
    flush_slots-FlushesTo (suc k) i n e v = elim (flush_slot-FlushesTo i n (omega arith) v) [
      | inr (n', run, same) ↦ inr (n', rw (run, flush_slots, ◌>>=◌), same)
      | inl (n', run, v') ↦
          elim (flush_slots-FlushesTo k (i + 1) n' (omega arith)
            (subst (λ j. Flushing m j n') (omega arith) v')) [
              | inr (n'', run', same) ↦ inr (n'', rw (run, flush_slots, ◌>>=◌) run', same)
              | inl (n'', run', v'') ↦ inl (n'', rw (run, flush_slots, ◌>>=◌) run', v'')
            ]
    ]

    -- The file is on the disk and out of the pool, and every page reads as before.
    pub record Flushed (m' : BufferManager D W) : Type 0 where
      pub pool : IsPool m'
      pub clean : IsClean block m'
      pub same : SameView block m m'
      pub absent : (page : ℕ) → HashTable.find m'.table fd page ≡ none
      pub durable : (page : ℕ) → block m'.world fd (place m.buffer_size page) ≡ view block m fd page

    flushed-absent :
        (m' : BufferManager D W)
        → Flushing m m.pool_size m'
        → (page : ℕ) → HashTable.find m'.table fd page ≡ none
    flushed-absent m' v page = elim (Option-cases (HashTable.find m'.table fd page)) [
      | inl e ↦ e
      | inr (s, e) ↦
          absurd (ground (arith, v.pool.mapped fd page s, v.gone s, v.pool.slots s, v.sizes.0))
    ]

    -- If no free slot still carries the file's descriptor, flush_pages on a well-formed pool that
    -- agrees with the disk either leaves no page of the file in the pool and the disk with the
    -- contents of each of its pages, or throws; no page changes its contents in either case.
    pub flush_pages-Flushed :
        IsPool m
        → IsClean block m
        → NoStale m
        → ((m' : BufferManager D W) × (flush_pages os fd m ≡ ok tt m') × Flushed m')
          ⊎ ((m' : BufferManager D W) × (flush_pages os fd m ≡ exception m') × SameView block m m')
    unfolding flush_pages
    flush_pages-Flushed ip ic fresh =
        elim (flush_slots-FlushesTo m.pool_size 0 m (omega arith) (record {
          pool = ip;
          clean = ic;
          same = λ f p. refl;
          sizes = (refl, refl);
          gone = λ s h. absurd (omega arith);
          fresh = λ s h. fresh s;
        })) [
          | inr failed ↦ inr failed
          | inl (m', run, v) ↦
              let absent = flushed-absent m' v in
              inl (
                m',
                run,
                record {
                  pool = v.pool;
                  clean = v.clean;
                  same = v.same;
                  absent = absent;
                  durable = λ p. ground (arith, absent p, v.same fd p, v.sizes.1);
                },
              )
        ]
