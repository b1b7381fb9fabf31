-- ===== src/Io/BufferManager/Alloc.antt =====
-- internal_alloc: where a slot for a page comes from.
use mathlib.Core.List.{reverse}
use alphadb.Prelude.{
  ℕ, ◌≤◌, ◌≡◌, refl, ◌⊎◌, inl, inr, false, List, ◌∷◌, none, some, arith, count, erase, count-erase,
  Option-cases,
}
use alphadb.Io.HashTable
use alphadb.Io.HashTable.{HashTable}
use alphadb.Io.HashTable.Laws.{find-remove, remove-IsTable}
use alphadb.Io.Result.{ok, exception, ◌>>=◌}
use alphadb.Io.Unix.{Unix, IsUnix}
use alphadb.Io.BufferManager.Disk.{place, write_back-WritesBack, SameBut}
use alphadb.Io.BufferManager.Invariant.{
  IsPoolBut, IsPool, IsCleanBut, IsClean, SameView, List-cases, count-reverse, first_unpinned-mem,
}
use alphadb.Io.BufferManager.{BufferManager, internal_alloc, evict, first_unpinned}

-- The manager with a slot taken: the table, the lists and the world are new.
abbrev pub taken :
    {D W : Type 0} → BufferManager D W → HashTable → List ℕ → List ℕ → W → BufferManager D W
taken m t free used w = record m { table = t; free_list = free; used_list = used; world = w }

module _ {D W : Type 0} (block : W → ℕ → ℕ → D) (m : BufferManager D W) where
  -- The slot is in use and free of any page, and every page reads as before.
  pub record Vacates (slot : ℕ) (m' : BufferManager D W) : Type 0 where
    pub used : count slot m'.used_list ≡ 1
    pub pool : IsPoolBut slot m'
    pub clean : IsCleanBut block slot m'
    pub same : SameView block m m'
    pub absent : (f p : ℕ) → HashTable.find m.table f p ≡ none → HashTable.find m'.table f p ≡ none

  module _ (ip : IsPool m) (ic : IsClean block m) where
    free-Vacates :
        (slot : ℕ) (rest : List ℕ)
        → m.free_list ≡ slot ∷ rest
        → Vacates slot (taken m m.table rest (slot ∷ m.used_list) m.world)
    unfolding count
    free-Vacates slot rest e = record {
      used = ground (arith, ip.slots slot);
      pool = record {
        table = ip.table;
        slots = λ s. ground (arith, ip.slots s);
        mapped = λ f p s h. ground (arith, ip.slots slot, ip.mapped f p s);
        resident = λ s h n. ground (arith, ip.slots s, ip.resident s);
      };
      clean = record { clean = λ s h n d. ground (arith, ip.slots s, ic.clean s) };
      same = λ f p. refl;
      absent = λ f p h. h;
    }

    module _ (slot : ℕ) (w' : W) (hot : 1 ≤ count slot m.used_list)
        (written : block w' (m.pool slot).fd (place m.buffer_size (m.pool slot).page)
          ≡ (m.pool slot).contents)
        (apart : SameBut block m.buffer_size (m.pool slot).fd (m.pool slot).page m.world w') where
      evicted : BufferManager D W
      evicted =
          taken m (HashTable.remove m.table (m.pool slot).fd (m.pool slot).page) m.free_list
            (slot ∷ erase slot m.used_list) w'

      one : count slot m.used_list ≡ 1
      one = ground (arith, ip.slots slot)

      home : HashTable.find m.table (m.pool slot).fd (m.pool slot).page ≡ some slot
      home = ground (arith, one, ip.slots slot, ip.resident slot)

      evict-Vacates : Vacates slot evicted
      unfolding evicted count
      evict-Vacates =
          let e = m.pool slot in
          record {
            used = ground (arith, one, count-erase slot slot m.used_list);
            pool = record {
              table = remove-IsTable m.table _ _ ip.table;
              slots = λ s. ground (arith, one, ip.slots s, count-erase slot s m.used_list);
              mapped = λ f p s h. ground (
                arith,
                one,
                find-remove m.table e.fd e.page f p ip.table,
                ip.mapped f p s,
                ip.slots s,
                count-erase slot s m.used_list,
              );
              resident = λ s h n. ground (
                arith,
                one,
                home,
                find-remove m.table e.fd e.page (m.pool s).fd (m.pool s).page ip.table,
                ip.resident s,
                ip.slots s,
                count-erase slot s m.used_list,
              );
            };
            clean = record {
              clean = λ s h n d. ground (
                arith,
                one,
                home,
                ip.resident s,
                ip.slots s,
                ic.clean s,
                count-erase slot s m.used_list,
                apart (m.pool s).fd (m.pool s).page,
              );
            };
            same = λ f p. ground (
              arith,
              one,
              home,
              written,
              apart f p,
              find-remove m.table e.fd e.page f p ip.table,
            );
            absent = λ f p h. ground (arith, find-remove m.table e.fd e.page f p ip.table);
          }

    abbrev pub Allocs : Unix D W → Type 0
    Allocs os =
        ((slot : ℕ) × (t : HashTable) × (free used : List ℕ) × (w : W) × (internal_alloc os m
            ≡ ok slot (taken m t free used w))
          × Vacates slot (taken m t free used w))
        ⊎ ((w : W) × (internal_alloc os m ≡ exception (record m { world = w }))
            × IsClean block (record m { world = w })
            × SameView block m (record m { world = w }))

    module _ (slot : ℕ) (hot : 1 ≤ count slot m.used_list) (os : Unix D W)
        (unix : IsUnix os m.buffer_size block) where
      abbrev Evicts : Type 0
      Evicts =
          ((t : HashTable) × (free used : List ℕ) × (w : W) × (evict os slot m
              ≡ ok slot (taken m t free used w))
            × Vacates slot (taken m t free used w))
          ⊎ ((w : W) × (evict os slot m ≡ exception (record m { world = w }))
              × IsClean block (record m { world = w })
              × SameView block m (record m { world = w }))

      idle :
          (m.pool slot).dirty ≡ false
          → (m.pool slot).contents
            ≡ block m.world (m.pool slot).fd (place m.buffer_size (m.pool slot).page)
      idle d = ground (arith, ip.slots slot, ic.clean slot)

      evict-Evicts : Evicts
      unfolding evict evicted
      evict-Evicts = elim (write_back-WritesBack os block m slot unix idle) [
        | inl (w', run, sets, apart) ↦
            inl (_, _, _, w', rw (run, ◌>>=◌), evict-Vacates slot w' hot sets apart)
        | inr (w', run, dirty, apart) ↦ inr (
          w',
          rw (run, ◌>>=◌),
          record {
            clean = λ s h n d. ground (
              arith,
              ip.resident slot,
              ip.slots slot,
              ip.resident s,
              ip.slots s,
              ic.clean s,
              apart (m.pool s).fd (m.pool s).page,
            );
          },
          λ f p. ground (arith, ip.resident slot, ip.slots slot, apart f p),
        )
      ]

    -- On a well-formed pool that agrees with the disk, internal_alloc either answers a used slot
    -- that no page is mapped to, all other slots still well formed and in agreement with the disk,
    -- or throws and changes only the state of the kernel; no page changes its contents in either
    -- case.
    pub internal_alloc-Allocs : (os : Unix D W) → IsUnix os m.buffer_size block → Allocs os
    unfolding internal_alloc
    internal_alloc-Allocs os unix = elim (List-cases m.free_list) [
      | inr (slot, rest, e) ↦ inl (slot, _, rest, _, _, ground arith, free-Vacates slot rest e)
      | inl e ↦ elim (Option-cases (first_unpinned m.pool (reverse m.used_list))) [
        | inl all ↦ inr (m.world, ground arith, ic, λ f p. refl)
        | inr (slot, v) ↦
            elim (evict-Evicts slot
              (ground (
                arith,
                first_unpinned-mem m.pool (reverse m.used_list) slot v,
                count-reverse slot m.used_list,
              ))
              os unix) [
                | inl (t, free, used, w, run, vacates) ↦
                    inl (slot, t, free, used, w, ground (arith, run), vacates)
                | inr (w, run, clean, same) ↦ inr (w, ground (arith, run), clean, same)
              ]
      ]
    ]
