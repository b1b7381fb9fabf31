-- ===== src/Io/BufferManager/Force.antt =====
-- force_page, one slot of the used list after the other, and its call with ALL_PAGES.
use alphadb.Prelude.{
  ℕ, ◌≤◌, ◌≡◌, refl, ◌⊎◌, inl, inr, Bool, true, false, ◌&&◌, ◌||◌, List, [], ◌∷◌, arith, ◌==◌,
  count, Bool-cases, Option-cases, sym, subst,
}
use alphadb.Prelude.Int.{pos, negsuc, int_eq, int_eq_iff}
use alphadb.Io.HashTable
use alphadb.Io.Result.{ok, exception, ◌>>=◌, Out}
use alphadb.Io.Unix.{Unix, IsUnix}
use alphadb.Io.BufferManager.Disk.{place, write_page-Writes, SameBut}
use alphadb.Io.BufferManager.Invariant.{IsPool, IsClean, view, SameView}
use alphadb.Io.BufferManager.{
  BufferManager, BufferEntry, offset, force_slot, force_slots, force_page, set_dirty, write_page,
}

module _ {D W : Type 0} (block : W → ℕ → ℕ → D) (fd page : ℕ) (m : BufferManager D W) where
  -- What holds when `rest` is still to be looked at.
  pub record Forcing (rest : List ℕ) (n : BufferManager D W) : Type 0 where
    pub pool : IsPool n
    pub clean : IsClean block n
    pub same : SameView block m n
    pub sizes : (n.pool_size ≡ m.pool_size) × (n.buffer_size ≡ m.buffer_size)
    pub listed : n.used_list ≡ m.used_list
    pub done :
        (s : ℕ)
        → count s rest ≡ 0
        → count s n.used_list ≡ 1
        → (n.pool s).fd ≡ fd
        → (n.pool s).page ≡ page
        → (n.pool s).dirty ≡ false

  -- What the test of force_page comes to for a page number that is none.
  wanted : BufferEntry D → Bool
  wanted e =
      e.fd == fd && (int_eq (pos e.page) (pos page) || int_eq (pos page) (negsuc 0)) && e.dirty

  wanted_iff :
      (e : BufferEntry D) → wanted e ≡ true → (e.fd ≡ fd) × (e.page ≡ page) × (e.dirty ≡ true)
  unfolding wanted
  wanted_iff e h = ground arith

  unwanted : (e : BufferEntry D) → wanted e ≡ false → e.fd ≡ fd → e.page ≡ page → e.dirty ≡ false
  unfolding wanted
  unwanted e h f p = ground arith

  module _ (os : Unix D W) (unix : IsUnix os m.buffer_size block) where
    ForcesTo : List ℕ → Out (BufferManager D W) (Unit {0}) → Type 0
    ForcesTo rest r =
        ((m' : BufferManager D W) × (r ≡ ok tt m') × Forcing rest m')
        ⊎ ((m' : BufferManager D W) × (r ≡ exception m') × SameView block m m')

    written-Forcing :
        (i : ℕ) (rest : List ℕ) (n : BufferManager D W) (w' : W)
        → Forcing (i ∷ rest) n
        → count i n.used_list ≡ 1
        → (n.pool i).fd ≡ fd
        → (n.pool i).page ≡ page
        → block w' fd (place n.buffer_size page) ≡ (n.pool i).contents
        → SameBut block n.buffer_size fd page n.world w'
        → Forcing rest (set_dirty i false (record n { world = w' }))
    unfolding set_dirty count
    written-Forcing i rest n w' v used f p sets apart = record {
      pool = record {
        table = v.pool.table;
        slots = v.pool.slots;
        mapped = λ g q s h. ground (arith, v.pool.mapped g q s);
        resident = λ s h k. ground (arith, v.pool.resident s);
      };
      clean = record {
        clean = λ s h k d. ground (
          arith,
          v.clean.clean s,
          used,
          v.pool.slots i,
          v.pool.slots s,
          v.pool.resident i,
          v.pool.resident s,
          sets,
          apart (n.pool s).fd (n.pool s).page,
        );
      };
      same = λ g q. elim (Option-cases (HashTable.find n.table g q)) [
        | inl e ↦ ground (arith, v.same g q, used, v.pool.slots i, v.pool.resident i, apart g q)
        | inr (s, e) ↦ ground (arith, v.same g q)
      ];
      sizes = v.sizes;
      listed = v.listed;
      done = λ s h k a b. ground (arith, v.done s);
    }

    force_slot-ForcesTo :
        (i : ℕ) (rest : List ℕ) (n : BufferManager D W)
        → count i n.used_list ≡ 1
        → Forcing (i ∷ rest) n
        → ForcesTo rest (force_slot os fd (pos page) i n)
    unfolding force_slot ForcesTo wanted count
    force_slot-ForcesTo i rest n used v = elim (Bool-cases (wanted (n.pool i))) [
      | inr skip ↦ inl (
        n,
        rw (skip, force_slot),
        record {
          pool = v.pool;
          clean = v.clean;
          same = v.same;
          sizes = v.sizes;
          listed = v.listed;
          done = λ s h k a b. ground (arith, v.done s, unwanted (n.pool i) skip);
        },
      )
      | inl hit ↦
          let (f, p, d) = wanted_iff (n.pool i) hit in
          elim (write_page-Writes os block n fd page (n.pool i).contents
            (subst (λ z. IsUnix os z block) (sym v.sizes.1) unix)) [
              | inl (w', run, sets, apart) ↦ inl (
                set_dirty i false (record n { world = w' }),
                rw (hit, force_slot, run, ◌>>=◌),
                written-Forcing i rest n w' v used f p sets apart,
              )
              | inr (w', run, apart) ↦ inr (
                record n { world = w' },
                rw (hit, force_slot, run, ◌>>=◌),
                λ g q. elim (Option-cases (HashTable.find n.table g q)) [
                  | inl e ↦
                      ground (arith, v.same g q, used, v.pool.slots i, v.pool.resident i, apart g q)
                  | inr (s, e) ↦ ground (arith, v.same g q)
                ],
              )
            ]
    ]

    force_slots-ForcesTo :
        (rest : List ℕ) (n : BufferManager D W)
        → ((s : ℕ) → count s rest ≤ count s m.used_list)
        → Forcing rest n
        → ForcesTo [] (force_slots os fd (pos page) rest n)
    unfolding force_slots ForcesTo count
    force_slots-ForcesTo [] n sub v = inl (n, refl, v)
    force_slots-ForcesTo (i ∷ rest) n sub v =
        elim (force_slot-ForcesTo i rest n (ground (arith, sub i, v.listed, v.pool.slots i)) v) [
          | inr (n', run, same) ↦ inr (n', rw (run, force_slots, ◌>>=◌), same)
          | inl (n', run, v') ↦
              rw (run, force_slots, ◌>>=◌)
                (force_slots-ForcesTo rest n' (λ s. ground (arith, sub s)) v')
        ]

    -- The page is on the disk, and every page reads as before.
    pub record Forced (m' : BufferManager D W) : Type 0 where
      pub pool : IsPool m'
      pub clean : IsClean block m'
      pub same : SameView block m m'
      pub durable : block m'.world fd (place m.buffer_size page) ≡ view block m fd page

    -- For a page number that is not negative, force_page on a well-formed pool that agrees with the
    -- disk either leaves the disk with the contents of the page and the pool well formed, or
    -- throws; no page changes its contents in either case.
    pub force_page-Forced :
        IsPool m
        → IsClean block m
        → ((m' : BufferManager D W) × (force_page os fd (pos page) m ≡ ok tt m') × Forced m')
          ⊎ ((m' : BufferManager D W) × (force_page os fd (pos page) m ≡ exception m')
              × SameView block m m')
    unfolding force_page ForcesTo count
    force_page-Forced ip ic =
        elim (force_slots-ForcesTo m.used_list m (λ s. omega arith)
          (record {
            pool = ip;
            clean = ic;
            same = λ f p. refl;
            sizes = (refl, refl);
            listed = refl;
            done = λ s h k a b. absurd (omega arith);
          })) [
            | inr failed ↦ inr failed
            | inl (m', run, v) ↦ inl (
              m',
              run,
              record {
                pool = v.pool;
                clean = v.clean;
                same = v.same;
                durable = elim (Option-cases (HashTable.find m'.table fd page)) [
                  | inl e ↦ ground (arith, v.same fd page, v.sizes.1)
                  | inr (s, e) ↦ ground (
                    arith,
                    v.same fd page,
                    v.sizes.1,
                    v.pool.mapped fd page s,
                    v.pool.slots s,
                    v.done s,
                    v.clean.clean s,
                  )
                ];
              },
            )
          ]

write_page-header :
    {D W : Type 0} (os : Unix D W) (fd r : ℕ) (d : D) (m : BufferManager D W)
    → m.buffer_size ≡ 4096
    → (os.lseek fd (pos 0) m.world).0 ≡ pos r
    → (os.write fd d m.buffer_size (os.lseek fd (pos 0) m.world).1).0 ≡ pos m.buffer_size
    → write_page os fd (negsuc 0) d m
      ≡ ok tt (record m { world = (os.write fd d m.buffer_size (os.lseek fd (pos 0) m.world).1).1 })
unfolding write_page
write_page-header os fd r d m size seeks writes =
    let zero_offset : offset m.buffer_size (negsuc 0) ≡ pos 0 = ground arith in
    let full : int_eq (os.write fd d m.buffer_size (os.lseek fd (pos 0) m.world).1).0
          (pos m.buffer_size)
        ≡ true =
      (int_eq_iff _ _).1 writes in
    rw (zero_offset, seeks, write_page, zero_offset, full)

-- With pages of 4096 bytes, a round of force_page with ALL_PAGES at a dirty slot of the file whose
-- seek and write succeed writes the page to offset 0, where the file header is, leaves the page's
-- own place on the disk as it was, and marks the page as clean.
pub force_slot-all_pages :
    {D W : Type 0} (os : Unix D W) (block : W → ℕ → ℕ → D) (fd i r : ℕ) (m : BufferManager D W)
    → IsUnix os m.buffer_size block
    → m.buffer_size ≡ 4096
    → (m.pool i).fd ≡ fd
    → (m.pool i).dirty ≡ true
    → (os.lseek fd (pos 0) m.world).0 ≡ pos r
    → (os.write fd (m.pool i).contents m.buffer_size (os.lseek fd (pos 0) m.world).1).0
      ≡ pos m.buffer_size
    → (m' : BufferManager D W) × (force_slot os fd (negsuc 0) i m ≡ ok tt m')
      × (block m'.world fd 0 ≡ (m.pool i).contents)
      × (block m'.world fd (place m.buffer_size (m.pool i).page)
          ≡ block m.world fd (place m.buffer_size (m.pool i).page))
      × ((m'.pool i).dirty ≡ false)
unfolding force_slot set_dirty
force_slot-all_pages os block fd i r m unix size here dirty seeks writes =
    let wanted : ((m.pool i).fd == fd && true && (m.pool i).dirty) ≡ true = ground arith in
    let w' = (os.write fd (m.pool i).contents m.buffer_size (os.lseek fd (pos 0) m.world).1).1 in
    (
      set_dirty i false (record m { world = w' }),
      rw (
        wanted,
        force_slot,
        write_page-header os fd r (m.pool i).contents m size seeks writes,
        ◌>>=◌,
      ),
      unix.write_sets fd 0 r _ _ seeks writes,
      unix.write_apart fd 0 r _ _ fd _ seeks (inr (inl (omega arith))),
      ground arith,
    )
