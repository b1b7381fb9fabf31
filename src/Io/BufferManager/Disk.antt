-- ===== src/Io/BufferManager/Disk.antt =====
-- read_page and write_page against the documented behaviour of the system calls.
use alphadb.Prelude.{
  ℕ, ◌+◌, ◌*◌, ◌≤◌, ◌≡◌, refl, ◌⊎◌, inl, inr, true, false, ◌&&◌, arith, ltb, ◌==◌, Bool-cases,
  update, ◌≢◌, sym, ◌∙◌, fun_ext,
}
use alphadb.Prelude.Int.{ℤ, pos, negsuc, int_eq, int_eq_iff}
use alphadb.Io.Result.{ok, exception}
use alphadb.Io.Unix.{Unix, IsUnix, Apart}
use alphadb.Io.BufferManager.{BufferManager, BufferEntry, read_page, write_page, write_back}

-- Where a page starts in its file.
abbrev pub place : ℕ → ℕ → ℕ
place size page = page * size + 4096

step_apart : (size p q : ℕ) → p + 1 ≤ q → place size p + size ≤ place size q
step_apart size p q h = grind arith

pages_apart :
    (size p q : ℕ)
    → p ≢ q
    → (place size p + size ≤ place size q) ⊎ (place size q + size ≤ place size p)
pages_apart size p q h = elim (Bool-cases (ltb p q)) [
  | inl e ↦ inl (step_apart size p q (ground arith))
  | inr e ↦ inr (step_apart size q p (ground arith))
]

keys-Apart :
    (size f p g q : ℕ) → (f == g && p == q) ≡ false → Apart size f (place size p) g (place size q)
keys-Apart size f p g q h = elim (Bool-cases (f == g)) [
  | inl e ↦ inr (pages_apart size p q (ground arith))
  | inr e ↦ inl (ground arith)
]

ℤ-cases : (z : ℤ) → ((n : ℕ) × (z ≡ pos n)) ⊎ ((n : ℕ) × (z ≡ negsuc n))
ℤ-cases (pos n) = inl (n, refl)
ℤ-cases (negsuc n) = inr (n, refl)

-- The two states agree on every page but one.
abbrev pub SameBut : {D W : Type 0} → (W → ℕ → ℕ → D) → ℕ → ℕ → ℕ → W → W → Type 0
SameBut block size fd page w w' =
    (f p : ℕ)
    → (fd == f && page == p) ≡ false
    → block w' f (place size p) ≡ block w f (place size p)

abbrev pub SameDisk : {D W : Type 0} → (W → ℕ → ℕ → D) → ℕ → W → W → Type 0
SameDisk block size w w' = (f p : ℕ) → block w' f (place size p) ≡ block w f (place size p)

module _ {D W : Type 0} (os : Unix D W) (block : W → ℕ → ℕ → D) where
  -- write_page succeeds and has written, or fails and may have spoilt that one page.
  abbrev pub Writes : BufferManager D W → ℕ → ℕ → D → Type 0
  Writes m fd page d =
      ((w' : W) × (write_page os fd (pos page) d m ≡ ok tt (record m { world = w' }))
        × (block w' fd (place m.buffer_size page) ≡ d)
        × SameBut block m.buffer_size fd page m.world w')
      ⊎ ((w' : W) × (write_page os fd (pos page) d m ≡ exception (record m { world = w' }))
          × SameBut block m.buffer_size fd page m.world w')

  pub write_page-Writes :
      (m : BufferManager D W) (fd page : ℕ) (d : D)
      → IsUnix os m.buffer_size block
      → Writes m fd page d
  unfolding write_page
  write_page-Writes m fd page d unix =
      elim (ℤ-cases (os.lseek fd (pos (place m.buffer_size page)) m.world).0) [
        | inr (n, e) ↦ inr (
          (os.lseek fd (pos (place m.buffer_size page)) m.world).1,
          rw (e, write_page),
          λ f p h. unix.seek_keeps fd _ _ _ _,
        )
        | inl (n, e) ↦
            let r =
              os.write fd d m.buffer_size
                (os.lseek fd (pos (place m.buffer_size page)) m.world).1 in
            elim (Bool-cases (int_eq r.0 (pos m.buffer_size))) [
              | inl full ↦ inl (
                r.1,
                rw (e, write_page, full),
                unix.write_sets fd _ n d _ e ((int_eq_iff _ _).0 full),
                λ f p h. unix.write_apart fd _ n d _ f _ e (keys-Apart m.buffer_size fd page f p h),
              )
              | inr short ↦ inr (
                r.1,
                rw (e, write_page, short),
                λ f p h. unix.write_apart fd _ n d _ f _ e (keys-Apart m.buffer_size fd page f p h),
              )
            ]
      ]

  -- read_page succeeds and the buffer holds the page, or fails and the buffer may hold anything.
  abbrev pub Reads : BufferManager D W → ℕ → ℕ → ℕ → Type 0
  Reads m fd page slot =
      ((w' : W) × (read_page os fd page slot m
          ≡ ok tt (record m {
            pool =
                update m.pool slot
                  (record (m.pool slot) { contents = block m.world fd (place m.buffer_size page) });
            world = w';
          }))
        × SameDisk block m.buffer_size m.world w')
      ⊎ ((w' : W) × (d : D) × (read_page os fd page slot m
            ≡ exception (record m {
              pool = update m.pool slot (record (m.pool slot) { contents = d });
              world = w';
            }))
          × SameDisk block m.buffer_size m.world w')

  update_same : (f : ℕ → BufferEntry D) (i : ℕ) → update f i (f i) ≡ f
  update_same f i = fun_ext λ j. ground arith

  pub read_page-Reads :
      (m : BufferManager D W) (fd page slot : ℕ)
      → IsUnix os m.buffer_size block
      → Reads m fd page slot
  unfolding read_page
  read_page-Reads m fd page slot unix =
      elim (ℤ-cases (os.lseek fd (pos (place m.buffer_size page)) m.world).0) [
        | inr (n, e) ↦ inr (
          (os.lseek fd (pos (place m.buffer_size page)) m.world).1,
          (m.pool slot).contents,
          rw (e, read_page, update_same m.pool slot),
          λ f p. unix.seek_keeps fd _ _ _ _,
        )
        | inl (n, e) ↦
            let seek = (os.lseek fd (pos (place m.buffer_size page)) m.world).1 in
            let r = os.read fd m.buffer_size (m.pool slot).contents seek in
            let same : SameDisk block m.buffer_size m.world r.2 =
              λ f p. unix.read_keeps fd _ _ _ f _ ∙ unix.seek_keeps fd _ _ _ _ in
            elim (Bool-cases (int_eq r.0 (pos m.buffer_size))) [
              | inl full ↦ inl (
                r.2,
                rw (
                  e,
                  read_page,
                  full,
                  ← unix.read_gets fd _ n (m.pool slot).contents _ e ((int_eq_iff _ _).0 full),
                ),
                same,
              )
              | inr short ↦ inr (r.2, r.1, rw (e, read_page, short), same)
            ]
      ]

  -- After write_back the disk holds the page of the slot, if it did whenever the slot was not dirty.
  abbrev pub WritesBack : BufferManager D W → ℕ → Type 0
  WritesBack m slot =
      ((w' : W) × (write_back os slot m ≡ ok tt (record m { world = w' }))
        × (block w' (m.pool slot).fd (place m.buffer_size (m.pool slot).page)
            ≡ (m.pool slot).contents)
        × SameBut block m.buffer_size (m.pool slot).fd (m.pool slot).page m.world w')
      ⊎ ((w' : W) × (write_back os slot m ≡ exception (record m { world = w' }))
          × ((m.pool slot).dirty ≡ true)
          × SameBut block m.buffer_size (m.pool slot).fd (m.pool slot).page m.world w')

  pub write_back-WritesBack :
      (m : BufferManager D W) (slot : ℕ)
      → IsUnix os m.buffer_size block
      → ((m.pool slot).dirty ≡ false
          → (m.pool slot).contents
            ≡ block m.world (m.pool slot).fd (place m.buffer_size (m.pool slot).page))
      → WritesBack m slot
  unfolding write_back
  write_back-WritesBack m slot unix clean =
      let e = m.pool slot in
      elim (Bool-cases e.dirty) [
        | inr idle ↦ inl (m.world, rw (idle, write_back), sym (clean idle), λ f p h. refl)
        | inl dirty ↦ elim (write_page-Writes m e.fd e.page e.contents unix) [
          | inl (w', run, sets, apart) ↦ inl (w', rw (dirty, write_back) run, sets, apart)
          | inr (w', run, apart) ↦ inr (w', rw (dirty, write_back) run, dirty, apart)
        ]
      ]
