-- ===== src/Io/IoManager/Descriptors.antt =====
-- What becomes of the descriptors that are opened.
use alphadb.Prelude.{
  ℕ, ◌≡◌, refl, inl, inr, true, not, List, [], ◌∷◌, arith, Bool-cases, erase, ◌==◌,
}
use alphadb.Prelude.Int.{ℤ, pos, negsuc, int_eq, int_lt}
use alphadb.Io.Result.{Out, ok, exception, crash}
use alphadb.Io.IoManager.{
  Files, Call, opened, closed, unlinked, System, recorded, close_fd, unlink_file, write_header_page,
  create_file, read_header, open_file, blank_header, buffer_size, header_size,
}

-- The descriptors that are open after a sequence of calls, the last call first, given those that were
-- open before: a descriptor is open until a later call closes it.
unfoldable pub still_open : List Call → List ℕ
still_open [] = []
still_open (opened fd ∷ calls) = fd ∷ still_open calls
still_open (closed fd ∷ calls) = erase fd (still_open calls)
still_open (unlinked name ∷ calls) = still_open calls

-- How a call leaves the descriptors `fds`: on return, and on an exception.
unfoldable pub Leaves : {W A : Type 0} → Out (System W) A → (A → List ℕ) → List ℕ → Type 0
Leaves (ok a s) f g = still_open s.calls ≡ f a
Leaves (exception s) f g = still_open s.calls ≡ g
Leaves crash f g = ⊥

erase-cons : (fd : ℕ) (l : List ℕ) → erase fd (fd ∷ l) ≡ l
unfolding erase
erase-cons fd l = let same : (fd == fd) ≡ true = ground arith in rw same refl

module _ {W : Type 0} (os : Files W) where
  -- The header is written through a descriptor that is closed on every branch.
  write_header_page-Leaves :
      (name fd : ℕ) (w : W) (s : System W)
      → Leaves
          (write_header_page os name fd (recorded os (opened fd) w s))
          (λ _. still_open s.calls)
          (still_open s.calls)
  unfolding write_header_page close_fd unlink_file recorded Leaves still_open
  write_header_page-Leaves name fd w s =
      let wrote : ℤ × W = os.write fd blank_header w in
      elim (Bool-cases (not (int_eq wrote.0 (pos buffer_size)))) [
        | inl partial ↦ rw partial (erase-cons fd (still_open s.calls))
        | inr whole ↦ elim (Bool-cases (int_lt (os.close fd wrote.1).0 (pos 0))) [
          | inl failed ↦ rw (whole, failed) (erase-cons fd (still_open s.calls))
          | inr closes ↦ rw (whole, closes) (erase-cons fd (still_open s.calls))
        ]
      ]

  -- Whatever the calls of the system answer, create_file leaves open exactly the descriptors that
  -- were open before, whether it returns or throws.
  pub create_file-Leaves :
      (name : ℕ) (s : System W)
      → Leaves (create_file os name s) (λ _. still_open s.calls) (still_open s.calls)
  unfolding create_file Leaves
  create_file-Leaves name s =
      elim (os.create name s.world).0
        as (λ r.
          Leaves
            (elim r [
              | negsuc _ ↦ exception (record s { world = (os.create name s.world).1 })
              | pos fd ↦
                  write_header_page os name fd
                    (recorded os (opened fd) (os.create name s.world).1 s)
            ])
            (λ _. still_open s.calls) (still_open s.calls)) [
              | negsuc k ↦ refl
              | pos fd ↦ write_header_page-Leaves name fd (os.create name s.world).1 s
            ]

  read_header-Leaves :
      (fd : ℕ) (l : List ℕ) (s : System W)
      → still_open s.calls ≡ fd ∷ l
      → Leaves (read_header os fd s) (λ a. a.fd ∷ l) (fd ∷ l)
  unfolding read_header Leaves
  read_header-Leaves fd l s e =
      elim (Bool-cases (not (int_eq (os.read fd s.world).0 (pos header_size)))) [
        | inl partial ↦ rw partial e
        | inr whole ↦ rw whole e
      ]

  -- If open_file returns, the descriptor of its answer is open besides those that were; if it throws,
  -- so is the one that open has answered, if any.
  pub open_file-Leaves :
      (name : ℕ) (s : System W)
      → Leaves
          (open_file os name s)
          (λ a. a.fd ∷ still_open s.calls)
          (elim (os.open_rw name s.world).0 [
            | negsuc _ ↦ still_open s.calls
            | pos fd ↦ fd ∷ still_open s.calls
          ])
  unfolding open_file Leaves recorded still_open
  open_file-Leaves name s =
      elim (os.open_rw name s.world).0
        as (λ r.
          Leaves
            (elim r [
              | negsuc _ ↦ exception (record s { world = (os.open_rw name s.world).1 })
              | pos fd ↦ read_header os fd (recorded os (opened fd) (os.open_rw name s.world).1 s)
            ])
            (λ a. a.fd ∷ still_open s.calls)
            (elim r [ negsuc _ ↦ still_open s.calls | pos fd ↦ fd ∷ still_open s.calls ])) [
              | negsuc k ↦ refl
              | pos fd ↦ read_header-Leaves fd (still_open s.calls) _ refl
            ]
