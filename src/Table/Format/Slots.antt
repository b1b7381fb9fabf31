-- ===== src/Table/Format/Slots.antt =====
-- Which slot put takes, and the count of the slots.
use alphadb.Prelude.{
  ℕ, zero, suc, ◌+◌, ◌*◌, ◌<◌, ◌≡◌, refl, ap, sym, ◌⊎◌, inl, inr, false, some, arith, Bool-cases,
  Option-cases, some-pair, subst,
}
use alphadb.Prelude.Int.{ℤ, pos, negsuc, int_eq, int_lt}
use alphadb.Prelude.Memory.{Memory}
use alphadb.Index.Comparator.{Tuple}
use alphadb.Table.Format.{
  TableFormat, find, find_from, less_at, free_space, put, put_at, squeeze_in, taken, slot_size,
}

-- Slot 0 of a page that holds a tuple, or a negative number.
abbrev pub Front : TableFormat → ℤ → Type 0
Front f r = ((r ≡ pos 0) × (0 < f.count)) ⊎ ((k : ℕ) × (r ≡ negsuc k))

find_from-Front :
    (fuel : ℕ) (f : TableFormat) (t : Tuple) (i r : ℤ)
    → (i ≡ pos 0) ⊎ ((k : ℕ) × (i ≡ negsuc k))
    → find_from fuel f t i ≡ some r
    → Front f r
unfolding find_from
find_from-Front zero f t i r at e = absurd (ground arith)
find_from-Front (suc fuel) f t (pos zero) r at e =
    elim (Bool-cases (int_lt (pos 0) (pos f.count))) [
      | inr empty ↦ inr (0, ground (arith, rw empty at e))
      | inl more ↦ elim (Bool-cases (less_at f t (pos 0))) [
        | inl less ↦ inl (ground (arith, rw (more, less) at e), ground arith)
        | inr other ↦ find_from-Front fuel f t (negsuc 0) r (inr (0, refl)) (rw (more, other) at e)
      ]
    ]
find_from-Front (suc fuel) f t (pos (suc k)) r at e = absurd (ground arith)
find_from-Front (suc fuel) f t (negsuc k) r at e = elim (Bool-cases (less_at f t (negsuc k))) [
  | inl less ↦ inr (k, ground (arith, rw less at e))
  | inr other ↦ find_from-Front fuel f t (negsuc (k + 1)) r (inr (k + 1, refl)) (rw other at e)
]

-- The bytes of the slots, from `start` on.
pub record IsCounted (start : ℕ) (f : TableFormat) : Type 0 where
  pub lower : f.free_lower ≡ pos (start + 2 * f.count)

taken-IsCounted :
    (start len : ℕ) (m : Memory) (f : TableFormat)
    → IsCounted start f
    → IsCounted start (taken (record f { memory = m }) len)
unfolding taken
taken-IsCounted start len m f v = record { lower = rw v.lower (ap pos (omega arith)) }

-- What put_at leaves behind a slot at the front.
put_at-IsCounted :
    (start : ℕ) (f g : TableFormat) (t : Tuple) (i r : ℤ)
    → IsCounted start f
    → Front f i
    → put_at f t i ≡ some (r, g)
    → (r ≡ i) × IsCounted start g × (g.count ≡ f.count + 1)
unfolding put_at taken
put_at-IsCounted start f g t i r v front e =
    let middle : int_eq i (pos f.count) ≡ false = ground (arith, front) in
    elim (Option-cases (squeeze_in f t i)) [
      | inl n ↦ absurd (ground (arith, rw (put_at, middle, n) at e))
      | inr (m, n) ↦
          let (same, left) = some-pair i r _ g (rw (put_at, middle, n) at e) in
          (
            sym same,
            subst (IsCounted start) left (taken-IsCounted start t.second m f v),
            sym (ap (λ h. h.count) left),
          )
    ]

-- If put returns on a page whose slots are counted, they are counted again; it answers slot 0 of a page
-- that holds a tuple or a negative number, and -1 with no change unless there is a tuple more.
pub put-IsCounted :
    (start fuel : ℕ) (f g : TableFormat) (t : Tuple) (r : ℤ)
    → IsCounted start f
    → put fuel f t ≡ some (r, g)
    → IsCounted start g × Front f r × (((r ≡ negsuc 0) × (g ≡ f)) ⊎ (g.count ≡ f.count + 1))
unfolding put find
put-IsCounted start fuel f g t r v e =
    elim (Bool-cases (int_lt (free_space f f.free_lower) (pos (slot_size + t.second)))) [
      | inl full ↦
          let (none_taken, same) = some-pair (negsuc 0) r f g (rw (put, full) at e) in
          (subst (IsCounted start) same v, inr (0, sym none_taken), inl (sym none_taken, sym same))
      | inr room ↦ elim (Option-cases (find fuel f t)) [
        | inl n ↦ absurd (ground (arith, rw (put, room, n) at e))
        | inr (i, n) ↦
            let front : Front f i = find_from-Front fuel f t (pos 0) i (inl refl) n in
            let (same, counted, more) =
              put_at-IsCounted start f g t i r v front (rw (put, room, n) at e) in
            (counted, subst (Front f) (sym same) front, inr more)
      ]
    ]
