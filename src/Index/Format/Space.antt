-- ===== src/Index/Format/Space.antt =====
-- The bookkeeping of the space on an index page, and when insert and remove answer true.
use alphadb.Prelude.{
  ℕ, zero, suc, ◌+◌, ◌-◌, ◌*◌, ◌<◌, ◌≡◌, refl, ap, ◌∙◌, ◌⊎◌, inl, inr, Bool, some, arith,
  if◌then◌else◌, Bool-cases, not,
}
use alphadb.Prelude.Int.{ℤ, pos, negsuc, int_eq, plus, plus-minus, plus-plus}
use alphadb.Index.Format.{
  IndexFormat, insert, remove, make_room, close_gap, count_up, count_down, compare_at,
}
use alphadb.Index.Format.Search.{entries}
use alphadb.Index.Format.Sorted.{IsSorted, first_equal, find_in_leaf-first_equal}

-- Twelve bytes for an entry: the used ones from `start` on, and with them `room` in all.
pub record IsSpaced (start : ℕ) (room : ℤ) (f : IndexFormat) : Type 0 where
  pub used : f.free_start ≡ pos (start + 12 * f.count)
  pub left : plus f.free_space (12 * f.count) ≡ room

pub count_up-IsSpaced :
    (start : ℕ) (room : ℤ) (f : IndexFormat)
    → IsSpaced start room f
    → IsSpaced start room (count_up f)
unfolding count_up
count_up-IsSpaced start room f v = record {
  used = rw v.used (ap pos (omega arith));
  left =
      let e : 12 * (f.count + 1) ≡ 12 * f.count + 12 = omega arith in
      rw e (plus-minus f.free_space 12 (12 * f.count) ∙ v.left);
}

pub count_down-IsSpaced :
    (start : ℕ) (room : ℤ) (f : IndexFormat)
    → 0 < f.count
    → IsSpaced start room f
    → IsSpaced start room (count_down f)
unfolding count_down
count_down-IsSpaced start room f some_entry v = record {
  used = rw v.used (ground arith);
  left =
      plus-plus f.free_space 12 (12 * (f.count - 1))
      ∙ ap (plus f.free_space) (omega (arith, some_entry))
      ∙ v.left;
}

-- The scan answers -1 or an index.
first_equal-cases :
    (f : IndexFormat) (key i n k : ℕ)
    → i + n ≡ k
    → (first_equal f key i n ≡ negsuc 0) ⊎ ((r : ℕ) × (first_equal f key i n ≡ pos r) × (r < k))
unfolding first_equal
first_equal-cases f key i zero k e = inl refl
first_equal-cases f key i (suc n) k e = elim (Bool-cases (int_eq (compare_at f key i) (pos 0))) [
  | inl same ↦ inr (i, rw same refl, omega arith)
  | inr other ↦ rw other (first_equal-cases f key (i + 1) n k (omega arith))
]

-- No key of the page compares as equal.
abbrev pub absent : IndexFormat → ℕ → Bool
absent f key = int_eq (first_equal f key 0 (entries f)) (negsuc 0)

-- On a page with ascending int keys whose counters agree, insert answers whether the key was
-- absent, the counters agree again, and the count has grown by one exactly if it was.
pub insert-IsSpaced :
    (start : ℕ) (room : ℤ) (f : IndexFormat) (key id : ℕ)
    → IsSorted f
    → IsSpaced start room f
    → (g : IndexFormat) × (insert f key id ≡ some (absent f key, g))
      × IsSpaced start room g
      × (g.count ≡ f.count + (if absent f key then 1 else 0))
unfolding insert make_room count_up
insert-IsSpaced start room f key id sorted v =
    elim (first_equal-cases f key 0 (entries f) (entries f) (omega arith)) [
      | inl e ↦ (
        make_room f key id (negsuc 0),
        rw (insert, find_in_leaf-first_equal f key sorted, e) refl,
        count_up-IsSpaced start room _ (record { used = v.used; left = v.left }),
        rw e refl,
      )
      | inr (r, e, h) ↦
          (f, rw (insert, find_in_leaf-first_equal f key sorted, e) refl, v, rw e (omega arith))
    ]

-- On a page with ascending int keys whose counters agree, remove by key answers whether the key was
-- there, the counters agree again, and the count has shrunk by one exactly if it was.
pub remove-IsSpaced :
    (start : ℕ) (room : ℤ) (f : IndexFormat) (key : ℕ)
    → IsSorted f
    → IsSpaced start room f
    → (g : IndexFormat) × (remove f key ≡ some (not (absent f key), g))
      × IsSpaced start room g
      × (g.count + (if absent f key then 0 else 1) ≡ f.count)
unfolding remove close_gap count_down
remove-IsSpaced start room f key sorted v =
    elim (first_equal-cases f key 0 (entries f) (entries f) (omega arith)) [
      | inl e ↦
          (f, rw (remove, find_in_leaf-first_equal f key sorted, e) refl, v, rw e (omega arith))
      | inr (r, e, h) ↦ (
        close_gap f r,
        rw (remove, find_in_leaf-first_equal f key sorted, e) refl,
        count_down-IsSpaced start room _ (omega (arith, h))
            (record { used = v.used; left = v.left }),
        rw e (omega (arith, h)),
      )
    ]
