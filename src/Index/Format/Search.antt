-- ===== src/Index/Format/Search.antt =====
-- The binary search of find_in_leaf: it ends, after logarithmically many rounds, and on sorted keys
-- it is the search of the entries one by one.
use native.Mathlib.Omega.{pow_step}
use alphadb.Prelude.{
  ℕ, zero, suc, ◌+◌, ◌-◌, ◌/◌, ◌^◌, ◌≤◌, ◌<◌, ◌≡◌, refl, ◌⊎◌, inl, inr, true, false, some, arith,
  leb, Bool-cases, leb→le,
}
use alphadb.Prelude.Int.{ℤ, pos, negsuc, int_lt, sub_ℕ}
use alphadb.Index.Format.{IndexFormat, Round, found, onward, probe, find_loop, find_in_leaf}

-- The number of keys between two bounds.
abbrev pub between : ℕ → ℤ → ℕ
between left (pos right) = right + 1 - left
between left (negsuc _) = 0

-- The keys that a leaf counts, the dummy at its end left out.
abbrev pub entries : IndexFormat → ℕ
entries f = f.count - 1

probe-between :
    (f : IndexFormat) (key left right l : ℕ) (r : ℤ)
    → left ≤ right
    → probe f key left right ≡ onward l r
    → between l r ≤ (right + 1 - left) / 2
unfolding probe
probe-between f key left right l (pos r) h e = ground arith
probe-between f key left right l (negsuc r) h e = ground arith

pub below_pow : (n : ℕ) → n < 2 ^ n
below_pow zero = omega arith
below_pow (suc n) = omega (arith, pow_step 2 n, below_pow n)

Round-cases : (x : Round) → ((mid : ℕ) × (x ≡ found mid)) ⊎ ((l : ℕ) × (r : ℤ) × (x ≡ onward l r))
Round-cases (found mid) = inl (mid, refl)
Round-cases (onward l r) = inr (l, r, refl)

module _ (f : IndexFormat) (key : ℕ) where
  -- Whatever is known of every answer, given what is known of the bounds.
  pub find_loop_inv :
      (I : ℕ → ℤ → Type 0) (P : ℤ → Type 0)
      → ((left k : ℕ) → I left (negsuc k) → P (negsuc 0))
      → ((left right : ℕ) → I left (pos right) → right < left → P (negsuc 0))
      → ((left right mid : ℕ)
          → left ≤ right
          → I left (pos right)
          → probe f key left right ≡ found mid
          → P (pos mid))
      → ((left right l : ℕ) (r : ℤ)
          → left ≤ right
          → I left (pos right)
          → probe f key left right ≡ onward l r
          → I l r)
      → (k left : ℕ) (right : ℤ) → between left right < 2 ^ k
      → I left right
      → (r : ℤ) × (find_loop f key (suc k) left right ≡ some r) × P r
  unfolding find_loop
  find_loop_inv I P below past hit keep k left (negsuc right) small inv =
      (negsuc 0, refl, below left right inv)
  find_loop_inv I P below past hit keep zero left (pos right) small inv =
      let outside : leb left right ≡ false = ground arith in
      (negsuc 0, rw outside refl, past left right inv (ground arith))
  find_loop_inv I P below past hit keep (suc k) left (pos right) small inv =
      elim (Bool-cases (leb left right)) [
        | inr outside ↦ (negsuc 0, rw outside refl, past left right inv (ground arith))
        | inl inside ↦
            let h : left ≤ right = leb→le left right inside in
            elim (Round-cases (probe f key left right)) [
              | inl (mid, e) ↦ (pos mid, rw (inside, e) refl, hit left right mid h inv e)
              | inr (l, r, e) ↦
                  let (x, run, answer) =
                    find_loop_inv I P below past hit keep k l r
                      (omega (arith, pow_step 2 k, probe-between f key left right l r h e))
                      (keep left right l r h inv e) in
                  (x, rw (inside, e) run, answer)
            ]
      ]

  -- The loop ends.
  find_loop-ends :
      (k left : ℕ) (right : ℤ)
      → between left right < 2 ^ k
      → (r : ℤ) × (find_loop f key (suc k) left right ≡ some r)
  find_loop-ends k left right small =
      let (r, run, _) =
        find_loop_inv (λ _ _. true ≡ true) (λ _. true ≡ true) (λ _ _ _. refl) (λ _ _ _ _. refl)
          (λ _ _ _ _ _ _. refl) (λ _ _ _ _ _ _ _. refl) k left right small refl in
      (r, run)

  -- Further rounds do not change an answer.
  find_loop-more :
      (k n left : ℕ) (right r : ℤ)
      → k ≤ n
      → find_loop f key k left right ≡ some r
      → find_loop f key n left right ≡ some r
  unfolding find_loop
  find_loop-more zero n left right r h e = absurd (ground arith)
  find_loop-more (suc k) zero left right r h e = absurd (omega arith)
  find_loop-more (suc k) (suc n) left (negsuc right) r h e = e
  find_loop-more (suc k) (suc n) left (pos right) r h e = elim (Bool-cases (leb left right)) [
    | inr outside ↦ rw outside (rw outside at e)
    | inl inside ↦ elim (Round-cases (probe f key left right)) [
      | inl (mid, hit) ↦ rw (inside, hit) (rw (inside, hit) at e)
      | inr (l, x, on) ↦
          rw (inside, on) (find_loop-more k n l x r (omega arith) (rw (inside, on) at e))
    ]
  ]

  -- The test before the loop changes nothing.
  pub find_in_leaf-find_loop :
      (x r : ℤ)
      → sub_ℕ f.count 2 ≡ x
      → find_loop f key (suc f.count) 0 x ≡ some r
      → find_in_leaf f key ≡ some r
  unfolding find_in_leaf find_loop
  find_in_leaf-find_loop (negsuc k) r at e = rw at e
  find_in_leaf-find_loop (pos k) r at e =
      let some_left : int_lt (pos k) (pos 0) ≡ false = ground arith in rw (at, some_left) e

  pub between_all : between 0 (sub_ℕ f.count 2) ≤ entries f
  between_all = ground arith

  pub fuel_lem : entries f < 2 ^ f.count
  fuel_lem = omega (arith, below_pow f.count)

  -- On every page, whatever its keys are, find_in_leaf answers; and if it has fewer than 2 ^ k
  -- entries, the loop run with k + 1 tests of its condition already gives that answer.
  pub find_in_leaf-ends :
      (k : ℕ)
      → entries f < 2 ^ k
      → (r : ℤ) × (find_in_leaf f key ≡ some r)
        × (find_loop f key (suc k) 0 (sub_ℕ f.count 2) ≡ some r)
  find_in_leaf-ends k small =
      let (r, run) = find_loop-ends k 0 (sub_ℕ f.count 2) (ground (arith, between_all)) in
      let (x, all) =
        find_loop-ends f.count 0 (sub_ℕ f.count 2) (ground (arith, between_all, fuel_lem)) in
      elim (Bool-cases (leb k f.count)) [
        | inl fewer ↦ (
          r,
          find_in_leaf-find_loop _ r refl
              (find_loop-more (suc k) (suc f.count) 0 _ r (ground arith) run),
          run,
        )
        | inr more ↦ (
          x,
          find_in_leaf-find_loop _ x refl all,
          find_loop-more (suc f.count) (suc k) 0 _ x (ground arith) all,
        )
      ]
