-- ===== src/Index/Format/Sorted.antt =====
-- The search of a leaf whose keys are ints in ascending order.
use alphadb.Prelude.{
  ℕ, zero, suc, ◌+◌, ◌/◌, ◌≤◌, ◌<◌, ◌≡◌, ◌≢◌, refl, ap, sym, ◌∙◌, ◌⊎◌, inl, inr, Bool, true, false,
  some, arith, ltb, if◌then◌else◌, Bool-cases, ltb→lt, subst,
}
use alphadb.Prelude.Int.{
  ℤ, pos, negsuc, int_eq, int_eq_iff, int_lt, int_lt_trans, int_lt_irrefl, int_lt-One, sub_ℕ, One,
}
use alphadb.Prelude.Memory.{int_at}
use alphadb.Index.Comparator.{int, compare, three_way}
use alphadb.Index.Format.{IndexFormat, key_at, compare_at, found, onward, probe, find_in_leaf}
use alphadb.Index.Format.Search.{
  entries, between_all, fuel_lem, find_loop_inv, find_in_leaf-find_loop,
}

-- The int that a key points to.
unfoldable pub value : IndexFormat → ℕ → ℤ
value f i = int_at f.memory (key_at f i)

pub record IsSorted (f : IndexFormat) : Type 0 where
  pub type : f.datatype ≡ int
  pub rising : (i j : ℕ) → i < j → j < entries f → int_lt (value f i) (value f j) ≡ true

-- The entries one by one: the first of the n keys from i on that compares as equal, or -1.
unfoldable pub first_equal : IndexFormat → ℕ → ℕ → ℕ → ℤ
first_equal f key i zero = negsuc 0
first_equal f key i (suc n) =
    let rest = first_equal f key (i + 1) n in
    if int_eq (compare_at f key i) (pos 0) then pos i else rest

-- Where an int stands among the first n keys.
unfoldable Stands : IndexFormat → ℤ → ℕ → ℤ → Type 0
Stands f v n (pos i) = (i < n) × (value f i ≡ v) × ((j : ℕ) → j < i → value f j ≢ v)
Stands f v n (negsuc zero) = (j : ℕ) → j < n → value f j ≢ v
Stands f v n (negsuc (suc _)) = ⊥

Stands-unique :
    (f : IndexFormat) (v : ℤ) (n : ℕ) (r s : ℤ) → Stands f v n r → Stands f v n s → r ≡ s
unfolding Stands
Stands-unique f v n (pos i) (pos j) (a, e, p) (b, d, q) = ground (arith, p j, q i)
Stands-unique f v n (pos i) (negsuc zero) (a, e, p) q = absurd (q i a e)
Stands-unique f v n (negsuc zero) (pos i) q (a, e, p) = absurd (q i a e)
Stands-unique f v n (negsuc zero) (negsuc zero) p q = refl
Stands-unique f v n (pos i) (negsuc (suc _)) p q = absurd q
Stands-unique f v n (negsuc zero) (negsuc (suc _)) p q = absurd q
Stands-unique f v n (negsuc (suc _)) s q _ = absurd q

signs :
    (l e g : Bool)
    → One l e g
    → (int_lt (three_way l e g) (pos 0) ≡ l)
      × (int_lt (pos 0) (three_way l e g) ≡ g)
      × (int_eq (three_way l e g) (pos 0) ≡ e)
signs l e g o = ground arith

module _ (f : IndexFormat) (key : ℕ) (type : f.datatype ≡ int) where
  abbrev v : ℤ
  v = int_at f.memory key

  compare_at-signs :
      (i : ℕ)
      → (int_lt (compare_at f key i) (pos 0) ≡ int_lt (value f i) v)
        × (int_lt (pos 0) (compare_at f key i) ≡ int_lt v (value f i))
        × (int_eq (compare_at f key i) (pos 0) ≡ int_eq (value f i) v)
  unfolding compare_at compare value key_at
  compare_at-signs i = rw type (signs _ _ _ (int_lt-One (value f i) v))

  equal_value : (i : ℕ) → int_eq (compare_at f key i) (pos 0) ≡ true → value f i ≡ v
  equal_value i same = (int_eq_iff _ _).0 (sym (compare_at-signs i).2 ∙ same)

  extend :
      (i : ℕ)
      → int_eq (compare_at f key i) (pos 0) ≡ false
      → ((j : ℕ) → j < i → value f j ≢ v)
      → (j : ℕ) → j < i + 1
      → value f j ≢ v
  extend i other before j h e = elim (Bool-cases (ltb j i)) [
    | inl less ↦ before j (ltb→lt j i less) e
    | inr at ↦
        let here : j ≡ i = ground arith in
        let same : int_eq (value f i) v ≡ true =
          (int_eq_iff _ _).1 (subst (λ k. value f k ≡ v) here e) in
        ground (arith, (compare_at-signs i).2, same, other)
  ]

  -- The scan, given that the keys before i differ.
  first_equal-Stands :
      (i n k : ℕ)
      → i + n ≡ k
      → ((j : ℕ) → j < i → value f j ≢ v)
      → Stands f v k (first_equal f key i n)
  unfolding first_equal Stands
  first_equal-Stands i zero k e before = λ j h. before j (omega arith)
  first_equal-Stands i (suc n) k e before =
      elim (Bool-cases (int_eq (compare_at f key i) (pos 0))) [
        | inl same ↦ rw same (omega arith, equal_value i same, before)
        | inr other ↦
            rw other (first_equal-Stands (i + 1) n k (omega arith) (extend i other before))
      ]

  -- The bounds of the binary search: the keys before `left` are less, those behind `right` greater.
  unfoldable Bounds : ℕ → ℤ → Type 0
  Bounds left (pos right) =
      (right < entries f)
      × ((j : ℕ) → j < left → int_lt (value f j) v ≡ true)
      × ((j : ℕ) → right < j → j < entries f → int_lt v (value f j) ≡ true)
  Bounds left (negsuc _) = (j : ℕ) → j < entries f → int_lt v (value f j) ≡ true

  less-≢ : (j : ℕ) → int_lt (value f j) v ≡ true → value f j ≢ v
  less-≢ j h e = int_lt_irrefl v (subst (λ x. int_lt x v ≡ true) e h)

  greater-≢ : (j : ℕ) → int_lt v (value f j) ≡ true → value f j ≢ v
  greater-≢ j h e = int_lt_irrefl v (subst (λ x. int_lt v x ≡ true) e h)

  probe-found :
      (left right mid : ℕ)
      → probe f key left right ≡ found mid
      → (mid ≡ (left + right) / 2)
        × (int_lt (value f mid) v ≡ false)
        × (int_lt v (value f mid) ≡ false)
  unfolding probe
  probe-found left right mid e = ground (arith, compare_at-signs ((left + right) / 2), e)

  probe-onward :
      (left right l : ℕ) (r : ℤ)
      → probe f key left right ≡ onward l r
      → ((l ≡ (left + right) / 2 + 1)
          × (r ≡ pos right)
          × (int_lt (value f ((left + right) / 2)) v ≡ true))
        ⊎ ((l ≡ left)
            × (r ≡ sub_ℕ ((left + right) / 2) 1)
            × (int_lt v (value f ((left + right) / 2)) ≡ true))
  unfolding probe
  probe-onward left right l r e = ground (arith, compare_at-signs ((left + right) / 2), e)

module _ (f : IndexFormat) (key : ℕ) (sorted : IsSorted f) where
  abbrev w : ℤ
  w = int_at f.memory key

  past-Stands :
      (left right : ℕ)
      → Bounds f key sorted.type left (pos right)
      → right < left
      → Stands f w (entries f) (negsuc 0)
  unfolding Bounds Stands
  past-Stands left right (_, less, more) h j inside = elim (Bool-cases (ltb j left)) [
    | inl before ↦ less-≢ f key sorted.type j (less j (ltb→lt j left before))
    | inr behind ↦ greater-≢ f key sorted.type j (more j (ground arith) inside)
  ]

  below-Stands :
      (left k : ℕ) → Bounds f key sorted.type left (negsuc k) → Stands f w (entries f) (negsuc 0)
  unfolding Bounds Stands
  below-Stands left k more j inside = greater-≢ f key sorted.type j (more j inside)

  found-Stands :
      (left right mid : ℕ)
      → left ≤ right
      → Bounds f key sorted.type left (pos right)
      → probe f key left right ≡ found mid
      → Stands f w (entries f) (pos mid)
  unfolding Bounds Stands
  found-Stands left right mid h (inside, less, more) e =
      let (at, p, q) = probe-found f key sorted.type left right mid e in
      let same : value f mid ≡ w =
        (int_eq_iff _ _).0 (ground (arith, int_lt-One (value f mid) w, p, q)) in
      (
        omega arith,
        same,
        λ j before. less-≢ f key sorted.type j (
            subst (λ x. int_lt (value f j) x ≡ true) same
              (sorted.rising j mid before (omega arith))),
      )

  rising_from :
      (m j : ℕ) → m < entries f → j ≤ m → int_lt (value f m) w ≡ true → int_lt (value f j) w ≡ true
  rising_from m j inside h p = elim (Bool-cases (ltb j m)) [
    | inl before ↦
        int_lt_trans (value f j) (value f m) w (sorted.rising j m (ltb→lt j m before) inside) p
    | inr at ↦ let here : m ≡ j = ground arith in subst (λ k. int_lt (value f k) w ≡ true) here p
  ]

  rising_to :
      (m j : ℕ) → j < entries f → m ≤ j → int_lt w (value f m) ≡ true → int_lt w (value f j) ≡ true
  rising_to m j inside h p = elim (Bool-cases (ltb m j)) [
    | inl behind ↦
        int_lt_trans w (value f m) (value f j) p (sorted.rising m j (ltb→lt m j behind) inside)
    | inr at ↦ let here : m ≡ j = ground arith in subst (λ k. int_lt w (value f k) ≡ true) here p
  ]

  Bounds-before :
      (left m : ℕ)
      → m < entries f
      → int_lt w (value f m) ≡ true
      → ((j : ℕ) → j < left → int_lt (value f j) w ≡ true)
      → Bounds f key sorted.type left (sub_ℕ m 1)
  unfolding Bounds
  Bounds-before left zero inside p less = λ j h. rising_to 0 j h (omega arith) p
  Bounds-before left (suc m) inside p less =
      let e : sub_ℕ (suc m) 1 ≡ pos m = ground arith in
      rw e (omega arith, less, λ j h k. rising_to (suc m) j k (omega arith) p)

  Bounds-start : (x : ℤ) → sub_ℕ f.count 2 ≡ x → Bounds f key sorted.type 0 x
  unfolding Bounds
  Bounds-start (pos r) e =
      (ground arith, λ j h. absurd (omega arith), λ j h k. absurd (ground arith))
  Bounds-start (negsuc r) e = λ j h. absurd (ground arith)

  onward-Bounds :
      (left right l : ℕ) (r : ℤ)
      → left ≤ right
      → Bounds f key sorted.type left (pos right)
      → probe f key left right ≡ onward l r
      → Bounds f key sorted.type l r
  unfolding Bounds
  onward-Bounds left right l r h b e = elim (probe-onward f key sorted.type left right l r e) [
    | inl (a, c, p) ↦
        rw (a, c) (b.0, λ j before. rising_from _ j (omega (arith, b.0)) (omega arith) p, b.2)
    | inr (a, c, p) ↦ rw (a, c) (Bounds-before left _ (omega (arith, b.0)) p b.1)
  ]

-- On a page whose keys are ints in strictly ascending order, find_in_leaf ends and answers what the
-- scan of the entries one by one answers: the first key that compares as equal, or -1.
pub find_in_leaf-first_equal :
    (f : IndexFormat) (key : ℕ)
    → IsSorted f
    → find_in_leaf f key ≡ some (first_equal f key 0 (entries f))
find_in_leaf-first_equal f key sorted =
    let (r, run, stands) =
      find_loop_inv f key (Bounds f key sorted.type) (Stands f (int_at f.memory key) (entries f))
        (below-Stands f key sorted) (past-Stands f key sorted) (found-Stands f key sorted)
        (onward-Bounds f key sorted) f.count 0 (sub_ℕ f.count 2)
        (ground (arith, between_all f key, fuel_lem f key)) (Bounds-start f key sorted _ refl) in
    find_in_leaf-find_loop f key (sub_ℕ f.count 2) r refl run
    ∙ ap some (
        Stands-unique f (int_at f.memory key) (entries f) r _ stands (
          first_equal-Stands f key sorted.type 0 (entries f) (entries f) (omega arith)
            (λ j h. absurd (omega arith))))
