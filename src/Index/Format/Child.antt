-- ===== src/Index/Format/Child.antt =====
-- The child of an internal node that find_in_internal chooses, where the keys are ordered by their
-- addresses, which is what it compares.
use alphadb.Prelude.{
  ℕ, zero, suc, ◌+◌, ◌-◌, ◌%◌, ◌^◌, ◌≤◌, ◌<◌, ◌≡◌, refl, sym, inl, inr, true, arith, ltb, leb,
  Bool-cases, subst, ◌==◌,
}
use alphadb.Prelude.Int.{ℤ, pos, negsuc}
use alphadb.Index.Format.{IndexFormat, key_at, scan_internal, child, find_in_internal}

-- An internal node: its keys, the dummy at the end left out, in the order of their addresses, and
-- behind the array of pointers.
pub record IsInternal (f : IndexFormat) : Type 0 where
  pub some_child : 0 < f.count
  pub small : f.count < 2 ^ 31
  pub rising : (i j : ℕ) → i < j → j < f.count - 1 → key_at f i < key_at f j
  pub behind : (i : ℕ) → i < f.count - 1 → f.keys ≤ key_at f i

-- Child r of n + 1: the keys before it are at most the one looked for, those from it on are above.
abbrev pub Splits : IndexFormat → ℕ → ℕ → ℕ → Type 0
Splits f key n r =
    (r ≤ n) × ((i : ℕ) → i < r → key_at f i ≤ key) × ((i : ℕ) → r ≤ i → i < n → key < key_at f i)

unfoldable Scanned : IndexFormat → ℕ → ℕ → ℤ → Type 0
Scanned f key n (pos r) = (r < n) × (key ≤ key_at f r) × ((j : ℕ) → j < r → key_at f j < key)
Scanned f key n (negsuc _) = (j : ℕ) → j < n → key_at f j < key

module _ (f : IndexFormat) (key k : ℕ) (behind : (i : ℕ) → i < k → f.keys ≤ key_at f i) where
  scan_internal-Scanned :
      (i n : ℕ)
      → i + n ≡ k
      → ((j : ℕ) → j < i → key_at f j < key)
      → Scanned f key k (scan_internal f key i n)
  unfolding scan_internal Scanned
  scan_internal-Scanned i zero e before = λ j h. before j (omega arith)
  scan_internal-Scanned i (suc n) e before = elim (Bool-cases (ltb (key_at f i) key)) [
    | inl less ↦
        let upto : (j : ℕ) → j < i + 1 → key_at f j < key = λ j h. ground (arith, before j) in
        rw less (scan_internal-Scanned (i + 1) n (omega arith) upto)
    | inr other ↦
        let here : leb f.keys (key_at f i) ≡ true = ground (arith, behind i (omega arith)) in
        rw (other, here) (omega arith, ground arith, before)
  ]

-- The answer, from what the scan has found.
child-Splits :
    (f : IndexFormat) (key : ℕ) (x : ℤ)
    → IsInternal f
    → Scanned f key (f.count - 1) x
    → (r : ℕ) × (child f key x ≡ pos r) × Splits f key (f.count - 1) r
unfolding child Scanned
child-Splits f key (negsuc _) v all = (
  f.count - 1,
  ground (arith, v.some_child),
  (omega arith, λ i h. ground (arith, all i h), λ i h k. absurd (omega arith)),
)
child-Splits f key (pos r) v (inside, at, before) = elim (Bool-cases (key == key_at f r)) [
  | inl same ↦ (
    r + 1,
    rw same refl,
    (omega arith, λ i h. ground (arith, at, before i), λ i h k. ground (arith, at, v.rising r i)),
  )
  | inr other ↦ (
    r,
    rw other refl,
    (omega arith, λ i h. ground (arith, at, before i), λ i h k. ground (arith, at, v.rising r i)),
  )
]

-- In an internal node of at least one child and fewer than 2 ^ 31, whose key pointers ascend and
-- lie behind the array of the pointers, find_in_internal answers the child before which the
-- pointers are at most the one given and from which on they are above it.
pub find_in_internal-Splits :
    (f : IndexFormat) (key : ℕ)
    → IsInternal f
    → (r : ℕ) × (find_in_internal f key ≡ pos r) × Splits f key (f.count - 1) r
unfolding find_in_internal
find_in_internal-Splits f key v =
    let rounds : (f.count + 2 ^ 64 - 1) % 2 ^ 64 ≡ f.count - 1 =
      omega (arith, v.some_child, v.small) in
    subst
      (λ n.
        (r : ℕ) × (child f key (scan_internal f key 0 n) ≡ pos r) × Splits f key (f.count - 1) r)
      (sym rounds)
      (child-Splits f key _ v (
        scan_internal-Scanned f key (f.count - 1) v.behind 0 (f.count - 1) (omega arith)
          (λ j h. absurd (omega arith))))
