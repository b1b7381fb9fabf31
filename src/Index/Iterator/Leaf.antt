-- ===== src/Index/Iterator/Leaf.antt =====
-- The scan of one leaf in ascending order, whose keys are ascending ints.
use alphadb.Prelude.{
  ℕ, zero, suc, ◌+◌, ◌≤◌, ◌<◌, ◌≡◌, ◌≢◌, refl, ap, ◌∙◌, subst, inl, inr, Bool, true, false, some,
  arith, Bool-cases, ltb,
}
use alphadb.Prelude.Int.{ℤ, int_eq, int_eq_iff, int_lt, int_lt_trans, int_lt-One}
use alphadb.Prelude.Memory.{Memory, int_at}
use alphadb.Index.Comparator.{DataType, int, Tuple, compare, three_way}
use alphadb.Io.Criterion.{
  CriterionType, not_equal, equal, less_than, less_equal, greater_than, greater_equal, Criterion,
  eval,
}
use alphadb.Io.Criterion.Order.{asks, eval-compare, IsNumber}
use alphadb.Index.Format.{IndexFormat, key_at}
use alphadb.Index.Format.Search.{entries}
use alphadb.Index.Format.Sorted.{value, IsSorted}
use alphadb.Index.Iterator.{
  stops, can_stop_now, is_type, Scan, hit, stop, past, undefined, scan_leaf,
}

-- What a type of criterion asks of an int and the criterion's.
abbrev pub meets : CriterionType → ℤ → ℤ → Bool
meets t x v = asks t (three_way (int_lt x v) (int_eq x v) (int_lt v x))

-- How a greater int stands to the criterion's.
after_lem :
    (e x v : ℤ)
    → int_lt e x ≡ true
    → (int_lt v e ≡ true → int_lt v x ≡ true)
      × (int_eq e v ≡ true → int_lt v x ≡ true)
      × (int_lt x v ≡ true → int_lt e v ≡ true)
after_lem e x v h = (
  λ p. int_lt_trans v e x p h,
  λ p. subst (λ w. int_lt w x ≡ true) ((int_eq_iff e v).0 p) h,
  λ p. int_lt_trans e x v h p,
)

-- Behind an int that fits, one that does not lets the scan stop,
stops_lem :
    (t : CriterionType) (e x v : ℤ)
    → t ≢ not_equal
    → int_lt e x ≡ true
    → meets t e v ≡ true
    → meets t x v ≡ false
    → stops t false (three_way (int_lt x v) (int_eq x v) (int_lt v x)) ≡ some true
unfolding stops is_type
stops_lem not_equal e x v d h p q = absurd (d refl)
stops_lem equal e x v d h p q = ground (arith, after_lem e x v h, int_lt-One e v, int_lt-One x v)
stops_lem less_than e x v d h p q = ground (arith, int_lt-One x v)
stops_lem less_equal e x v d h p q = ground (arith, int_lt-One x v)
stops_lem greater_than e x v d h p q =
    absurd (ground (arith, after_lem e x v h, int_lt-One e v, int_lt-One x v))
stops_lem greater_equal e x v d h p q =
    absurd (ground (arith, after_lem e x v h, int_lt-One e v, int_lt-One x v))

-- and behind it no greater one fits.
meets-after :
    (t : CriterionType) (e x y v : ℤ)
    → t ≢ not_equal
    → int_lt e x ≡ true
    → int_lt x y ≡ true
    → meets t e v ≡ true
    → meets t x v ≡ false
    → meets t y v ≡ false
meets-after not_equal e x y v d h k p q = absurd (d refl)
meets-after equal e x y v d h k p q =
    ground
      (arith, after_lem e x v h, after_lem x y v k, int_lt-One e v, int_lt-One x v, int_lt-One y v)
meets-after less_than e x y v d h k p q =
    ground (arith, after_lem x y v k, int_lt-One x v, int_lt-One y v)
meets-after less_equal e x y v d h k p q =
    ground (arith, after_lem x y v k, int_lt-One x v, int_lt-One y v)
meets-after greater_than e x y v d h k p q =
    absurd (ground (arith, after_lem e x v h, int_lt-One e v, int_lt-One x v))
meets-after greater_equal e x y v d h k p q =
    absurd (ground (arith, after_lem e x v h, int_lt-One e v, int_lt-One x v))

-- What the loop finds from entry `j` on: `fits` says which entries fit.
unfoldable pub Finds : (ℕ → Bool) → ℕ → ℕ → Scan → Type 0
Finds fits j n (hit r) =
    (j ≤ r) × (r < n) × (fits r ≡ true) × ((i : ℕ) → j ≤ i → i < r → fits i ≡ false)
Finds fits j n (stop _) = (i : ℕ) → j ≤ i → i < n → fits i ≡ false
Finds fits j n past = (i : ℕ) → j ≤ i → i < n → fits i ≡ false
Finds fits j n undefined = ⊥

from_next :
    (fits : ℕ → Bool) (j i : ℕ)
    → j ≤ i
    → fits j ≡ false
    → (j + 1 ≤ i → fits i ≡ false)
    → fits i ≡ false
from_next fits j i h misfit later = elim (Bool-cases (ltb j i)) [
  | inl less ↦ later (ground (arith, less))
  | inr at ↦ let here : j ≡ i = ground arith in subst (λ k. fits k ≡ false) here misfit
]

Finds-before :
    (fits : ℕ → Bool) (j n : ℕ) (s : Scan)
    → fits j ≡ false
    → Finds fits (j + 1) n s
    → Finds fits j n s
unfolding Finds
Finds-before fits j n (hit r) misfit (a, b, c, d) =
    (omega arith, b, c, λ i p q. from_next fits j i p misfit (λ h. d i h q))
Finds-before fits j n (stop _) misfit d = λ i p q. from_next fits j i p misfit (λ h. d i h q)
Finds-before fits j n past misfit d = λ i p q. from_next fits j i p misfit (λ h. d i h q)
Finds-before fits j n undefined misfit d = d

-- Whether the key of an entry meets the criterion.
abbrev pub fits : IndexFormat → Criterion → ℕ → Bool
fits f c i = meets c.type (value f i) (int_at f.memory c.val)

-- Under `found`, an earlier entry fits.
abbrev pub Earlier : IndexFormat → Criterion → Bool → ℕ → Type 0
Earlier f c found j = found ≡ true → (e : ℕ) × (e < j) × (fits f c e ≡ true)

is_type_lem : (t : CriterionType) → t ≢ not_equal → is_type t not_equal ≡ false
unfolding is_type
is_type_lem not_equal d = absurd (d refl)
is_type_lem equal d = refl
is_type_lem less_than d = refl
is_type_lem less_equal d = refl
is_type_lem greater_than d = refl
is_type_lem greater_equal d = refl

-- the comparison of two ints
compare_int :
    (m : Memory) (d : DataType) (s t : Tuple)
    → d ≡ int
    → compare m d s t
      ≡ three_way
          (int_lt (int_at m s.first) (int_at m t.first))
          (int_eq (int_at m s.first) (int_at m t.first))
          (int_lt (int_at m t.first) (int_at m s.first))
unfolding compare
compare_int m d s t type = rw type refl

int-IsNumber : (m : Memory) (d : DataType) (a : ℕ) → d ≡ int → IsNumber m d a
unfolding IsNumber
int-IsNumber m d a type = rw type refl

module _ (f : IndexFormat) (c : Criterion) (type : c.datatype ≡ int) (d : c.type ≢ not_equal) where
  abbrev v : ℤ
  v = int_at f.memory c.val

  eval-fits : (i : ℕ) → eval f.memory c (key_at f i) ≡ some (fits f c i)
  unfolding value
  eval-fits i =
      eval-compare f.memory c (key_at f i) (ground (arith, type)) d
        (int-IsNumber f.memory c.datatype (key_at f i) type)
        (int-IsNumber f.memory c.datatype c.val type)
      ∙ ap (λ r. some (asks c.type r)) (compare_int f.memory c.datatype _ _ type)

  can_stop_now-stops :
      (i : ℕ)
      → can_stop_now f c false (key_at f i)
        ≡ stops c.type false
            (three_way (int_lt (value f i) v) (int_eq (value f i) v) (int_lt v (value f i)))
  unfolding can_stop_now value
  can_stop_now-stops i =
      rw (is_type_lem c.type d) (ap (stops c.type false) (compare_int f.memory c.datatype _ _ type))

  module _ (sorted : IsSorted f) where
    later : (found : Bool) (j : ℕ) → Earlier f c found j → Earlier f c found (j + 1)
    later found j before h = let (e, less, fit) = before h in (e, omega arith, fit)

    -- behind an entry that fits
    stopped :
        (e j : ℕ)
        → e < j
        → j < entries f
        → fits f c e ≡ true
        → fits f c j ≡ false
        → (can_stop_now f c false (key_at f j) ≡ some true)
          × ((i : ℕ) → j ≤ i → i < entries f → fits f c i ≡ false)
    stopped e j less inside fit misfit = (
      can_stop_now-stops j
          ∙ stops_lem c.type (value f e) (value f j) v d (sorted.rising e j less inside) fit misfit,
      λ i p q. from_next (fits f c) j i p misfit (λ h.
          meets-after c.type (value f e) (value f j) (value f i) v d (sorted.rising e j less inside)
            (sorted.rising j i (omega arith) q) fit misfit),
    )

    -- In the leaf of an ascending scan of ints, with strictly ascending keys and a type of
    -- criterion other than NOT_EQUAL, and where found_one is set only if an earlier entry of the
    -- leaf fits: the loop over the entries from j on either answers the first one that fits, or
    -- stops early or ends where none from j on fits; it never reaches code that does not return.
    pub scan_leaf-Finds :
        (found : Bool) (j n : ℕ)
        → j + n ≡ entries f
        → Earlier f c found j
        → Finds (fits f c) j (entries f) (scan_leaf f c false found j n)
    unfolding scan_leaf Finds
    scan_leaf-Finds found j zero e before = λ i p q. absurd (omega arith)
    scan_leaf-Finds false j (suc n) e before = elim (Bool-cases (fits f c j)) [
      | inl fit ↦
          rw (scan_leaf, eval-fits j, fit)
            (omega arith, omega arith, fit, λ i p q. absurd (omega arith))
      | inr misfit ↦
          rw (scan_leaf, eval-fits j, misfit)
            (Finds-before (fits f c) j (entries f) _ misfit
              (scan_leaf-Finds false (j + 1) n (omega arith) (later false j before)))
    ]
    scan_leaf-Finds true j (suc n) e before = elim (Bool-cases (fits f c j)) [
      | inl fit ↦
          rw (scan_leaf, eval-fits j, fit)
            (omega arith, omega arith, fit, λ i p q. absurd (omega arith))
      | inr misfit ↦
          let (first, less, fit) = before refl in
          let (stopping, none_left) = stopped first j less (omega arith) fit misfit in
          rw (scan_leaf, eval-fits j, misfit, stopping) none_left
    ]
