-- ===== src/Io/Criterion/Order.antt =====
-- What a criterion answers, in the order of the comparator.
use alphadb.Prelude.{
  ℕ, ◌^◌, ◌≡◌, ◌≢◌, Bool, true, false, ◌||◌, not, Option, none, some, arith, min, refl, ◌∙◌,
}
use alphadb.Prelude.Int.{ℤ, pos, negsuc, int_lt, int_eq, One, int_lt-One}
use alphadb.Prelude.Memory.{
  Memory, load, int_at, long_at, is_nan, place, ieee_lt, ieee_eq, float_infinity, double_infinity,
  strncmp,
}
use alphadb.Index.Comparator.{
  DataType, unknown, int, long, float, double, char, varchar, three_way, compare, char_of,
}
use alphadb.Io.Criterion.{
  CriterionType, not_equal, equal, less_than, less_equal, greater_than, greater_equal, Criterion,
  less, greater, same, or_else, internal_eval, eval,
}

-- The answer that a type of criterion asks for, given the sign of a comparison.
abbrev pub asks : CriterionType → ℤ → Bool
asks not_equal r = not (int_eq r (pos 0))
asks equal r = int_eq r (pos 0)
asks less_than r = int_lt r (pos 0)
asks less_equal r = int_lt r (pos 0) || int_eq r (pos 0)
asks greater_than r = int_lt (pos 0) r
asks greater_equal r = not (int_lt r (pos 0))

-- Neither of two addresses holds a NaN of the data type.
unfoldable pub IsNumber : Memory → DataType → ℕ → Type 0
IsNumber m float a = is_nan (2 ^ 31) float_infinity (load m 4 a) ≡ false
IsNumber m double a = is_nan (2 ^ 63) double_infinity (load m 8 a) ≡ false
IsNumber m _ a = true ≡ true

ieee_lt-One :
    (h i x y : ℕ)
    → is_nan h i x ≡ false
    → is_nan h i y ≡ false
    → One (ieee_lt h i x y) (ieee_eq h i x y) (ieee_lt h i y x)
unfolding ieee_lt ieee_eq
ieee_lt-One h i x y a b = rw (a, b) (int_lt-One (place h x) (place h y))

-- What the three tests answer, of which exactly one holds.
combine : CriterionType → Bool → Bool → Bool → Option Bool
combine not_equal l e g = none
combine equal l e g = some e
combine less_than l e g = some l
combine less_equal l e g = or_else (some l) (some e)
combine greater_than l e g = some g
combine greater_equal l e g = or_else (some g) (some e)

combine_lem :
    (t : CriterionType) (l e g : Bool)
    → t ≢ not_equal
    → One l e g
    → combine t l e g ≡ some (asks t (three_way l e g))
unfolding combine
combine_lem not_equal l e g d o = absurd (d refl)
combine_lem equal l e g d o = ground arith
combine_lem less_than l e g d o = ground arith
combine_lem less_equal l e g d o = ground arith
combine_lem greater_than l e g d o = ground arith
combine_lem greater_equal l e g d o = ground arith

text_lem :
    (t : CriterionType) (r : ℤ)
    → t ≢ not_equal
    → combine t (int_lt r (pos 0)) (int_eq r (pos 0)) (int_lt (pos 0) r) ≡ some (asks t r)
unfolding combine
text_lem not_equal r d = absurd (d refl)
text_lem equal r d = refl
text_lem less_than r d = refl
text_lem less_equal (pos n) d = ground arith
text_lem less_equal (negsuc n) d = ground arith
text_lem greater_than r d = refl
text_lem greater_equal (pos n) d = ground arith
text_lem greater_equal (negsuc n) d = ground arith

eval-combine :
    (m : Memory) (c : Criterion) (buf : ℕ) (l e g : Bool)
    → less m c buf ≡ some l
    → same m c buf ≡ some e
    → greater m c buf ≡ some g
    → eval m c buf ≡ combine c.type l e g
unfolding eval internal_eval combine
eval-combine m c buf l e g p q r = elim c.type as (λ t. internal_eval m c buf t ≡ combine t l e g) [
  | not_equal ↦ refl
  | equal ↦ q
  | less_than ↦ p
  | less_equal ↦ rw (p, q) refl
  | greater_than ↦ r
  | greater_equal ↦ rw (r, q) refl
]

min_same : (n : ℕ) → min n n ≡ n
min_same n = omega arith

module _ (m : Memory) (type : CriterionType) (val len buf : ℕ) where
  with_type : DataType → Criterion
  with_type d = record { type = type; val = val; datatype = d; length = len }

  Answers : DataType → Type 0
  Answers d =
      eval m (with_type d) buf
      ≡ some (
          asks type (
            compare m d (record { first = buf; second = len })
              (record { first = val; second = len })))

  by_tests :
      (d : DataType) (l e g : Bool)
      → type ≢ not_equal
      → less m (with_type d) buf ≡ some l
      → same m (with_type d) buf ≡ some e
      → greater m (with_type d) buf ≡ some g
      → One l e g
      → eval m (with_type d) buf ≡ some (asks type (three_way l e g))
  unfolding with_type
  by_tests d l e g t p q r o =
      eval-combine m (with_type d) buf l e g p q r ∙ combine_lem type l e g t o

  answer :
      (d : DataType)
      → d ≢ unknown
      → type ≢ not_equal
      → IsNumber m d buf
      → IsNumber m d val
      → Answers d
  unfolding Answers with_type less same greater compare IsNumber
  answer unknown u t a b = absurd (u refl)
  answer int u t a b =
      by_tests int _ _ _ t refl refl refl (int_lt-One (int_at m buf) (int_at m val))
  answer long u t a b =
      by_tests long _ _ _ t refl refl refl (int_lt-One (long_at m buf) (long_at m val))
  answer float u t a b =
      by_tests float _ _ _ t refl refl refl
        (ieee_lt-One (2 ^ 31) float_infinity (load m 4 buf) (load m 4 val) a b)
  answer double u t a b =
      by_tests double _ _ _ t refl refl refl
        (ieee_lt-One (2 ^ 63) double_infinity (load m 8 buf) (load m 8 val) a b)
  answer char u t a b =
      by_tests char _ _ _ t refl refl refl (int_lt-One (char_of buf) (char_of val))
  answer varchar u t a b = rw (min_same len) (
      eval-combine m (with_type varchar) buf _ _ _ refl refl refl
      ∙ text_lem type (strncmp m buf val len) t)

-- For a known data type, a type of criterion other than NOT_EQUAL, and values that are no NaN, eval
-- answers what the type of the criterion asks of the sign that the comparator of this data type
-- answers.
pub eval-compare :
    (m : Memory) (c : Criterion) (buf : ℕ)
    → c.datatype ≢ unknown
    → c.type ≢ not_equal
    → IsNumber m c.datatype buf
    → IsNumber m c.datatype c.val
    → eval m c buf
      ≡ some (
          asks c.type (
            compare m c.datatype
              (record { first = buf; second = c.length })
              (record { first = c.val; second = c.length })))
unfolding Answers with_type
eval-compare m c buf = answer m c.type c.val c.length buf c.datatype
