-- ===== src/Io/Criterion.antt =====
-- The criterion of a scan (io/iterator.cc): the test of a value of a column against the value that
-- the criterion holds.
pub mod Order
use alphadb.Prelude.{ℕ, ◌^◌, Bool, true, false, ◌||◌, Option, none, some, if◌then◌else◌}
use alphadb.Prelude.Int.{ℤ, pos, int_lt, int_eq}
use alphadb.Prelude.Memory.{
  Memory, load, int_at, long_at, ieee_lt, ieee_eq, float_infinity, double_infinity, strncmp,
}
use alphadb.Index.Comparator.{DataType, unknown, int, long, float, double, char, varchar, char_of}

pub data CriterionType : Type 0 where
  not_equal equal less_than less_equal greater_than greater_equal : CriterionType

-- `datatype` and `length` are those of the column's type, `val` is an address.
pub record Criterion : Type 0 where
  pub type : CriterionType
  pub val : ℕ
  pub datatype : DataType
  pub length : ℕ

-- The blocks of internal_eval for the three tests; none where they fall through, so that the end of
-- the function is reached.
unfoldable pub less : Memory → Criterion → ℕ → Option Bool
less m c buf = elim c.datatype [
  | int ↦ some (int_lt (int_at m buf) (int_at m c.val))
  | long ↦ some (int_lt (long_at m buf) (long_at m c.val))
  | float ↦ some (ieee_lt (2 ^ 31) float_infinity (load m 4 buf) (load m 4 c.val))
  | double ↦ some (ieee_lt (2 ^ 63) double_infinity (load m 8 buf) (load m 8 c.val))
  | char ↦ some (int_lt (char_of buf) (char_of c.val))
  | varchar ↦ some (int_lt (strncmp m buf c.val c.length) (pos 0))
  | unknown ↦ none
]

unfoldable pub greater : Memory → Criterion → ℕ → Option Bool
greater m c buf = elim c.datatype [
  | int ↦ some (int_lt (int_at m c.val) (int_at m buf))
  | long ↦ some (int_lt (long_at m c.val) (long_at m buf))
  | float ↦ some (ieee_lt (2 ^ 31) float_infinity (load m 4 c.val) (load m 4 buf))
  | double ↦ some (ieee_lt (2 ^ 63) double_infinity (load m 8 c.val) (load m 8 buf))
  | char ↦ some (int_lt (char_of c.val) (char_of buf))
  | varchar ↦ some (int_lt (pos 0) (strncmp m buf c.val c.length))
  | unknown ↦ none
]

unfoldable pub same : Memory → Criterion → ℕ → Option Bool
same m c buf = elim c.datatype [
  | int ↦ some (int_eq (int_at m buf) (int_at m c.val))
  | long ↦ some (int_eq (long_at m buf) (long_at m c.val))
  | float ↦ some (ieee_eq (2 ^ 31) float_infinity (load m 4 buf) (load m 4 c.val))
  | double ↦ some (ieee_eq (2 ^ 63) double_infinity (load m 8 buf) (load m 8 c.val))
  | char ↦ some (int_eq (char_of buf) (char_of c.val))
  | varchar ↦ some (int_eq (strncmp m buf c.val c.length) (pos 0))
  | unknown ↦ none
]

-- a || b, where the left side may fail to answer
abbrev pub or_else : Option Bool → Option Bool → Option Bool
or_else none b = none
or_else (some true) b = some true
or_else (some false) b = b

-- criterion::internal_eval; none is the end of the function, reached with no return.
unfoldable pub internal_eval : Memory → Criterion → ℕ → CriterionType → Option Bool
internal_eval m c buf less_than = less m c buf
internal_eval m c buf greater_than = greater m c buf
internal_eval m c buf equal = same m c buf
internal_eval m c buf greater_equal = or_else (greater m c buf) (same m c buf)
internal_eval m c buf less_equal = or_else (less m c buf) (same m c buf)
internal_eval m c buf not_equal = none

-- criterion::eval
unfoldable pub eval : Memory → Criterion → ℕ → Option Bool
eval m c buf = internal_eval m c buf c.type
