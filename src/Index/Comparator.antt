-- ===== src/Index/Comparator.antt =====
-- index/b+tree/comparator.cc: the comparison of two values of a data type, which are given by the
-- address of the value (of a CHAR: by the value, in place of an address) and its size.
use alphadb.Prelude.{ℕ, ◌%◌, ◌^◌, Bool, min, if◌then◌else◌}
use alphadb.Prelude.Int.{ℤ, pos, negsuc, int_lt, int_eq}
use alphadb.Prelude.Memory.{
  Memory, load, signed, int_at, long_at, ieee_lt, ieee_eq, float_infinity, double_infinity, strncmp,
}

pub data DataType : Type 0 where
  unknown int long float double char varchar : DataType

-- std::pair<void*, size_t>
pub record Tuple : Type 0 where
  pub first : ℕ
  pub second : ℕ

-- The three tests of a data type, in the order of the code; with none of them true, the end of
-- compare is reached.
abbrev pub three_way : Bool → Bool → Bool → ℤ
three_way less equal greater =
    if less then negsuc 0 else if equal then pos 0 else if greater then pos 1 else pos 0

-- reinterpret_cast<char>(p)
unfoldable pub char_of : ℕ → ℤ
char_of p = signed 128 (p % 256)

-- comparator::compare
unfoldable pub compare : Memory → DataType → Tuple → Tuple → ℤ
compare m int s t =
    three_way (int_lt (int_at m s.first) (int_at m t.first))
      (int_eq (int_at m s.first) (int_at m t.first)) (int_lt (int_at m t.first) (int_at m s.first))
compare m long s t =
    three_way (int_lt (long_at m s.first) (long_at m t.first))
      (int_eq (long_at m s.first) (long_at m t.first))
      (int_lt (long_at m t.first) (long_at m s.first))
compare m float s t =
    three_way (ieee_lt (2 ^ 31) float_infinity (load m 4 s.first) (load m 4 t.first))
      (ieee_eq (2 ^ 31) float_infinity (load m 4 s.first) (load m 4 t.first))
      (ieee_lt (2 ^ 31) float_infinity (load m 4 t.first) (load m 4 s.first))
compare m double s t =
    three_way (ieee_lt (2 ^ 63) double_infinity (load m 8 s.first) (load m 8 t.first))
      (ieee_eq (2 ^ 63) double_infinity (load m 8 s.first) (load m 8 t.first))
      (ieee_lt (2 ^ 63) double_infinity (load m 8 t.first) (load m 8 s.first))
compare m char s t =
    three_way (int_lt (char_of s.first) (char_of t.first))
      (int_eq (char_of s.first) (char_of t.first)) (int_lt (char_of t.first) (char_of s.first))
compare m varchar s t = strncmp m s.first t.first (min s.second t.second)
compare m unknown s t = pos 0
