-- ===== src/Prelude/Memory.antt =====
-- The bytes of a machine, and what the C++ code reads from them: little-endian integers, IEEE
-- numbers, strings, and blocks that are moved.
use Prim.Native.Nat.{ℕ, zero, suc, ◌+◌, ◌-◌, ◌*◌, ◌%◌, ◌^◌}
use mathlib.Core.Bool.{Bool, ◌&&◌, ◌||◌, not}
use alphadb.Prelude.Tests.{◌==◌, ltb, leb, if◌then◌else◌}
use alphadb.Prelude.Int.{ℤ, pos, negsuc, int_eq, int_lt, sub_ℕ}

-- Every address holds a byte.
abbrev pub Memory : Type 0
Memory = ℕ → ℕ

-- n bytes from an address on, the least significant first
unfoldable pub load : Memory → ℕ → ℕ → ℕ
load m zero a = 0
load m (suc n) a = m a % 256 + 256 * load m n (a + 1)

-- a number below 2 * h as a signed one
unfoldable pub signed : ℕ → ℕ → ℤ
signed h x = if ltb x h then pos x else negsuc (2 * h - 1 - x)

unfoldable pub int_at : Memory → ℕ → ℤ
int_at m a = signed (2 ^ 31) (load m 4 a)

unfoldable pub long_at : Memory → ℕ → ℤ
long_at m a = signed (2 ^ 63) (load m 8 a)

unfoldable pub pointer_at : Memory → ℕ → ℕ
pointer_at m a = load m 8 a

-- The bits of an IEEE number, with its sign bit worth h: its place in the order of the numbers, and
-- whether it is none, its magnitude being above the one of infinity.
unfoldable pub place : ℕ → ℕ → ℤ
place h x = if ltb x h then pos x else if x % h == 0 then pos 0 else negsuc (x % h - 1)

unfoldable pub is_nan : ℕ → ℕ → ℕ → Bool
is_nan h infinity x = ltb infinity (x % h)

-- x < y and x == y on IEEE numbers
unfoldable pub ieee_lt : ℕ → ℕ → ℕ → ℕ → Bool
ieee_lt h infinity x y =
    not (is_nan h infinity x || is_nan h infinity y) && int_lt (place h x) (place h y)

unfoldable pub ieee_eq : ℕ → ℕ → ℕ → ℕ → Bool
ieee_eq h infinity x y =
    not (is_nan h infinity x || is_nan h infinity y) && int_eq (place h x) (place h y)

abbrev pub float_infinity : ℕ
float_infinity = 255 * 2 ^ 23

abbrev pub double_infinity : ℕ
double_infinity = 2047 * 2 ^ 52

-- strncmp: the difference of the first bytes that differ, before the end of the strings and among
-- the first n
unfoldable pub strncmp : Memory → ℕ → ℕ → ℕ → ℤ
strncmp m a b zero = pos 0
strncmp m a b (suc n) =
    let rest = strncmp m (a + 1) (b + 1) n in
    if m a == m b then if m a == 0 then pos 0 else rest else sub_ℕ (m a) (m b)

-- memmove(dest, src, len), and memcpy where the blocks do not overlap
unfoldable pub memmove : ℕ → ℕ → ℕ → Memory → Memory
memmove dest src len m a = if leb dest a && ltb a (dest + len) then m (src + (a - dest)) else m a

-- The address p + i * size for an int i.
unfoldable pub element : ℕ → ℤ → ℕ → ℕ
element p (pos i) size = p + i * size
element p (negsuc i) size = p - (i + 1) * size
