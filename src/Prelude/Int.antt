-- ===== src/Prelude/Int.antt =====
-- Signed integers over the native numbers, and their equality test.
use Prim.Native.Nat.{ℕ, zero, suc, ◌+◌, ◌-◌}
use mathlib.Core.Path.{◌≡◌}
use mathlib.Core.Logic.{◌↔◌, ◌≢◌, ◌⊎◌}
use mathlib.Core.Bool.{Bool, true, false}
use native.Mathlib.Omega.{arith}
use alphadb.Prelude.Tests.{◌==◌, ltb, leb, if◌then◌else◌}

-- `negsuc n` is -(n + 1).
pub data ℤ : Type 0 where
  pos : ℕ → ℤ
  negsuc : ℕ → ℤ

abbrev pub int_eq : ℤ → ℤ → Bool
int_eq (pos a) (pos b) = a == b
int_eq (negsuc a) (negsuc b) = a == b
int_eq _ _ = false

pub int_eq_iff : (a b : ℤ) → (int_eq a b ≡ true) ↔ (a ≡ b)
int_eq_iff (pos a) (pos b) = ground arith
int_eq_iff (negsuc a) (negsuc b) = ground arith
int_eq_iff _ _ = ground arith

-- a - b, as an integer.
abbrev pub sub_ℕ : ℕ → ℕ → ℤ
sub_ℕ a b = if leb b a then pos (a - b) else negsuc (b - a - 1)

-- i++ and i-- on an int
abbrev pub inc : ℤ → ℤ
inc (pos n) = pos (n + 1)
inc (negsuc zero) = pos 0
inc (negsuc (suc k)) = negsuc k

abbrev pub dec : ℤ → ℤ
dec (pos zero) = negsuc 0
dec (pos (suc n)) = pos n
dec (negsuc k) = negsuc (k + 1)

-- the order of two ints
abbrev pub int_lt : ℤ → ℤ → Bool
int_lt (pos a) (pos b) = ltb a b
int_lt (negsuc a) (negsuc b) = ltb b a
int_lt (pos a) (negsuc b) = false
int_lt (negsuc a) (pos b) = true

pub int_lt_trans : (a b c : ℤ) → int_lt a b ≡ true → int_lt b c ≡ true → int_lt a c ≡ true
int_lt_trans (pos a) (pos b) (pos c) h k = ground arith
int_lt_trans (pos a) (pos b) (negsuc c) h k = ground arith
int_lt_trans (pos a) (negsuc b) c h k = ground arith
int_lt_trans (negsuc a) (pos b) (pos c) h k = ground arith
int_lt_trans (negsuc a) (pos b) (negsuc c) h k = ground arith
int_lt_trans (negsuc a) (negsuc b) (pos c) h k = ground arith
int_lt_trans (negsuc a) (negsuc b) (negsuc c) h k = ground arith

pub int_lt_irrefl : (a : ℤ) → int_lt a a ≢ true
int_lt_irrefl (pos a) h = ground arith
int_lt_irrefl (negsuc a) h = ground arith

-- Exactly one of less, equal and greater holds.
abbrev pub One : Bool → Bool → Bool → Type 0
One l e g =
    ((l ≡ true) × (e ≡ false) × (g ≡ false))
    ⊎ ((l ≡ false) × (e ≡ true) × (g ≡ false))
    ⊎ ((l ≡ false) × (e ≡ false) × (g ≡ true))

pub int_lt-One : (a b : ℤ) → One (int_lt a b) (int_eq a b) (int_lt b a)
int_lt-One (pos a) (pos b) = ground arith
int_lt-One (pos a) (negsuc b) = ground arith
int_lt-One (negsuc a) (pos b) = ground arith
int_lt-One (negsuc a) (negsuc b) = ground arith

-- a + n and a - n on an int
abbrev pub plus : ℤ → ℕ → ℤ
plus (pos a) n = pos (a + n)
plus (negsuc a) n = if leb (a + 1) n then pos (n - (a + 1)) else negsuc (a - n)

abbrev pub minus : ℤ → ℕ → ℤ
minus (pos a) n = sub_ℕ a n
minus (negsuc a) n = negsuc (a + n)

pub plus-minus : (a : ℤ) (n k : ℕ) → plus (minus a n) (k + n) ≡ plus a k
plus-minus (pos a) n k = ground arith
plus-minus (negsuc a) n k = ground arith

pub plus-plus : (a : ℤ) (n k : ℕ) → plus (plus a n) k ≡ plus a (n + k)
plus-plus (pos a) n k = ground arith
plus-plus (negsuc a) n k = ground arith
