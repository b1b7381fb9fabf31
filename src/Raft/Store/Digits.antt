-- ===== src/Raft/Store/Digits.antt =====
-- How the numbers of the persistent state are printed, and what is read of them.
use alphadb.Prelude.{
  ℕ, zero, suc, ◌+◌, ◌-◌, ◌*◌, ◌/◌, ◌%◌, ◌≡◌, refl, inl, inr, Bool, true, false, ◌||◌, not, Option,
  none, some, List, [], ◌∷◌, ◌++◌, ◌==◌, ltb, if◌then◌else◌, arith, Bool-cases,
}
use alphadb.Prelude.Int.{ℤ}
use alphadb.Raft.Store.{
  digits, is_digit, is_space, take_digits, skip_space, starts_number, read_digits, read_signed,
  read_int,
}

-- Digits, and nothing else.
abbrev pub Digits : List ℕ → Type 0
Digits [] = Unit {0}
Digits (c ∷ cs) = (is_digit c ≡ true) × Digits cs

pub Digits-append : (cs ds : List ℕ) → Digits cs → Digits ds → Digits (cs ++ ds)
Digits-append [] ds d e = e
Digits-append (c ∷ cs) ds d e = (d.0, Digits-append cs ds d.1 e)

pub digits-Digits : (fuel n : ℕ) → Digits (digits fuel n)
unfolding digits is_digit
digits-Digits zero n = (ground arith, tt)
digits-Digits (suc fuel) n = elim (Bool-cases (ltb n 10)) [
  | inl small ↦ rw (digits, small) (ground arith, tt)
  | inr large ↦
      rw (digits, large)
        (Digits-append (digits fuel (n / 10)) ((48 + n % 10) ∷ []) (digits-Digits fuel (n / 10))
          (ground arith, tt))
]

-- All digits are taken, up to a minus or the end.
pub take_digits-all : (acc : ℕ) (cs : List ℕ) → Digits cs → (take_digits acc cs).1 ≡ []
unfolding take_digits
take_digits-all acc [] d = refl
take_digits-all acc (c ∷ cs) d = rw d.0 (take_digits-all (acc * 10 + (c - 48)) cs d.1)

pub take_digits-minus :
    (acc : ℕ) (cs ds : List ℕ) → Digits cs → (take_digits acc (cs ++ 45 ∷ ds)).1 ≡ 45 ∷ ds
unfolding take_digits is_digit
take_digits-minus acc [] ds d = refl
take_digits-minus acc (c ∷ cs) ds d = rw d.0 (take_digits-minus (acc * 10 + (c - 48)) cs ds d.1)

digit-not_space : (c : ℕ) → is_digit c ≡ true → is_space c ≡ false
unfolding is_digit is_space
digit-not_space c e = ground arith

digit-unsigned : (c : ℕ) → is_digit c ≡ true → (c == 45 ≡ false) × (c == 43 ≡ false)
unfolding is_digit
digit-unsigned c e = (ground arith, ground arith)

-- A text of digits is read to its end or to the minus behind it, unless the number is too large.
abbrev pub Leaves : List ℕ → Option (ℤ × List ℕ) → Type 0
Leaves rest none = Unit {0}
Leaves rest (some (z, cs)) = cs ≡ rest

read_digits-Leaves :
    (minus : Bool) (cs rest : List ℕ)
    → (take_digits 0 cs).1 ≡ rest
    → Leaves rest (read_digits minus cs)
unfolding read_digits
read_digits-Leaves minus cs rest e =
    elim (Bool-cases (
      not (starts_number cs)
      || not (ltb (take_digits 0 cs).0 (if minus then 2147483649 else 2147483648)))) [
        | inl refused ↦ rw refused tt
        | inr taken ↦ rw taken e
      ]

pub read_int-digit :
    (c : ℕ) (cs rest : List ℕ)
    → is_digit c ≡ true
    → (take_digits 0 (c ∷ cs)).1 ≡ rest
    → Leaves rest (read_int (c ∷ cs))
unfolding read_int skip_space read_signed
read_int-digit c cs rest d e =
    rw (digit-not_space c d, (digit-unsigned c d).0, (digit-unsigned c d).1)
      (read_digits-Leaves false (c ∷ cs) rest e)

pub read_int-minus : (cs : List ℕ) → Digits cs → Leaves [] (read_int (45 ∷ cs))
unfolding read_int skip_space read_signed is_space
read_int-minus cs d = read_digits-Leaves true cs [] (take_digits-all 0 cs d)

pub read_int-nothing : read_int [] ≡ none
unfolding read_int skip_space read_signed
read_int-nothing = refl
