-- ===== src/Table/Format.antt =====
-- table/table_format.cc: the page of the records of a table. `base`, `end` and `offsets` are addresses;
-- the count is not negative.
pub mod Slots
use alphadb.Prelude.{
  ℕ, zero, suc, ◌+◌, ◌-◌, ◌*◌, ◌/◌, ◌%◌, ◌^◌, Bool, true, false, Option, none, some, ltb, leb, ◌==◌,
  if◌then◌else◌,
}
use alphadb.Prelude.Int.{ℤ, pos, negsuc, int_eq, int_lt, sub_ℕ, plus, minus, dec, inc}
use alphadb.Prelude.Memory.{Memory, load, memmove, element}
use alphadb.Index.Comparator.{DataType, Tuple, compare}

pub record TableFormat : Type 0 where
  pub memory : Memory
  pub base : ℕ
  pub end : ℕ
  pub offsets : ℕ
  pub next_free : ℤ
  pub count : ℕ
  pub free_lower : ℤ
  pub free_upper : ℤ
  pub datatype : DataType

-- 4096 - sizeof(table_page_hdr) - 4
abbrev pub page_size : ℕ
page_size = 4076

-- sizeof(slot_ptr_t)
abbrev pub slot_size : ℕ
slot_size = 2

-- offsets[i], for an int
unfoldable pub offset_at : TableFormat → ℤ → ℕ
offset_at f i = load f.memory 2 (element f.offsets i slot_size)

-- table_format::get, which copies to the address `dest` and answers the length, a uint16_t; none is
-- false.
unfoldable pub get : TableFormat → ℕ → ℕ → Option (TableFormat × ℕ)
get f ptr dest =
    let len : ℕ =
      if ptr == 0
      then (page_size + 2 ^ 16 - offset_at f (pos 0)) % 2 ^ 16
      else (offset_at f (pos (ptr - 1)) + 2 ^ 16 - offset_at f (pos ptr)) % 2 ^ 16 in
    if leb f.count ptr
    then none
    else some
        (record f { memory = memmove dest (f.base + offset_at f (pos ptr)) len f.memory }, len)

-- The length that find gives to tuple `i`, an int that compare takes as a size_t.
unfoldable pub length_at : TableFormat → ℤ → ℕ
length_at f i =
    let above : ℕ = if int_eq i (pos 0) then page_size else offset_at f (dec i) in
    (above + 2 ^ 64 - offset_at f i) % 2 ^ 64

-- cmptr->compare(tt, t) < 0
unfoldable pub less_at : TableFormat → Tuple → ℤ → Bool
less_at f t i =
    int_lt
      (compare f.memory f.datatype
        (record { first = f.base + offset_at f i; second = length_at f i }) t)
      (pos 0)

-- The loop of find, which counts down; `fuel` tests of `i < n` at most, none where they are used up.
unfoldable pub find_from : ℕ → TableFormat → Tuple → ℤ → Option ℤ
find_from zero f t i = none
find_from (suc fuel) f t i =
    let rest = find_from fuel f t (dec i) in
    if int_lt i (pos f.count) then if less_at f t i then some i else rest else some (negsuc 0)

-- table_format::find
unfoldable pub find : ℕ → TableFormat → Tuple → Option ℤ
find fuel f t = find_from fuel f t (pos 0)

-- table_format::free_space
unfoldable pub free_space : TableFormat → ℤ → ℤ
free_space f (pos lower) = minus f.free_upper lower
free_space f (negsuc lower) = plus f.free_upper (lower + 1)

-- The last lines of put, and of remove, which gives back `len` bytes.
unfoldable pub taken : TableFormat → ℕ → TableFormat
taken f len = record f {
  count = f.count + 1;
  free_lower = plus f.free_lower slot_size;
  free_upper = minus f.free_upper len;
}

unfoldable pub given_back : TableFormat → ℤ → TableFormat
given_back f len = record f {
  count = f.count - 1;
  free_lower = minus f.free_lower slot_size;
  free_upper = elim len [ pos n ↦ plus f.free_upper n | negsuc n ↦ minus f.free_upper (n + 1) ];
}

-- put behind the last tuple: the offset is written as an int of four bytes.
unfoldable pub write_int : ℕ → ℕ → Memory → Memory
write_int at x m a =
    if leb at a then if ltb a (at + 4) then x / 256 ^ (a - at) % 256 else m a else m a

unfoldable pub append : TableFormat → Tuple → Memory
append f t =
    let dest : ℕ = f.base + offset_at f (sub_ℕ f.count 1) - t.second in
    write_int (f.base + f.count * slot_size) (dest - f.base)
      (memmove dest t.first t.second f.memory)

-- put in front of tuple `i`; a block of a negative length cannot be moved: none.
unfoldable pub write_slot : ℕ → ℕ → Memory → Memory
write_slot at x m a = if a == at then x % 256 else if a == at + 1 then x / 256 % 256 else m a

unfoldable pub squeeze_in : TableFormat → Tuple → ℤ → Option Memory
squeeze_in f t i =
    let last : ℕ = offset_at f (sub_ℕ f.count 1) in
    let move_end : ℕ = f.base + last - t.second in
    let slots : ℕ = elim i [ pos k ↦ f.count - k | negsuc k ↦ f.count + k + 1 ] in
    let m : Memory = memmove move_end (f.base + last) (last - offset_at f (dec i)) f.memory in
    let m' : Memory = memmove (f.base + offset_at f i) t.first t.second m in
    let array : ℕ = element f.base i slot_size in
    let m'' : Memory = memmove (element f.base (inc i) slot_size) array (slots * slot_size) m' in
    if ltb last (offset_at f (dec i)) then none else some (write_slot array (move_end - f.base) m'')

-- What put does with the tuple at the index that find has answered.
unfoldable pub put_at : TableFormat → Tuple → ℤ → Option (ℤ × TableFormat)
put_at f t i =
    if int_eq i (pos f.count)
    then some (i, taken (record f { memory = append f t }) t.second)
    else elim (squeeze_in f t i) [
      | none ↦ none
      | some m ↦ some (i, taken (record f { memory = m }) t.second)
    ]

-- table_format::put; none where find does not end or a block cannot be moved.
unfoldable pub put : ℕ → TableFormat → Tuple → Option (ℤ × TableFormat)
put fuel f t =
    if int_lt (free_space f f.free_lower) (pos (slot_size + t.second))
    then some (negsuc 0, f)
    else elim (find fuel f t) [ none ↦ none | some i ↦ put_at f t i ]

-- The blocks that remove moves if the tuple is not the last one; the first one must not have a negative
-- length.
unfoldable pub cut_out : TableFormat → ℕ → Option Memory
cut_out f ptr =
    let from : ℕ = f.base + offset_at f (pos ptr) in
    let to : ℕ = if ltb 1 ptr then f.base + offset_at f (pos (ptr - 1)) else f.end in
    let m : Memory = memmove to from (to - from) f.memory in
    if ltb to from
    then none
    else some (
        memmove (f.base + offset_at f (pos ptr)) (f.base + offset_at f (pos (ptr + 1)))
          ((f.count - ptr - 1) * slot_size) m)

-- table_format::remove; the offsets are read again behind the moves.
unfoldable pub remove : TableFormat → ℕ → Option (Bool × TableFormat)
remove f ptr =
    if leb f.count ptr
    then some (false, f)
    else if ptr == f.count - 1
    then some
        (true, given_back f (sub_ℕ (offset_at f (sub_ℕ f.count 2)) (offset_at f (sub_ℕ f.count 1))))
    else elim (cut_out f ptr) [
      | none ↦ none
      | some m ↦
          let g : TableFormat = record f { memory = m } in
          some (true, given_back g (sub_ℕ (offset_at g (sub_ℕ ptr 1)) (offset_at g (pos ptr))))
    ]
