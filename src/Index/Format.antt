-- ===== src/Index/Format.antt =====
-- index/b+tree/index_format.cc: the page of a node, which holds RIDs and keys of the same length.
-- Pointers are addresses of one memory; `rids` and `keys` point to arrays, the latter one of
-- pointers to the keys. `count` is not negative and far below 2 ^ 30, so that the sums of ints below
-- do not wrap; an index given to `remove` is not negative.
pub mod Search
pub mod Sorted
pub mod Child
pub mod Space
use alphadb.Prelude.{
  ℕ, zero, suc, ◌+◌, ◌-◌, ◌*◌, ◌/◌, ◌%◌, ◌^◌, Bool, true, false, Option, none, some, ltb, leb, ◌==◌,
  if◌then◌else◌, ◌&&◌,
}
use alphadb.Prelude.Int.{ℤ, pos, negsuc, int_eq, int_lt, sub_ℕ, inc, plus, minus}
use alphadb.Prelude.Memory.{Memory, int_at, pointer_at, memmove, element}
use alphadb.Index.Comparator.{DataType, Tuple, compare}

pub record IndexFormat : Type 0 where
  pub memory : Memory
  pub base : ℕ
  pub rids : ℕ
  pub keys : ℕ
  pub count : ℕ
  pub fanout : ℤ
  pub free_start : ℤ
  pub free_space : ℤ
  pub key_len : ℕ
  pub datatype : DataType

pub record Rid : Type 0 where
  pub page : ℤ
  pub slot : ℤ

abbrev pub default_key_size : ℕ
default_key_size = 4

-- sizeof(rid)
abbrev pub rid_size : ℕ
rid_size = 8

-- keys[i] and rids[i]
unfoldable pub key_at : IndexFormat → ℕ → ℕ
key_at f i = pointer_at f.memory (f.keys + i * 8)

unfoldable pub rid_in : Memory → ℕ → Rid
rid_in m a = record { page = int_at m a; slot = int_at m (a + 4) }

unfoldable pub rid_at : IndexFormat → ℕ → Rid
rid_at f i = rid_in f.memory (f.rids + i * rid_size)

-- The loop of search, at index `i` with `n` entries left; `id` is set if there is an answer.
unfoldable pub search_from : IndexFormat → ℕ → ℕ → ℕ → Option Rid
search_from f key i zero = none
search_from f key i (suc n) =
    let rest = search_from f key (i + 1) n in if key_at f i == key then some (rid_at f i) else rest

-- index_format::search
unfoldable pub search : IndexFormat → ℕ → Option Rid
search f key = search_from f key 0 f.count

-- cmptr->compare({keys[mid], key_len}, {key, key_len})
unfoldable pub compare_at : IndexFormat → ℕ → ℕ → ℤ
compare_at f key mid =
    compare f.memory f.datatype (record { first = key_at f mid; second = f.key_len })
      (record { first = key; second = f.key_len })

-- One round of the loop of find_in_leaf: the answer, or the next bounds.
pub data Round : Type 0 where
  found : ℕ → Round
  onward : ℕ → ℤ → Round

unfoldable pub probe : IndexFormat → ℕ → ℕ → ℕ → Round
probe f key left right =
    let mid : ℕ = (left + right) / 2 in
    let result = compare_at f key mid in
    if int_lt result (pos 0)
    then onward (mid + 1) (pos right)
    else if int_lt (pos 0) result
    then onward left (sub_ℕ mid 1)
    else found mid

-- The loop of find_in_leaf, `fuel` tests of `left <= right` at most; none where they are used up.
unfoldable pub find_loop : IndexFormat → ℕ → ℕ → ℕ → ℤ → Option ℤ
find_loop f key zero left right = none
find_loop f key (suc fuel) left (negsuc right) = some (negsuc 0)
find_loop f key (suc fuel) left (pos right) =
    if leb left right
    then elim (probe f key left right) [
      | found mid ↦ some (pos mid)
      | onward left' right' ↦ find_loop f key fuel left' right'
    ]
    else some (negsuc 0)

-- index_format::find_in_leaf; the test before the loop is the loop's own.
unfoldable pub find_in_leaf : IndexFormat → ℕ → Option ℤ
find_in_leaf f key =
    if int_lt (sub_ℕ f.count 2) (pos 0)
    then some (negsuc 0)
    else find_loop f key (suc f.count) 0 (sub_ℕ f.count 2)

-- The loop of find_in_internal, at index `i` with `n` rounds left. It compares the pointers, and in
-- its second test the one to the array.
unfoldable pub scan_internal : IndexFormat → ℕ → ℕ → ℕ → ℤ
scan_internal f key i zero = negsuc 0
scan_internal f key i (suc n) =
    let rest = scan_internal f key (i + 1) n in
    if ltb (key_at f i) key then rest else if leb f.keys (key_at f i) then pos i else rest

-- What find_in_internal does behind its loop.
unfoldable pub child : IndexFormat → ℕ → ℤ → ℤ
child f key (negsuc _) = sub_ℕ f.count 1
child f key (pos ret) = if key == key_at f ret then pos (ret + 1) else pos ret

-- index_format::find_in_internal; `hdr.count-1` is compared as a size_t.
unfoldable pub find_in_internal : IndexFormat → ℕ → ℤ
find_in_internal f key = child f key (scan_internal f key 0 ((f.count + 2 ^ 64 - 1) % 2 ^ 64))

-- The last three lines of insert and of remove.
unfoldable pub count_up : IndexFormat → IndexFormat
count_up f = record f {
  count = f.count + 1;
  free_start = plus f.free_start (rid_size + default_key_size);
  free_space = minus f.free_space (rid_size + default_key_size);
}

unfoldable pub count_down : IndexFormat → IndexFormat
count_down f = record f {
  count = f.count - 1;
  free_start = minus f.free_start (rid_size + default_key_size);
  free_space = plus f.free_space (rid_size + default_key_size);
}

-- What insert does behind its guard, at position `i`; `id` is the address of the RID.
unfoldable pub make_room : IndexFormat → ℕ → ℕ → ℤ → IndexFormat
make_room f key id i =
    let behind : ℕ = elim i [ pos k ↦ f.count - k | negsuc k ↦ f.count + (k + 1) ] in
    let moved : Memory =
      memmove (element f.base (inc i) rid_size) (element f.base i rid_size)
        (default_key_size * f.count + rid_size * behind) f.memory in
    let placed : Memory = memmove (element f.base i rid_size) id rid_size moved in
    let keys : ℕ = f.keys + rid_size in
    let len2 : ℕ = default_key_size * behind in
    let shifted : Memory = memmove (keys + len2) (keys + len2 + default_key_size) len2 placed in
    count_up (record f { keys = keys; memory = memmove (keys + len2) key default_key_size shifted })

-- index_format::insert
unfoldable pub insert : IndexFormat → ℕ → ℕ → Option (Bool × IndexFormat)
insert f key id = elim (find_in_leaf f key) [
  | none ↦ none
  | some i ↦ if int_eq i (negsuc 0) then some (true, make_room f key id i) else some (false, f)
]

-- What both functions remove do behind their guards; the second block is copied from
-- remove_key_begin.
unfoldable pub close_gap : IndexFormat → ℕ → IndexFormat
close_gap f i =
    let remove_key_end : ℕ = f.base + rid_size * f.count + default_key_size * i in
    let remove_key_begin : ℕ = f.base + rid_size * f.count + default_key_size * (i + 1) in
    let moved : Memory =
      memmove remove_key_end remove_key_begin (default_key_size * (f.count - i - 1)) f.memory in
    let remove_rid_end : ℕ = f.base + rid_size * i in
    let len : ℕ = default_key_size * (f.count - 1) + rid_size * (f.count - i - 1) in
    count_down (record f { memory = memmove remove_rid_end remove_key_begin len moved })

-- index_format::remove(int)
unfoldable pub remove_at : IndexFormat → ℕ → Bool × IndexFormat
remove_at f index = if leb f.count index then (false, f) else (true, close_gap f index)

-- index_format::remove(key_t, const rid&); `find_in_leaf` answers -1 or an index.
unfoldable pub remove : IndexFormat → ℕ → Option (Bool × IndexFormat)
remove f key = elim (find_in_leaf f key) [
  | none ↦ none
  | some (negsuc _) ↦ some (false, f)
  | some (pos i) ↦ some (true, close_gap f i)
]

-- index_format::enough
unfoldable pub enough : IndexFormat → Bool
enough f = ltb 0 f.count
