-- ===== src/Tests/Trees.antt =====
-- Pages of an index, and the theorems on them at these pages.
use alphadb.Prelude.{
  ◌*◌, ℕ, zero, suc, ◌+◌, ◌≤◌, ◌<◌, ◌≡◌, refl, true, some, ◌==◌, if◌then◌else◌, arith,
}
use alphadb.Prelude.Int.{ℤ, pos, negsuc, sub_ℕ, int_lt}
use alphadb.Prelude.Memory.{Memory, load, signed, int_at, pointer_at}
use alphadb.Index.Comparator.{int}
use alphadb.Index.Format.{IndexFormat, Rid, key_at, find_in_leaf, find_loop, find_in_internal}
use alphadb.Index.Format.Search.{entries, find_in_leaf-ends}
use alphadb.Index.Format.Sorted.{value, IsSorted, first_equal, find_in_leaf-first_equal}
use alphadb.Index.Format.Child.{IsInternal, Splits, find_in_internal-Splits}
use alphadb.Index.Format.Space.{IsSpaced}
use alphadb.Index.Manager.{IndexHeader, new_header}
use alphadb.Index.Manager.Fanout.{new_header-fits}

-- Two pointers at 100, to the ints 10 and 20, and the int 15 at 208.
abbrev pub bytes : Memory
bytes a =
    if a == 100
    then 200
    else if a == 108
    then 204
    else if a == 200
    then 10
    else if a == 204
    then 20
    else if a == 208
    then 15
    else 0

abbrev pub page : IndexFormat
page = record {
  memory = bytes;
  base = 40;
  rids = 40;
  keys = 100;
  count = 3;
  fanout = pos 100;
  free_start = pos 76;
  free_space = pos 1000;
  key_len = 4;
  datatype = int;
}

page-rising : (i j : ℕ) → i < j → j < entries page → int_lt (value page i) (value page j) ≡ true
unfolding value key_at pointer_at int_at load signed
page-rising zero zero h k = absurd (omega arith)
page-rising zero (suc zero) h k = refl
page-rising zero (suc (suc j)) h k = absurd (omega arith)
page-rising (suc i) zero h k = absurd (omega arith)
page-rising (suc i) (suc zero) h k = absurd (omega arith)
page-rising (suc i) (suc (suc j)) h k = absurd (omega arith)

pub page-IsSorted : IsSorted page
page-IsSorted = record { type = refl; rising = page-rising }

find_in_leaf-ends_example :
    (r : ℤ) × (find_in_leaf page 208 ≡ some r) × (find_loop page 208 3 0 (sub_ℕ 3 2) ≡ some r)
find_in_leaf-ends_example = find_in_leaf-ends page 208 2 (omega arith)

find_in_leaf-first_equal_example :
    find_in_leaf page 208 ≡ some (first_equal page 208 0 (entries page))
find_in_leaf-first_equal_example = find_in_leaf-first_equal page 208 page-IsSorted

page-pointers : (i j : ℕ) → i < j → j < 2 → key_at page i < key_at page j
unfolding key_at pointer_at load
page-pointers zero zero h k = absurd (omega arith)
page-pointers zero (suc zero) h k = omega arith
page-pointers zero (suc (suc j)) h k = absurd (omega arith)
page-pointers (suc i) zero h k = absurd (omega arith)
page-pointers (suc i) (suc zero) h k = absurd (omega arith)
page-pointers (suc i) (suc (suc j)) h k = absurd (omega arith)

page-behind : (i : ℕ) → i < 2 → 100 ≤ key_at page i
unfolding key_at pointer_at load
page-behind zero h = omega arith
page-behind (suc zero) h = omega arith
page-behind (suc (suc i)) h = absurd (omega arith)

page-IsInternal : IsInternal page
page-IsInternal = record {
  some_child = omega arith;
  small = omega arith;
  rising = page-pointers;
  behind = page-behind;
}

find_in_internal-Splits_example :
    (r : ℕ) × (find_in_internal page 202 ≡ pos r) × Splits page 202 2 r
find_in_internal-Splits_example = find_in_internal-Splits page 202 page-IsInternal

page-IsSpaced : IsSpaced 40 (pos 1036) page
page-IsSpaced = record { used = refl; left = refl }

abbrev pub root : Rid
root = record { page = pos 5; slot = negsuc 0 }

new_header-fits_example :
    (h : IndexHeader) × (new_header 1 (pos 1) 4 ≡ some h)
    × (h.fanout * h.pair_size ≤ 4092)
    × (4092 < (h.fanout + 1) * h.pair_size)
    × (4 ≤ 8 → 4076 < h.fanout * h.pair_size)
new_header-fits_example = new_header-fits 1 (pos 1) 4 (omega arith)
