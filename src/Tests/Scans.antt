-- ===== src/Tests/Scans.antt =====
-- Criteria, scans and tables, and the theorems on them at these.
use alphadb.Prelude.{
  ◌++◌, List, Option, ℕ, ◌≡◌, refl, true, false, some, [], ◌∷◌, arith, if◌then◌else◌, ◌==◌,
}
use alphadb.Prelude.Int.{ℤ, pos, negsuc, int_eq}
use alphadb.Prelude.Memory.{Memory, load, is_nan}
use alphadb.Index.Comparator.{int, float, compare}
use alphadb.Io.Criterion.{less_than, greater_equal, Criterion, eval}
use alphadb.Io.Criterion.Order.{asks, IsNumber, eval-compare}
use alphadb.Index.Format.Search.{entries}
use alphadb.Index.Iterator.{scan_leaf}
use alphadb.Index.Iterator.Leaf.{fits, Finds, scan_leaf-Finds}
use alphadb.Table.Format.{TableFormat}
use alphadb.Table.Schema.{Column}
use alphadb.Tests.Trees.{page, page-IsSorted}

-- The float 1.0 at 300.
abbrev floats : ℕ → ℕ
floats a = if a == 302 then 128 else if a == 303 then 63 else 0

abbrev small_floats : Criterion
small_floats = record { type = less_than; val = 400; datatype = float; length = 4 }

eval-compare_example :
    eval floats small_floats 300
    ≡ some (
        asks less_than (
          compare floats float
            (record { first = 300; second = 4 })
            (record { first = 400; second = 4 })))
unfolding IsNumber is_nan load
eval-compare_example =
    eval-compare floats small_floats 300 (λ e. ground (arith, e)) (λ e. ground (arith, e)) refl refl

-- x >= 15
abbrev from_15 : Criterion
from_15 = record { type = greater_equal; val = 208; datatype = int; length = 4 }

scan_leaf-Finds_example :
    Finds (fits page from_15) 0 (entries page) (scan_leaf page from_15 false false 0 2)
scan_leaf-Finds_example =
    scan_leaf-Finds page from_15 refl (λ e. ground (arith, e)) page-IsSorted false 0 2 refl
      (λ e. absurd (ground (arith, e)))

-- Pages with 8 free bytes; the list of free pages is 3, 4, and then its end.
abbrev pages : ℤ → Option TableFormat
pages e = some record {
  memory = λ _. 0;
  base = 0;
  end = 4076;
  offsets = 0;
  next_free = if int_eq e (pos 3) then pos 4 else negsuc 0;
  count = 1;
  free_lower = pos 2;
  free_upper = pos 10;
  datatype = int;
}

-- The columns "id" and "age" of ints.
abbrev id_column : Column
id_column = record { name = 105 ∷ 100 ∷ []; type = 1; length = 4; nullable = false }

abbrev age_column : Column
age_column = record { name = 97 ∷ 103 ∷ 101 ∷ []; type = 1; length = 4; nullable = true }

-- The same names with their terminators.
abbrev terminated : Column → Column
terminated c = record c { name = c.name ++ 0 ∷ [] }

abbrev table_columns : List Column
table_columns = terminated id_column ∷ terminated age_column ∷ []
