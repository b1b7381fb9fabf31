-- ===== src/Table/Schema.antt =====
-- The columns of a table in its file: table/schema.h, and write_schema with read_schema of
-- table/table_manager.cc. A column's name is the array of chars that its pointer stands for, as far as
-- the array goes, its type the number of the enumerator.
pub mod RoundTrip
use alphadb.Prelude.{
  ℕ, zero, suc, ◌+◌, ◌-◌, ◌*◌, ◌/◌, ◌%◌, Bool, true, false, Option, none, some, List, [], ◌∷◌, ◌++◌,
  length, ltb, leb, ◌==◌, get_elem?, if◌then◌else◌, not,
}
use alphadb.Prelude.Int.{ℤ, pos, negsuc}
use alphadb.Prelude.Memory.{Memory, load, int_at}

-- column_definition with its column_type; `length` is not negative.
pub record Column : Type 0 where
  pub name : List ℕ
  pub type : ℕ
  pub length : ℕ
  pub nullable : Bool

-- The n bytes of a number, the least significant first.
unfoldable pub bytes_of : ℕ → ℕ → List ℕ
bytes_of zero v = []
bytes_of (suc n) v = v % 256 ∷ bytes_of n (v / 256)

-- memcpy of bytes to an address
unfoldable pub write : List ℕ → ℕ → Memory → Memory
write [] at m a = m a
write (b ∷ bs) at m a = if a == at then b else write bs (at + 1) m a

-- The bytes of a column whose name has no terminator, one block behind the other, and of all columns.
unfoldable pub column_bytes : Column → List ℕ
column_bytes c =
    bytes_of 4 (length c.name)
    ++ (c.name
        ++ (bytes_of 4 c.type ++ (bytes_of 8 c.length ++ (if c.nullable then 1 else 0) ∷ [])))

unfoldable pub columns_bytes : List Column → List ℕ
columns_bytes [] = []
columns_bytes (c ∷ cs) = column_bytes c ++ columns_bytes cs

-- The chars of an array before its terminator, as strlen counts them; without one, strlen reads past
-- the array: none.
unfoldable pub c_string : List ℕ → Option (List ℕ)
c_string [] = none
c_string (b ∷ bs) =
    let rest = c_string bs in
    if b == 0 then some [] else elim rest [ none ↦ none | some s ↦ some (b ∷ s) ]

-- What is written of the columns: their names without the terminator.
unfoldable pub stored : List Column → Option (List Column)
stored [] = some []
stored (c ∷ cs) = elim (c_string c.name) [
  | none ↦ none
  | some s ↦ elim (stored cs) [ none ↦ none | some ds ↦ some (record c { name = s } ∷ ds) ]
]

-- table_manager::write_schema: the number of columns, and then, from offset 0 on again, the columns.
unfoldable pub write_schema : List Column → ℕ → Memory → Option Memory
write_schema cs dst m = elim (stored cs) [
  | none ↦ none
  | some ds ↦ some (write (columns_bytes ds) dst (write (bytes_of 4 (length cs)) dst m))
]

-- n bytes from an address on
unfoldable pub cells : ℕ → ℕ → Memory → List ℕ
cells zero a m = []
cells (suc n) a m = m a ∷ cells n (a + 1) m

-- The column behind an address, whose name is a new array of len chars, and the address behind it.
unfoldable pub read_rest : ℕ → ℕ → Memory → Column × ℕ
read_rest len a m = (
  record {
    name = cells len (a + 4) m;
    type = load m 4 (a + 4 + len);
    length = load m 8 (a + 4 + len + 4);
    nullable = not (m (a + 4 + len + 4 + 8) == 0);
  },
  a + 4 + len + 4 + 8 + 1,
)

-- One round of the loop of read_schema; an array of a negative length cannot be made: none.
unfoldable pub read_column : ℕ → Memory → Option (Column × ℕ)
read_column a m = elim (int_at m a) [ pos len ↦ some (read_rest len a m) | negsuc _ ↦ none ]

-- n rounds
unfoldable pub read_columns : ℕ → ℕ → Memory → Option (List Column)
read_columns zero a m = some []
read_columns (suc n) a m = elim (read_column a m) [
  | none ↦ none
  | some (c, b) ↦ elim (read_columns n b m) [ none ↦ none | some cs ↦ some (c ∷ cs) ]
]

-- table_manager::read_schema
unfoldable pub read_schema : ℕ → Memory → Option (List Column)
read_schema src m = elim (int_at m src) [
  | negsuc _ ↦ some []
  | pos size ↦ read_columns size (src + 4) m
]
