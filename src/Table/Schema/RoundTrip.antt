-- ===== src/Table/Schema/RoundTrip.antt =====
-- The columns that write_schema has written, read from where they stand.
use alphadb.Prelude.{ℕ, ◌+◌, ◌^◌, ◌<◌, ◌≡◌, refl, true, false, List, [], ◌∷◌, length, arith, ◌==◌}
use alphadb.Prelude.Memory.{Memory}
use alphadb.Table.Schema.{Column, write}

-- The memory holds bytes from an address on.
unfoldable Holds : Memory → ℕ → List ℕ → Type 0
Holds m a [] = true ≡ true
Holds m a (b ∷ bs) = (m a ≡ b) × Holds m (a + 1) bs

write-above : (bs : List ℕ) (at a : ℕ) (m : Memory) → a < at → write bs at m a ≡ m a
unfolding write
write-above [] at a m h = refl
write-above (b ∷ bs) at a m h =
    let other : (a == at) ≡ false = ground arith in
    rw other (write-above bs (at + 1) a m (omega arith))

-- A column that fits its fields.
pub record IsColumn (c : Column) : Type 0 where
  pub name : length c.name < 2 ^ 31
  pub type : c.type < 2 ^ 31
  pub length : c.length < 2 ^ 63

-- The columns of a list that fit.
unfoldable pub AllColumns : List Column → Type 0
AllColumns [] = true ≡ true
AllColumns (c ∷ cs) = IsColumn c × AllColumns cs
