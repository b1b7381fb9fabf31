-- ===== src/Table/Handle/FirstFit.antt =====
-- get_next_free as a first fit among the first pages of the free list.
use alphadb.Prelude.{ℕ, zero, suc, none, Option, some, List, [], ◌∷◌, if◌then◌else◌}
use alphadb.Prelude.Int.{ℤ, pos, int_lt}
use alphadb.Table.Format.{TableFormat, free_space}
use alphadb.Table.Handle.{Call, pin, allocate}

module _ (pages : ℤ → Option TableFormat) (fresh : Option ℤ) where
  -- The first n pages of the list that starts at a page, which ends at a page that cannot be read, or
  -- at a number that is no page of a record.
  unfoldable pub free_list : ℕ → ℤ → List ℤ
  free_list zero e = []
  free_list (suc n) e =
      if int_lt (pos 0) e
      then e ∷ (elim (pages e) [ none ↦ [] | some f ↦ free_list n f.next_free ])
      else []

  -- The first page of a list with more than `need` bytes, an exception at a page that cannot be read
  -- before it, or else a fresh page, with the calls that look at the pages one by one.
  unfoldable pub first_fit : ℤ → List ℤ → Option ℤ × List Call
  first_fit need [] = (fresh, allocate ∷ [])
  first_fit need (e ∷ l) = elim (pages e) [
    | none ↦ (none, pin e ∷ [])
    | some f ↦
        if int_lt need (free_space f f.free_lower)
        then (some e, pin e ∷ [])
        else ((first_fit need l).0, pin e ∷ (first_fit need l).1)
  ]
