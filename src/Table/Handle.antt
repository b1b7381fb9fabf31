-- ===== src/Table/Handle.antt =====
-- table/table_handle.cc over the file handle, whose calls are recorded. `pages` maps a page to the
-- format that is made of it, none where get_this_page throws, and `fresh` is the page that
-- file_handle::allocate_page answers, none if it throws. A page that was just pinned can be unpinned.
-- An operation answers none if its fuel is used up or it ends with no return; otherwise its result, none
-- if it throws, and its calls.
pub mod FirstFit
use alphadb.Prelude.{
  ℕ, zero, suc, ◌+◌, Bool, true, false, Option, none, some, List, [], ◌∷◌, ◌++◌, ltb, if◌then◌else◌,
  map,
}
use alphadb.Prelude.Int.{ℤ, pos, negsuc, int_lt}
use alphadb.Index.Comparator.{Tuple}
use alphadb.Index.Format.{Rid}
use alphadb.Table.Format.{TableFormat, free_space, get, put, remove}

-- file_handle::get_this_page, unpin_page and allocate_page
pub data Call : Type 0 where
  pin : ℤ → Call
  unpin : ℤ → Call
  allocate : Call

abbrev pub Answer : Type 0 → Type 0
Answer A = Option (Option A × List Call)

-- an answer behind a call
abbrev pub after : {A : Type 0} → Call → Answer A → Answer A
after c none = none
after c (some (a, calls)) = some (a, c ∷ calls)

module _ (pages : ℤ → Option TableFormat) where
  -- A page is pinned, its format is used, and it is unpinned.
  unfoldable pub with_page : {A : Type 0} → ℤ → (TableFormat → Option A) → Answer A
  with_page page use_format = elim (pages page) [
    | none ↦ some (none, pin page ∷ [])
    | some f ↦ elim (use_format f) [
      | none ↦ none
      | some a ↦ some (some a, pin page ∷ unpin page ∷ [])
    ]
  ]

  module _ (fresh : Option ℤ) where
    -- The loop of get_next_free and the allocation behind it, `fuel` tests of `e > 0` at most.
    unfoldable pub next_free_from : ℕ → ℤ → ℕ → ℤ → Answer ℤ
    next_free_from zero need seek e = none
    next_free_from (suc fuel) need seek e =
        if int_lt (pos 0) e
        then if ltb 2 seek then some (fresh, allocate ∷ []) else (elim (pages e) [
          | none ↦ some (none, pin e ∷ [])
          | some f ↦
              let rest = next_free_from fuel need (seek + 1) f.next_free in
              if int_lt need (free_space f f.free_lower)
              then some (some e, pin e ∷ [])
              else after (pin e) rest
        ])
        else some (fresh, allocate ∷ [])

    -- table_handle::get_next_free
    unfoldable pub get_next_free : ℕ → ℤ → ℤ → Answer ℤ
    get_next_free fuel first_free need = next_free_from fuel need 0 first_free

    -- table_handle::insert_record of the tuple at an address: the RID, the page as put leaves it, and
    -- the calls.
    unfoldable pub insert_record : ℕ → ℤ → Tuple → Answer (Rid × TableFormat)
    insert_record fuel first_free t = elim (get_next_free fuel first_free (pos t.second)) [
      | none ↦ none
      | some (none, calls) ↦ some (none, calls)
      | some (some page, calls) ↦
          elim (with_page {A = Rid × TableFormat} page (λ f. elim (put fuel f t) [
            | none ↦ none
            | some (slot, g) ↦ some (record { page = page; slot = slot }, g)
          ])) [ none ↦ none | some (r, more) ↦ some (r, calls ++ more) ]
    ]

  -- table_handle::delete_record; the slot of the RID is converted to a uint16_t.
  unfoldable pub delete_record : ℤ → ℕ → Answer (Bool × TableFormat)
  delete_record page slot = with_page page (λ f. remove f slot)

  -- table_handle::get_record: the length of the tuple, which get copies to the address `dest` that the
  -- tuple happens to hold; none for a slot that is not there, where the length is indeterminate.
  unfoldable pub get_record : ℤ → ℕ → ℕ → Answer (TableFormat × ℕ)
  get_record page slot dest = with_page page (λ f. get f slot dest)

  -- table_handle::update_record of the record at a RID: false where nothing is deleted. Behind the
  -- insertion the end of the function is reached with no return: none.
  unfoldable pub update_record : ℤ → ℕ → Answer Bool
  update_record page slot = elim (delete_record page slot) [
    | none ↦ none
    | some (none, calls) ↦ some (none, calls)
    | some (some (false, _), calls) ↦ some (some false, calls)
    | some (some (true, _), _) ↦ none
  ]
