-- ===== src/Index/Iterator.antt =====
-- index/b+tree/index_iterator.cc: the scan of the leaves with a criterion. A leaf is the page id that
-- its pointer stands for.
pub mod Leaf
pub mod Start
use alphadb.Prelude.{
  ℕ, zero, suc, ◌+◌, ◌-◌, ◌%◌, ◌^◌, Bool, true, false, not, ◌&&◌, ◌||◌, Option, none, some,
  if◌then◌else◌,
}
use alphadb.Prelude.Int.{ℤ, pos, negsuc, int_eq, int_lt, sub_ℕ}
use alphadb.Index.Comparator.{DataType, compare}
use alphadb.Io.Criterion.{
  CriterionType, not_equal, equal, less_than, less_equal, greater_than, greater_equal, Criterion,
  eval,
}
use alphadb.Index.Format.{IndexFormat, Rid, key_at, rid_at}
use alphadb.Index.Tree.{
  Tree, find_leaf_node, find_smallest_leaf_node, find_largest_leaf_node, null_rid, rid_of,
}

-- `start` and `end` are the page ids of the leaves, none for nullptr.
pub record IndexIterator : Type 0 where
  pub criterion : Criterion
  pub descending : Bool
  pub now : Rid
  pub next_is_null : Bool
  pub found_one : Bool
  pub start : Option Rid
  pub end : Option Rid

-- the test `criterion_.type == criterion_type::...`
unfoldable pub is_type : CriterionType → CriterionType → Bool
is_type not_equal not_equal = true
is_type equal equal = true
is_type less_than less_than = true
is_type less_equal less_equal = true
is_type greater_than greater_than = true
is_type greater_equal greater_equal = true
is_type _ _ = false

-- The tests of can_stop_now behind the first one, on the sign of the comparison; none is the end of
-- the function, reached with no return.
unfoldable pub stops : CriterionType → Bool → ℤ → Option Bool
stops type descending cmp =
    let negative : Bool = int_lt cmp (pos 0) in
    let is_zero : Bool = int_eq cmp (pos 0) in
    if is_type type equal && not is_zero
    then some true
    else if is_type type greater_equal && negative && descending
    then some true
    else if is_type type greater_than && (negative || is_zero) && descending
    then some true
    else if is_type type less_equal && int_lt (pos 0) cmp && not descending
    then some true
    else if is_type type less_than && not negative && not descending
    then some true
    else none

-- index_iterator::can_stop_now, of the key at an address in the memory of a leaf
unfoldable pub can_stop_now : IndexFormat → Criterion → Bool → ℕ → Option Bool
can_stop_now f c descending at =
    if is_type c.type not_equal
    then some false
    else stops c.type descending (
        compare f.memory c.datatype (record { first = at; second = c.length })
          (record { first = c.val; second = c.length }))

-- How the loop over the entries of a leaf ends: at an entry that fits, at one behind which nothing
-- fits, behind the last entry, or in code that does not return.
pub data Scan : Type 0 where
  hit : ℕ → Scan
  stop : ℕ → Scan
  past : Scan
  undefined : Scan

-- The loop of next over the entries of a leaf, at entry `j` with `n` left.
unfoldable pub scan_leaf : IndexFormat → Criterion → Bool → Bool → ℕ → ℕ → Scan
scan_leaf f c descending found_one j zero = past
scan_leaf f c descending found_one j (suc n) =
    let rest = scan_leaf f c descending found_one (j + 1) n in
    elim (eval f.memory c (key_at f j)) [
      | none ↦ undefined
      | some true ↦ hit j
      | some false ↦
          if found_one
          then elim (can_stop_now f c descending (key_at f j)) [
            | none ↦ undefined
            | some true ↦ stop j
            | some false ↦ rest
          ]
          else rest
    ]

-- The leaves at which the constructor starts and ends. A call of the tree that does not return, a
-- type of criterion for which start_ is not set, and an empty tree, whose leaf is a null pointer that
-- is followed: none.
unfoldable pub range : Tree → Criterion → Bool → Option (Option Rid × Option Rid)
range t c descending =
    let at : Option (Option Rid) = elim (find_leaf_node t c.val) [
      | none ↦ none
      | some (l, _) ↦ some l
    ] in
    let smallest : Option (Option Rid) = elim (find_smallest_leaf_node t) [
      | none ↦ none
      | some (l, _) ↦ some l
    ] in
    let largest : Option (Option Rid) = elim (find_largest_leaf_node t) [
      | none ↦ none
      | some (l, _) ↦ some l
    ] in
    let both : Option (Option Rid) → Option (Option Rid) → Option (Option Rid × Option Rid) =
      λ a b. elim a [ none ↦ none | some x ↦ elim b [ none ↦ none | some y ↦ some (x, y) ] ] in
    elim c.type [
      | greater_equal ↦ if descending then both largest at else both at largest
      | greater_than ↦ if descending then both largest at else both at largest
      | less_equal ↦ both smallest at
      | less_than ↦ both smallest at
      | equal ↦ none
      | not_equal ↦ none
    ]

-- index_iterator::index_iterator; slots are ints, and `nodes` maps a leaf to the format in its object.
unfoldable pub new : (ℤ → IndexFormat) → Tree → Criterion → Bool → Option IndexIterator
new nodes t c descending = elim (range t c descending) [
  | none ↦ none
  | some (none, _) ↦ none
  | some (some start, end) ↦ some record {
    criterion = c;
    descending = descending;
    now = record {
      page = start.page;
      slot = if descending then sub_ℕ (nodes start.page).count 2 else pos 0;
    };
    next_is_null = true;
    found_one = false;
    start = some start;
    end = end;
  }
]

-- What a round of the loop of next leaves: an answer, or the next leaf.
pub data Turn : Type 0 where
  answer : Rid → IndexIterator → Turn
  go_on : Rid → IndexIterator → Turn
  broken : Turn

-- One round of the loop of next, at the leaf `current`; the slot of `now_` is converted to a size_t,
-- and so is size() - 1.
unfoldable pub turn : (ℤ → IndexFormat) → IndexIterator → Rid → Turn
turn nodes it current = elim it.end [
  | none ↦ broken
  | some end ↦
      let f : IndexFormat = nodes current.page in
      let last : Bool = if int_eq current.page end.page then true else it.next_is_null in
      let from : ℕ = elim it.now.slot [ pos s ↦ s | negsuc s ↦ 2 ^ 64 - 1 - s ] in
      let upto : ℕ = (f.count + 2 ^ 64 - 1) % 2 ^ 64 in
      elim (scan_leaf f it.criterion it.descending it.found_one from (upto - from)) [
        | hit j ↦
            answer (record { page = current.page; slot = pos j })
              (record it {
                next_is_null = last;
                found_one = true;
                now = record { page = it.now.page; slot = pos j };
              })
        | stop j ↦
            answer (record { page = negsuc 1; slot = negsuc 1 })
              (record it { next_is_null = last; now = record { page = it.now.page; slot = pos j } })
        | past ↦
            let next : Rid = rid_of f (sub_ℕ f.count 1) in
            go_on next (record it { next_is_null = last; now = next })
        | undefined ↦ broken
      ]
]

-- The loop of next, `fuel` rounds at most.
unfoldable pub next_from :
    ℕ → (ℤ → IndexFormat) → IndexIterator → Rid → Option (Rid × IndexIterator)
next_from zero nodes it current = none
next_from (suc fuel) nodes it current =
    if it.next_is_null then some (null_rid, it) else elim (turn nodes it current) [
      | answer r it' ↦ some (r, it')
      | go_on next it' ↦ next_from fuel nodes it' next
      | broken ↦ none
    ]

-- index_iterator::next, which starts at start_ every time
unfoldable pub next : ℕ → (ℤ → IndexFormat) → IndexIterator → Option (Rid × IndexIterator)
next fuel nodes it = elim it.start [ none ↦ none | some start ↦ next_from fuel nodes it start ]

-- index_iterator::reset
unfoldable pub reset : IndexIterator → IndexIterator
reset it = record it { now = null_rid }
