-- ===== src/Index/Tree.antt =====
-- index/b+tree/b_plus_tree.cc, the descents from the root. The root is the page id of its object and the
-- format in it, which lasts as long as the object does. Every other node that a descent comes to is an
-- object made anew, with a format that is not set. Every call of the file handle is recorded in the
-- order in which it is made.
pub mod Descent
pub mod Update
use alphadb.Prelude.{
  ℕ, zero, suc, ◌+◌, ◌-◌, Bool, true, false, Option, none, some, List, [], ◌∷◌, ◌++◌, ◌==◌,
  if◌then◌else◌, not,
}
use alphadb.Prelude.Int.{ℤ, pos, negsuc, sub_ℕ}
use alphadb.Prelude.Memory.{element}
use alphadb.Index.Format.{
  IndexFormat, Rid, rid_in, rid_at, rid_size, find_in_internal, find_in_leaf, key_at,
}

-- The calls of file_handle::get_this_page and file_handle::unpin_page.
pub data Call : Type 0 where
  pin : ℤ → Call
  unpin : ℤ → Call

pub record Tree : Type 0 where
  pub root : Option Rid
  pub format : IndexFormat
  pub height : ℕ

-- rids[index] of an internal node, for an int
unfoldable pub rid_of : IndexFormat → ℤ → Rid
rid_of f index = rid_in f.memory (element f.rids index rid_size)

-- internal_node::lookup
unfoldable pub lookup : IndexFormat → ℕ → Rid
lookup f key = rid_of f (find_in_internal f key)

-- index_handle::pin_page and index_handle::unpin_page
unfoldable pub pin_page : ℤ → Call
pin_page page = pin page

unfoldable pub unpin_page : ℤ → Call
unpin_page page = unpin (pos 0)

-- The loop of the descents at round `i` of `height`, with `n` rounds left, at a node with its format,
-- none if that is not set, to the child that `choose` takes. The answer is none if a format is used
-- that is not set, where get_this_page may throw before, and if the loop ends, since there is no return
-- behind it.
unfoldable pub descend :
    (IndexFormat → Rid) → ℕ → ℕ → Rid → Option IndexFormat → ℕ → Option (Rid × List Call)
descend choose height i at format zero = none
descend choose height i at none (suc n) = none
descend choose height i at (some f) (suc n) =
    let below : Rid = choose f in
    let rest = descend choose height (i + 1) below none n in
    if i == height - 1 then some (below, pin_page at.page ∷ []) else elim rest [
      | none ↦ none
      | some (leaf, calls) ↦
          some (leaf, pin_page at.page ∷ (if i == 0 then calls else unpin_page at.page ∷ calls))
    ]

-- What the three functions share: nullptr of an empty tree, and a root that is a leaf.
unfoldable pub leaf_by : (IndexFormat → Rid) → Tree → Option (Option Rid × List Call)
leaf_by choose t = elim t.root [
  | none ↦ some (none, [])
  | some root ↦
      if t.height == 1
      then some (some root, [])
      else elim (descend choose t.height 0 root (some t.format) t.height) [
        | none ↦ none
        | some (leaf, calls) ↦ some (some leaf, calls)
      ]
]

-- b_plus_tree::find_leaf_node
unfoldable pub find_leaf_node : Tree → ℕ → Option (Option Rid × List Call)
find_leaf_node t key = leaf_by (λ f. lookup f key) t

-- b_plus_tree::find_smallest_leaf_node
unfoldable pub find_smallest_leaf_node : Tree → Option (Option Rid × List Call)
find_smallest_leaf_node t = leaf_by (λ f. rid_at f 0) t

-- b_plus_tree::find_largest_leaf_node
unfoldable pub find_largest_leaf_node : Tree → Option (Option Rid × List Call)
find_largest_leaf_node t = leaf_by (λ f. rid_of f (sub_ℕ f.count 1)) t

-- rid{-1, -1}
abbrev pub null_rid : Rid
null_rid = record { page = negsuc 0; slot = negsuc 0 }

-- What find answers in a leaf, which is the root; it follows a null pointer in an empty tree, and the int that
-- find_in_leaf answers is -1 or an index.
unfoldable pub find_at : IndexFormat → Option ℤ → Option Rid
find_at f none = none
find_at f (some (negsuc _)) = some null_rid
find_at f (some (pos i)) = some (rid_at f i)

-- b_plus_tree::find
unfoldable pub find : Tree → ℕ → Option Rid
find t key = elim (find_leaf_node t key) [
  | none ↦ none
  | some (none, _) ↦ none
  | some (some leaf, _) ↦ find_at t.format (find_in_leaf t.format key)
]
