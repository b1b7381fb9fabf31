-- ===== src/Index/Tree/Update.antt =====
-- index/b+tree/b_plus_tree.cc, the operations that change the tree of Index.Tree. The page that
-- allocate_page answers, what a `new` leaves in the format of a node, and what insert does in a leaf
-- that is full are parameters. The leaf that find_leaf_node answers is the root, and has no parent, so
-- that nothing is done with one.
pub mod Insert
pub mod Remove
use alphadb.Prelude.{
  ℕ, ◌+◌, ◌-◌, ◌≡◌, refl, Bool, true, false, Option, none, some, List, [], ltb, leb, ◌==◌, not,
  ◌&&◌, ◌||◌, if◌then◌else◌,
}
use alphadb.Prelude.Int.{ℤ, pos, negsuc, int_eq, int_eq_iff}
use alphadb.Index.Format.{IndexFormat, Rid, rid_at, search, insert, remove}
use alphadb.Index.Node.{leaf_min_size, leaf_max_size}
use alphadb.Index.Manager.{IndexHeader}
use alphadb.Index.Tree.{Tree, find_leaf_node, find, null_rid}

-- What an operation comes to: it returns, it throws, it is still in a loop when the fuel is used up,
-- or it has reached undefined behaviour, such as the end of a function without a return or a format
-- that is not set, where a call of the file may have thrown before.
pub data Result (A : Type 0) : Type 0 where
  returned : A → Tree → Result A
  thrown : Tree → Result A
  running undefined : Result A

-- fanout_, as the constructor sets it
abbrev pub tree_fanout : ℕ
tree_fanout = 65535

-- b_plus_tree::b_plus_tree, where `height` is what the new object has in height_, which is not set
unfoldable pub new : IndexFormat → ℕ → IndexHeader → Tree
new blank height hdr = record {
  root = if ltb 0 hdr.height then some (record { page = hdr.root_page; slot = negsuc 0 }) else none;
  format = blank;
  height = height;
}

unfoldable pub is_empty : Tree → Bool
is_empty t = elim t.root [ none ↦ true | some _ ↦ false ]

unfoldable pub set_format : IndexFormat → Tree → Tree
set_format f t = record t { format = f }

-- b_plus_tree::insert_in_leaf, of the root
unfoldable pub insert_in_leaf : ℕ → ℕ → Tree → Result (Unit {0})
insert_in_leaf key id t = elim (insert t.format key id) [
  | none ↦ running
  | some (_, f) ↦ returned tt (set_format f t)
]

-- insert in an empty tree: the root becomes a new leaf on the allocated page.
unfoldable pub insert_first : ℤ → IndexFormat → ℕ → ℕ → Tree → Result (Unit {0})
insert_first page blank key id t =
    let root : Rid = record { page = page; slot = negsuc 0 } in
    insert_in_leaf key id (record t { root = some root; format = blank })

module _ (page : ℤ) (blank : IndexFormat) (insert_full : Rid → Tree → Result (Unit {0})) where
  -- b_plus_tree::insert
  unfoldable pub insert_key : ℕ → ℕ → Tree → Result (Unit {0})
  insert_key key id t =
      if is_empty t then insert_first page blank key id t else elim (find_leaf_node t key) [
        | none ↦ undefined
        | some (none, _) ↦ thrown t
        | some (some leaf, _) ↦
            if ltb t.format.count (leaf_max_size tree_fanout)
            then insert_in_leaf key id t
            else insert_full leaf t
      ]

-- rid::operator==
unfoldable pub rid_eq : Rid → Rid → Bool
rid_eq a b = int_eq a.page b.page && int_eq a.slot b.slot

-- The root in the cases of adjust_root: its only child, which is made anew, or none. The height is
-- left as it is.
unfoldable pub adjusted : IndexFormat → Bool → Tree → Tree
adjusted blank is_leaf t =
    if not is_leaf && t.format.count == 1
    then record t { root = some (rid_at t.format 0); format = blank }
    else if t.format.count == 0
    then record t { root = none }
    else t

-- b_plus_tree::adjust_root, where `is_leaf` is what the root's object answers; a null root is
-- followed.
unfoldable pub adjust_root : IndexFormat → Bool → Tree → Option Tree
adjust_root blank is_leaf t = elim t.root [ none ↦ none | some _ ↦ some (adjusted blank is_leaf t) ]

-- leaf_node::lookup
unfoldable pub leaf_lookup : IndexFormat → ℕ → Rid
leaf_lookup f key = elim (search f key) [ none ↦ null_rid | some id ↦ id ]

-- `newsize < l->min_size()`, where newsize is the truth value that remove answers
unfoldable pub too_few : Bool → Bool
too_few removed = ltb (if removed then 1 else 0) (leaf_min_size tree_fanout)

-- What remove_entry does behind its guard. A leaf without a parent counts as the root.
unfoldable pub remove_found : IndexFormat → Bool → ℕ → Tree → Result Bool
remove_found blank is_leaf key t = elim (remove t.format key) [
  | none ↦ running
  | some (removed, f) ↦
      let u : Tree = set_format f t in
      if too_few removed
      then elim (adjust_root blank is_leaf u) [ none ↦ undefined | some v ↦ returned true v ]
      else returned true u
]

-- b_plus_tree::remove_entry
unfoldable pub remove_entry : IndexFormat → Bool → ℕ → Rid → Tree → Result Bool
remove_entry blank is_leaf key p t =
    if rid_eq (leaf_lookup t.format key) p
    then remove_found blank is_leaf key t
    else returned false t

-- b_plus_tree::remove
unfoldable pub remove_key : IndexFormat → Bool → ℕ → Rid → Tree → Result Bool
remove_key blank is_leaf key p t =
    if is_empty t then returned false t else elim (find_leaf_node t key) [
      | none ↦ undefined
      | some (none, _) ↦ undefined
      | some (some leaf, _) ↦ remove_entry blank is_leaf key p t
    ]

-- b_plus_tree::update up to its last line, where `reinsert` is its call of insert; there is no return
-- behind it.
unfoldable pub update :
    (Tree → Result (Unit {0})) → IndexFormat → Bool → ℕ → Rid → Tree → Result Bool
update reinsert blank is_leaf key old t = elim (find t key) [
  | none ↦ undefined
  | some found ↦
      if rid_eq found null_rid
      then returned false t
      else elim (remove_key blank is_leaf key old t) [
        | returned true u ↦ elim (reinsert u) [
          | returned _ v ↦ undefined
          | thrown v ↦ thrown v
          | running ↦ running
          | undefined ↦ undefined
        ]
        | returned false u ↦ returned false u
        | thrown u ↦ thrown u
        | running ↦ running
        | undefined ↦ undefined
      ]
]

-- b_plus_tree::destroy; the virtual call is made on the root, which must be there.
unfoldable pub destroy : Tree → Option Tree
destroy t = elim t.root [ none ↦ none | some _ ↦ some (record t { root = none }) ]
