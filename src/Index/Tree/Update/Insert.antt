-- ===== src/Index/Tree/Update/Insert.antt =====
-- What insert does in a leaf with room, and in an empty tree.
use alphadb.Prelude.{ℕ, ◌<◌, ◌≡◌, refl, true, false, none, some, [], arith}
use alphadb.Prelude.Int.{ℤ, negsuc}
use alphadb.Index.Format.{IndexFormat, Rid, find_in_leaf, insert, make_room, count_up}
use alphadb.Index.Tree.{Tree, lookup, find_leaf_node, find, null_rid, leaf_by, find_at}
use alphadb.Index.Tree.Descent.{leaf_by-single}
use alphadb.Index.Tree.Update.{
  Result, returned, is_empty, set_format, insert_in_leaf, insert_first, insert_key,
}

pub find_leaf_node-single :
    (t : Tree) (key : ℕ) (root : Rid)
    → t.root ≡ some root
    → t.height ≡ 1
    → find_leaf_node t key ≡ some (some root, [])
unfolding find_leaf_node
find_leaf_node-single t key root e h = leaf_by-single (λ f. lookup f key) t root e h

pub is_empty-some : (t : Tree) (root : Rid) → t.root ≡ some root → is_empty t ≡ false
unfolding is_empty
is_empty-some t root e = rw e refl

find_in_leaf-few : (f : IndexFormat) (key : ℕ) → f.count < 2 → find_in_leaf f key ≡ some (negsuc 0)
unfolding find_in_leaf
find_in_leaf-few f key few = ground arith

insert-blank :
    (f : IndexFormat) (key id : ℕ)
    → f.count ≡ 0
    → (g : IndexFormat) × (insert f key id ≡ some (true, g)) × (g.count ≡ 1)
unfolding insert make_room count_up
insert-blank f key id e = (
  make_room f key id (negsuc 0),
  rw (insert, find_in_leaf-few f key (omega (arith, e))) refl,
  omega (arith, e),
)

find-few :
    (t : Tree) (key : ℕ) (root : Rid)
    → t.root ≡ some root
    → t.height ≡ 1
    → t.format.count < 2
    → find t key ≡ some null_rid
unfolding find find_leaf_node leaf_by find_at
find-few t key root e h few =
    rw (find, find_leaf_node, leaf_by, e, h, find_in_leaf-few t.format key few) refl

insert_first-find :
    (page : ℤ) (blank : IndexFormat) (key id : ℕ) (t : Tree)
    → blank.count ≡ 0
    → t.height ≡ 1
    → (u : Tree) × (insert_first page blank key id t ≡ returned tt u) × (find u key ≡ some null_rid)
unfolding insert_first insert_in_leaf set_format
insert_first-find page blank key id t e h =
    let (g, run, one) = insert-blank blank key id e in
    let root : Rid = record { page = page; slot = negsuc 0 } in
    let u : Tree = record t { root = some root; format = g } in
    (
      u,
      rw (insert_first, insert_in_leaf, run) refl,
      find-few u key root refl h (omega (arith, one)),
    )

is_empty-none : (t : Tree) → t.root ≡ none → is_empty t ≡ true
unfolding is_empty
is_empty-none t e = rw e refl

-- The first insertion into an empty tree whose height is 1 returns, but find does not find the key
-- then: the only entry counts as the dummy at the end of the leaf.
pub insert_key-find :
    (page : ℤ) (blank : IndexFormat) (insert_full : Rid → Tree → Result (Unit {0})) (key id : ℕ)
    (t : Tree)
    → t.root ≡ none
    → t.height ≡ 1
    → blank.count ≡ 0
    → (u : Tree) × (insert_key page blank insert_full key id t ≡ returned tt u)
      × (find u key ≡ some null_rid)
unfolding insert_key
insert_key-find page blank insert_full key id t empty h e =
    let (u, run, lost) = insert_first-find page blank key id t e h in
    (u, rw (insert_key, is_empty-none t empty) run, lost)
