-- ===== src/Index/Node.antt =====
-- index/b+tree/leaf_node.cc and internal_node.cc: the sizes of nodes, and the entries of an internal
-- node. A fan-out is at least 1.
pub mod Sizes
use alphadb.Prelude.{
  ℕ, zero, suc, ◌+◌, ◌-◌, ◌*◌, ◌/◌, ◌%◌, ◌^◌, Bool, true, false, Option, none, some, leb, ◌==◌,
  if◌then◌else◌,
}
use alphadb.Prelude.Int.{ℤ, pos, negsuc, int_eq}
use alphadb.Index.Format.{IndexFormat, Rid, key_at, rid_at, remove}

-- leaf_node::min_size and leaf_node::max_size
unfoldable pub leaf_min_size : ℕ → ℕ
leaf_min_size fanout = if fanout % 2 == 0 then (fanout + 1) / 2 else fanout / 2

unfoldable pub leaf_max_size : ℕ → ℕ
leaf_max_size fanout = fanout - 1

-- internal_node::min_size and internal_node::max_size
unfoldable pub internal_min_size : ℕ → ℕ
internal_min_size fanout = (fanout + 1) / 2

unfoldable pub internal_max_size : ℕ → ℕ
internal_max_size fanout = fanout

-- The loop of internal_node::node_index, at child `i` with `n` left.
unfoldable pub index_from : IndexFormat → ℤ → ℕ → ℕ → ℤ
index_from f page i zero = negsuc 0
index_from f page i (suc n) =
    let rest = index_from f page (i + 1) n in if int_eq (rid_at f i).page page then pos i else rest

-- internal_node::node_index, of the node on a page
unfoldable pub node_index : IndexFormat → ℤ → ℤ
node_index f page = index_from f page 0 f.count

-- internal_node::remove
unfoldable pub remove_child : IndexFormat → ℕ → Option (Bool × IndexFormat)
remove_child f index = remove f (key_at f index)
