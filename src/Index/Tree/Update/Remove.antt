-- ===== src/Index/Tree/Update/Remove.antt =====
-- What remove does in a tree whose root is a leaf.
use alphadb.Prelude.{none, ◌==◌, if◌then◌else◌}
use alphadb.Index.Format.{IndexFormat}
use alphadb.Index.Tree.{Tree}
use alphadb.Index.Tree.Update.{set_format}

-- The tree that a removal leaves: the changed leaf, and no root if the leaf has no entry.
abbrev pub emptied : IndexFormat → Tree → Tree
emptied f t = if f.count == 0 then record (set_format f t) { root = none } else set_format f t
