-- ===== src/Tests/Updates.antt =====
-- A tree with one leaf.
use alphadb.Prelude.{some}
use alphadb.Prelude.Int.{negsuc}
use alphadb.Index.Format.{Rid}
use alphadb.Index.Tree.{Tree}
use alphadb.Tests.Trees.{page, root}

abbrev single : Tree
single = record { root = some root; format = page; height = 1 }

abbrev null : Rid
null = record { page = negsuc 0; slot = negsuc 0 }
