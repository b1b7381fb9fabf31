-- ===== src/Index/Tree/Descent.antt =====
-- Where the descents from the root end.
use alphadb.Prelude.{ℕ, zero, suc, ◌-◌, ◌≡◌, refl, ◌≢◌, false, none, some, [], arith, ◌==◌}
use alphadb.Index.Format.{IndexFormat, Rid}
use alphadb.Index.Format.Sorted.{IsSorted, first_equal, find_in_leaf-first_equal}
use alphadb.Index.Format.Search.{entries}
use alphadb.Index.Tree.{Tree, lookup, descend, leaf_by, find_leaf_node, find_at, find}

pub leaf_by-single :
    (choose : IndexFormat → Rid) (t : Tree) (root : Rid)
    → t.root ≡ some root
    → t.height ≡ 1
    → leaf_by choose t ≡ some (some root, [])
unfolding leaf_by
leaf_by-single choose t root e h = rw (leaf_by, e, h) refl

descend-unset :
    (choose : IndexFormat → Rid) (height i n : ℕ) (at : Rid)
    → descend choose height i at none n ≡ none
unfolding descend
descend-unset choose height i zero at = refl
descend-unset choose height i (suc n) at = refl

descend-none :
    (choose : IndexFormat → Rid) (height n : ℕ) (at : Rid) (f : IndexFormat)
    → height ≢ 1
    → n ≡ height
    → descend choose height 0 at (some f) n ≡ none
unfolding descend
descend-none choose height zero at f h e = refl
descend-none choose height (suc n) at f h e =
    let on : (0 == height - 1) ≡ false = ground arith in
    rw (descend, on, descend-unset choose height 1 n (choose f)) refl

-- In a tree with a root whose height is not 1, no descent returns a leaf.
pub leaf_by-none :
    (choose : IndexFormat → Rid) (t : Tree) (root : Rid)
    → t.root ≡ some root
    → t.height ≢ 1
    → leaf_by choose t ≡ none
unfolding leaf_by
leaf_by-none choose t root e h =
    let high : (t.height == 1) ≡ false = ground arith in
    rw (leaf_by, e, high, descend-none choose t.height t.height root t.format h refl) refl

-- In a tree of height 1 whose leaf has ascending int keys, find answers the RID at the first key that
-- compares as equal, or the null RID.
pub find-first_equal :
    (t : Tree) (key : ℕ) (root : Rid)
    → t.root ≡ some root
    → t.height ≡ 1
    → IsSorted t.format
    → find t key ≡ find_at t.format (some (first_equal t.format key 0 (entries t.format)))
unfolding find find_leaf_node
find-first_equal t key root e h sorted =
    rw
      (
        find,
        leaf_by-single (λ f. lookup f key) t root e h,
        find_in_leaf-first_equal t.format key sorted,
      )
      refl
