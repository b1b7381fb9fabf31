-- ===== src/Index/Iterator/Start.antt =====
-- The scan of a new iterator.
use alphadb.Prelude.{ℕ, suc, ◌≡◌, inl, inr, Bool, true, none, some, arith, Option-cases}
use alphadb.Io.Criterion.{Criterion}
use alphadb.Prelude.Int.{ℤ}
use alphadb.Index.Format.{IndexFormat, Rid}
use alphadb.Index.Tree.{Tree, null_rid}
use alphadb.Index.Iterator.{IndexIterator, range, new, next, next_from}

-- What the constructor leaves, whatever leaves it has found.
new-starts :
    (nodes : ℤ → IndexFormat) (t : Tree) (c : Criterion) (descending : Bool) (it : IndexIterator)
    → new nodes t c descending ≡ some it
    → (start : Rid) × (it.next_is_null ≡ true) × (it.start ≡ some start)
unfolding new
new-starts nodes t c descending it e = elim (Option-cases (range t c descending)) [
  | inl r ↦ absurd (ground (arith, rw (new, r) at e))
  | inr ((none, end), r) ↦ absurd (ground (arith, rw (new, r) at e))
  | inr ((some start, end), r) ↦
      (start, ground (arith, rw (new, r) at e), ground (arith, rw (new, r) at e))
]

-- Whenever the constructor of an index iterator returns, next on the new iterator answers the end
-- of the scan and changes nothing.
pub next-new :
    (nodes : ℤ → IndexFormat) (t : Tree) (c : Criterion) (descending : Bool) (it : IndexIterator)
    (fuel : ℕ)
    → new nodes t c descending ≡ some it
    → next (suc fuel) nodes it ≡ some (null_rid, it)
unfolding next next_from
next-new nodes t c descending it fuel e =
    let (start, idle, at) = new-starts nodes t c descending it e in ground (arith, at, idle)
