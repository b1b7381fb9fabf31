-- ===== src/Index/Node/Sizes.antt =====
-- The bounds on the sizes of nodes, and the index of a child.
use alphadb.Prelude.{
  ℕ, zero, suc, ◌+◌, ◌/◌, ◌≤◌, ◌<◌, ◌≡◌, ◌≢◌, inl, inr, arith, Bool-cases, ltb, ltb→lt, subst,
}
use alphadb.Prelude.Int.{ℤ, pos, negsuc, int_eq, int_eq_iff}
use alphadb.Index.Format.{IndexFormat, rid_at}
use alphadb.Index.Node.{
  leaf_min_size, leaf_max_size, internal_min_size, internal_max_size, index_from, node_index,
}

-- The least size of a leaf is half its greatest size, rounded up, as is that of an internal node; a
-- full leaf with one entry more has room for two leaves of the least size.
pub leaf_min_size-halves :
    (fanout : ℕ)
    → 2 ≤ fanout
    → (leaf_min_size fanout ≡ (leaf_max_size fanout + 1) / 2)
      × (internal_min_size fanout ≡ (internal_max_size fanout + 1) / 2)
      × (leaf_min_size fanout + leaf_min_size fanout ≤ leaf_max_size fanout + 1)
      × (leaf_max_size fanout + 1 ≤ leaf_min_size fanout + internal_min_size fanout)
unfolding leaf_min_size leaf_max_size internal_min_size internal_max_size
leaf_min_size-halves fanout h = ground arith

-- Where a page stands among the first k children.
unfoldable pub Stands : IndexFormat → ℤ → ℕ → ℤ → Type 0
Stands f page k (pos i) =
    (i < k) × ((rid_at f i).page ≡ page) × ((j : ℕ) → j < i → (rid_at f j).page ≢ page)
Stands f page k (negsuc zero) = (j : ℕ) → j < k → (rid_at f j).page ≢ page
Stands f page k (negsuc (suc _)) = ⊥

index_from-Stands :
    (f : IndexFormat) (page : ℤ) (i n k : ℕ)
    → i + n ≡ k
    → ((j : ℕ) → j < i → (rid_at f j).page ≢ page)
    → Stands f page k (index_from f page i n)
unfolding index_from Stands
index_from-Stands f page i zero k e before = λ j h. before j (omega arith)
index_from-Stands f page i (suc n) k e before = elim (Bool-cases (int_eq (rid_at f i).page page)) [
  | inl same ↦ rw same (omega arith, (int_eq_iff _ _).0 same, before)
  | inr other ↦
      let differs : (rid_at f i).page ≢ page =
        λ p. ground (arith, (int_eq_iff (rid_at f i).page page).1 p, other) in
      let upto : (j : ℕ) → j < i + 1 → (rid_at f j).page ≢ page = λ j h p.
        elim (Bool-cases (ltb j i)) [
          | inl less ↦ before j (ltb→lt j i less) p
          | inr at ↦
              let here : j ≡ i = ground arith in
              differs (subst (λ x. (rid_at f x).page ≡ page) here p)
        ] in
      rw other (index_from-Stands f page (i + 1) n k (omega arith) upto)
]

-- node_index answers the first child on the page, or -1 if there is none.
pub node_index-Stands : (f : IndexFormat) (page : ℤ) → Stands f page f.count (node_index f page)
unfolding node_index
node_index-Stands f page =
    index_from-Stands f page 0 f.count f.count (omega arith) (λ j h. absurd (omega arith))
