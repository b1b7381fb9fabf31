-- ===== src/Transaction/TxnManager/Handles.antt =====
-- Which handles a transaction manager answers.
use alphadb.Prelude.{ℕ, ◌≡◌, refl, true, List, ◌∷◌, some, arith, ◌==◌, inl, inr, Option-cases}
use alphadb.Prelude.Int.{ℤ}
use alphadb.Io.Result.{Out, ok, exception, crash}
use alphadb.Transaction.TxnManager.{
  Managers, TxnManager, lookup, keep_table, keep_index, get_table, get_index,
}

-- An answer is given again by `call` in the state that it leaves; an exception and undefined behaviour
-- are not an answer.
unfoldable Again : {S A : Type 0} → Out S A → (S → Out S A) → Type 0
Again (ok a s) call = call s ≡ ok a s
Again (exception s) call = Unit
Again crash call = Unit

lookup-head :
    {A : Type 0} (name : ℕ) (a : A) (l : List (ℕ × A)) → lookup name ((name, a) ∷ l) ≡ some a
unfolding lookup
lookup-head name a l = let same : (name == name) ≡ true = ground arith in rw same refl

module _ {T I W : Type 0} (mgr : Managers T I W) where
  get_table-kept :
      (name : ℕ) (handle : T) (s : TxnManager T I W)
      → lookup name s.tables ≡ some handle
      → get_table mgr name s ≡ ok handle s
  unfolding get_table
  get_table-kept name handle s e = rw (get_table, e) refl

  keep_table-Again :
      (name : ℕ) (s : TxnManager T I W) (o : Out W T)
      → Again (keep_table mgr name s o) (get_table mgr name)
  unfolding keep_table Again
  keep_table-Again name s (ok handle w) =
      get_table-kept name handle _ (lookup-head name handle s.tables)
  keep_table-Again name s (exception w) = tt
  keep_table-Again name s crash = tt

  -- A table that get_table has answered is answered again, and nothing is opened for it.
  get_table-Again :
      (name : ℕ) (s : TxnManager T I W) → Again (get_table mgr name s) (get_table mgr name)
  unfolding get_table Again
  get_table-Again name s = elim (Option-cases (lookup name s.tables)) [
    | inl e ↦ rw (get_table, e) (keep_table-Again name s (mgr.open_table name s.world))
    | inr (handle, e) ↦ rw (get_table-kept name handle s e, Again) (get_table-kept name handle s e)
  ]

  get_index-kept :
      (name : ℕ) (index : ℤ) (handle : I) (s : TxnManager T I W)
      → lookup name s.indexes ≡ some handle
      → get_index mgr name index s ≡ ok handle s
  unfolding get_index
  get_index-kept name index handle s e = rw (get_index, e) refl

  keep_index-Again :
      (name : ℕ) (index : ℤ) (s : TxnManager T I W) (o : Out W I)
      → Again (keep_index mgr name s o) (get_index mgr name index)
  unfolding keep_index Again
  keep_index-Again name index s (ok handle w) =
      get_index-kept name index handle _ (lookup-head name handle s.indexes)
  keep_index-Again name index s (exception w) = tt
  keep_index-Again name index s crash = tt

  -- The handle that get_index has answered for one index of a table is answered for every other index
  -- of this table too, and nothing is opened for that.
  get_index-Again :
      (name : ℕ) (index other : ℤ) (s : TxnManager T I W)
      → Again (get_index mgr name index s) (get_index mgr name other)
  unfolding get_index Again
  get_index-Again name index other s = elim (Option-cases (lookup name s.indexes)) [
    | inl e ↦ rw (get_index, e) (keep_index-Again name other s (mgr.open_index name index s.world))
    | inr (handle, e) ↦
        rw (get_index-kept name index handle s e, Again) (get_index-kept name other handle s e)
  ]
