-- ===== src/Io/HashTable/Laws.antt =====
-- The hash table as a finite map from (descriptor, page) to slots.
use alphadb.Prelude.{
  ℕ, ◌+◌, ◌≤◌, ◌≡◌, refl, ◌&&◌, List, [], ◌∷◌, none, some, ◌==◌, if◌then◌else◌, arith,
}
use alphadb.Io.HashTable.{
  HashEntry, HashTable, new, hash, is_entry, find_chain, find, insert, unlink, remove,
}

-- How many nodes of a chain carry a key.
pub occurs : ℕ → ℕ → List HashEntry → ℕ
occurs fd page [] = 0
occurs fd page (e ∷ es) = (if is_entry fd page e then 1 else 0) + occurs fd page es

-- No key stands twice in the chain where it is looked up.
pub record IsTable (t : HashTable) : Type 0 where
  pub once : (fd page : ℕ) → occurs fd page (t.buckets (hash t fd page)) ≤ 1

find_chain-occurs :
    (fd page : ℕ) (es : List HashEntry) → find_chain fd page es ≡ none → occurs fd page es ≡ 0
unfolding find_chain occurs
find_chain-occurs fd page [] h = refl
find_chain-occurs fd page (e ∷ es) h = ground (arith, find_chain-occurs fd page es)

occurs-find_chain :
    (fd page : ℕ) (es : List HashEntry) → occurs fd page es ≡ 0 → find_chain fd page es ≡ none
unfolding find_chain occurs
occurs-find_chain fd page [] h = refl
occurs-find_chain fd page (e ∷ es) h = ground (arith, occurs-find_chain fd page es)

occurs-unlink :
    (fd page f p : ℕ) (es : List HashEntry) → occurs f p (unlink fd page es) ≤ occurs f p es
unfolding unlink occurs
occurs-unlink fd page f p [] = ground arith
occurs-unlink fd page f p (e ∷ es) = ground (arith, occurs-unlink fd page f p es)

find_chain-unlink :
    (fd page f p : ℕ) (es : List HashEntry)
    → occurs fd page es ≤ 1
    → find_chain f p (unlink fd page es)
      ≡ (if (fd == f && page == p) then none else find_chain f p es)
unfolding unlink occurs find_chain
find_chain-unlink fd page f p [] h = ground arith
find_chain-unlink fd page f p (e ∷ es) h =
    ground (arith, find_chain-unlink fd page f p es, occurs-find_chain fd page es)

-- After insert of a key that was absent, find answers the inserted slot for that key and its old
-- answer for every other key.
pub find-insert :
    (t : HashTable) (fd page slot f p : ℕ)
    → find t fd page ≡ none
    → find (insert t fd page slot) f p ≡ (if (fd == f && page == p) then some slot else find t f p)
unfolding find insert find_chain
find-insert t fd page slot f p h = ground arith

pub insert-IsTable :
    (t : HashTable) (fd page slot : ℕ) → IsTable t → IsTable (insert t fd page slot)
unfolding find insert occurs
insert-IsTable t fd page slot v = record {
  once = λ f p. ground (arith, v.once f p, find_chain-occurs fd page (t.buckets (hash t fd page)));
}

-- In a table that holds each key at most once, after remove, find answers nothing for the removed
-- key and its old answer for every other key.
pub find-remove :
    (t : HashTable) (fd page f p : ℕ)
    → IsTable t
    → find (remove t fd page) f p ≡ (if (fd == f && page == p) then none else find t f p)
unfolding find remove
find-remove t fd page f p v =
    ground (arith, v.once fd page, find_chain-unlink fd page f p (t.buckets (hash t fd page)))

pub remove-IsTable : (t : HashTable) (fd page : ℕ) → IsTable t → IsTable (remove t fd page)
unfolding find remove
remove-IsTable t fd page v = record {
  once = λ f p. ground (arith, v.once f p, occurs-unlink fd page f p (t.buckets (hash t fd page)));
}

pub new-IsTable : (n : ℕ) → IsTable (new n)
unfolding new occurs
new-IsTable n = record { once = λ f p. omega arith }

pub find-new : (n f p : ℕ) → find (new n) f p ≡ none
unfolding new find
find-new n f p = refl
