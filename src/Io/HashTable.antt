-- ===== src/Io/HashTable.antt =====
-- io/hash_table.h and io/hash_table.cc: the table that says which slot of the buffer pool holds a
-- page. A chain is the doubly linked list that hangs off a bucket, head first; the array of
-- bucket heads is a function of the index. The links themselves are not modelled: `remove` unlinks
-- the head, the last or an inner node, and in each case the chain loses that one node.
pub mod Laws
use alphadb.Prelude.{
  ℕ, ◌+◌, ◌%◌, Bool, true, false, ◌&&◌, List, [], ◌∷◌, Option, none, some, ◌==◌, if◌then◌else◌,
  update,
}

-- struct hash_entry. Descriptors and page numbers are non-negative here: `hash` of a negative sum
-- would index before the array, and the callers rule that out.
pub record HashEntry : Type 0 where
  pub fd : ℕ
  pub page : ℕ
  pub slot : ℕ

pub record HashTable : Type 0 where
  pub bucket_num : ℕ
  pub buckets : ℕ → List HashEntry

-- hash_table::hash_table
unfoldable pub new : ℕ → HashTable
new n = record { bucket_num = n; buckets = λ _. [] }

unfoldable pub hash : HashTable → ℕ → ℕ → ℕ
hash t fd page = (fd + page) % t.bucket_num

-- entry->fd == fd && entry->page == page
abbrev pub is_entry : ℕ → ℕ → HashEntry → Bool
is_entry fd page e = e.fd == fd && e.page == page

-- The loop of hash_table::find; `none` is -1.
unfoldable pub find_chain : ℕ → ℕ → List HashEntry → Option ℕ
find_chain fd page [] = none
find_chain fd page (e ∷ es) = if is_entry fd page e then some e.slot else find_chain fd page es

unfoldable pub find : HashTable → ℕ → ℕ → Option ℕ
unfolding find_chain hash
find t fd page = find_chain fd page (t.buckets (hash t fd page))

-- hash_table::insert: nothing is done for a key that is there.
unfoldable pub insert : HashTable → ℕ → ℕ → ℕ → HashTable
unfolding find hash
insert t fd page slot = elim (find t fd page) [
  | some _ ↦ t
  | none ↦ record t {
    buckets =
        update t.buckets (hash t fd page)
          (record { fd = fd; page = page; slot = slot } ∷ t.buckets (hash t fd page));
  }
]

-- The search for the node and its removal from the chain.
unfoldable pub unlink : ℕ → ℕ → List HashEntry → List HashEntry
unlink fd page [] = []
unlink fd page (e ∷ es) = if is_entry fd page e then es else e ∷ unlink fd page es

-- hash_table::remove
unfoldable pub remove : HashTable → ℕ → ℕ → HashTable
unfolding find hash unlink
remove t fd page = elim (find t fd page) [
  | none ↦ t
  | some _ ↦ record t {
    buckets = update t.buckets (hash t fd page) (unlink fd page (t.buckets (hash t fd page)));
  }
]
