-- ===== src/Network/Buffer/Faults.antt =====
-- The block put that fills the buffer, and unget at the start of the memory.
use native.Mathlib.Nat.{mod-eq_of_lt, mod_self}
use alphadb.Prelude.{
  ℕ, ◌+◌, ◌%◌, ◌^◌, ◌≤◌, ◌<◌, ◌≡◌, refl, inl, inr, false, ◌||◌, List, [], some, arith, ltb, length,
  Bool-cases, ltb→lt, ◌∙◌, ap,
}
use alphadb.Network.Buffer.{Buffer, size, put_bytes, copy_in, unget}
use alphadb.Network.Buffer.Queue.{IsRing, contents, cells}

-- The head comes to the tail when the block fills what is left.
filled :
    (b : Buffer) (n : ℕ)
    → IsRing b
    → b.full ≡ false
    → 0 < n
    → size b + n ≡ b.max_size
    → b.head + n ≤ b.max_size
    → b.max_size < 2 ^ 64
    → (b.head + n) % 2 ^ 64 % b.max_size ≡ b.tail
unfolding size
filled b n v room some_bytes fills fits small =
    let low : (b.head + n) % 2 ^ 64 ≡ b.head + n = omega arith in
    elim (Bool-cases (ltb (b.head + n) b.max_size)) [
      | inl inside ↦ rw low (mod-eq_of_lt (ltb→lt _ _ inside) ∙ ground (arith, v.head, v.tail))
      | inr end ↦
          let e : b.head + n ≡ b.max_size = ground arith in
          rw (low, e) (mod_self b.max_size ∙ ground (arith, v.head, v.tail))
    ]

-- On a well-formed buffer that is not full, of a capacity below 2 ^ 64, a block that is not empty,
-- fills the free places exactly and does not run past the end of the memory is put so that the
-- queue is then empty.
pub put_bytes-fills :
    (cs : List ℕ) (b : Buffer)
    → IsRing b
    → b.full ≡ false
    → 0 < length cs
    → size b + length cs ≡ b.max_size
    → b.head + length cs ≤ b.max_size
    → b.max_size < 2 ^ 64
    → (b' : Buffer) × (put_bytes cs b ≡ some b') × (contents b' ≡ [])
unfolding put_bytes size
put_bytes-fills cs b v room some_bytes fills fits small =
    let inside : ltb b.max_size (b.head + length cs) ≡ false = ground arith in
    let b' : Buffer = record b {
      buf = copy_in b.buf b.head cs;
      head = (b.head + length cs) % 2 ^ 64 % b.max_size;
    } in
    let met : b'.head ≡ b.tail = filled b (length cs) v room some_bytes fills fits small in
    let none_left : size b' ≡ 0 = ground arith in
    (b', rw (put_bytes, inside) refl, ap (λ n. cells b'.buf b'.max_size n b'.tail) none_left)

-- In a buffer of the default capacity 65535 that is neither full nor empty and whose tail is 0,
-- unget of one char leaves the tail at 0.
pub unget-start :
    (b : Buffer)
    → b.max_size ≡ 65535
    → b.full ≡ false
    → b.tail ≡ 0
    → 1 ≤ size b
    → (unget 1 b).tail ≡ 0
unfolding unget
unget-start b m room start some_bytes =
    let back : (b.full || ltb (size b) 1) ≡ false = ground arith in rw (unget, back, start, m) refl
