-- ===== src/Network/Buffer/Queue.antt =====
-- The queue that a ring buffer stands for.
use native.Mathlib.Nat.{mod-eq_of_lt, mod_self}
use alphadb.Prelude.{
  ℕ, zero, suc, ◌+◌, ◌-◌, ◌%◌, ◌≤◌, ◌<◌, ◌≡◌, ◌≢◌, refl, ◌⊎◌, inl, inr, true, false, List, [], ◌∷◌,
  ◌++◌, arith, ltb, if◌then◌else◌, update, length, drop, Bool-cases, ltb→lt, ◌∙◌, sym, ap, subst,
}
use alphadb.Network.Buffer.{Buffer, empty, size, put, get}

-- The position that follows, and the one `n` places on.
abbrev pub wrap : ℕ → ℕ → ℕ
wrap m x = if ltb x m then x else x - m

-- The `n` bytes from `s` on, around the end of the memory.
abbrev pub cells : (ℕ → ℕ) → ℕ → ℕ → ℕ → List ℕ
cells buf m zero s = []
cells buf m (suc n) s = buf s ∷ cells buf m n (wrap m (s + 1))

-- The queue that the buffer stands for, the oldest byte first.
abbrev pub contents : Buffer → List ℕ
contents b = cells b.buf b.max_size (size b) b.tail

pub record IsRing (b : Buffer) : Type 0 where
  pub head : b.head < b.max_size
  pub tail : b.tail < b.max_size
  pub met : b.full ≡ true → b.head ≡ b.tail

next-wrap : (m s : ℕ) → s < m → (s + 1) % m ≡ wrap m (s + 1)
next-wrap m s below = elim (Bool-cases (ltb (s + 1) m)) [
  | inl inside ↦ mod-eq_of_lt (ltb→lt _ _ inside) ∙ ground arith
  | inr outside ↦ let e : s + 1 ≡ m = ground arith in rw e (mod_self m ∙ ground arith)
]

on-wrap : (m n s : ℕ) → s < m → n < m → wrap m (wrap m (s + 1) + n) ≡ wrap m (s + suc n)
on-wrap m n s a b = ground arith

cells-snoc :
    (buf : ℕ → ℕ) (m n s : ℕ)
    → s < m
    → n < m
    → cells buf m (suc n) s ≡ cells buf m n s ++ buf (wrap m (s + n)) ∷ []
cells-snoc buf m zero s a b = let e : wrap m (s + 0) ≡ s = ground arith in rw e refl
cells-snoc buf m (suc n) s a b =
    ap (λ l. buf s ∷ l)
      (cells-snoc buf m n (wrap m (s + 1)) (ground arith) (omega arith)
        ∙ ap (λ q. cells buf m n (wrap m (s + 1)) ++ buf q ∷ []) (on-wrap m n s a (omega arith)))

cells-update :
    (buf : ℕ → ℕ) (m n s p c : ℕ)
    → s < m
    → n < m
    → ((i : ℕ) → i < n → p ≢ wrap m (s + i))
    → cells (update buf p c) m n s ≡ cells buf m n s
cells-update buf m zero s p c a b apart = refl
cells-update buf m (suc n) s p c a b apart =
    let here : p ≢ s = λ e. apart 0 (omega arith) (ground arith) in
    let head : update buf p c s ≡ buf s = ground arith in
    rw head (
      ap (λ l. buf s ∷ l)
        (cells-update buf m n (wrap m (s + 1)) p c (ground arith) (omega arith)
          (λ i h e. apart (suc i) (omega arith) (e ∙ on-wrap m i s a (omega arith)))))

-- A byte behind the last of n bytes.
cells-put :
    (buf : ℕ → ℕ) (m n s c : ℕ)
    → s < m
    → n < m
    → cells (update buf (wrap m (s + n)) c) m (suc n) s ≡ cells buf m n s ++ c ∷ []
cells-put buf m n s c a b =
    let apart : (i : ℕ) → i < n → wrap m (s + n) ≢ wrap m (s + i) = λ i h e. ground arith in
    let last : update buf (wrap m (s + n)) c (wrap m (s + n)) ≡ c = ground arith in
    cells-snoc (update buf (wrap m (s + n)) c) m n s a b
    ∙ rw (last, cells-update buf m n s (wrap m (s + n)) c a b apart) refl

size-head :
    (b : Buffer)
    → IsRing b
    → b.full ≡ false
    → (size b < b.max_size) × (wrap b.max_size (b.tail + size b) ≡ b.head)
unfolding size
size-head b v room = (ground (arith, v.head, v.tail), ground (arith, v.head, v.tail))

-- The next position of either end.
step :
    (b : Buffer)
    → IsRing b
    → ((b.head + 1) % b.max_size ≡ wrap b.max_size (b.head + 1))
      × ((b.tail + 1) % b.max_size ≡ wrap b.max_size (b.tail + 1))
step b v = (next-wrap b.max_size b.head v.head, next-wrap b.max_size b.tail v.tail)

put-IsRing : (c : ℕ) (b : Buffer) → IsRing b → IsRing (put c b)
unfolding put
put-IsRing c b v = record {
  head = ground (arith, v.head, (step b v).0);
  tail = ground (arith, v.tail, (step b v).1);
  met = λ h. ground arith;
}

put-size :
    (c : ℕ) (b : Buffer) → IsRing b → size (put c b) ≡ (if b.full then size b else size b + 1)
unfolding put size
put-size c b v = elim (Bool-cases b.full) [
  | inl filled ↦ ground (arith, v.head, v.tail, v.met filled)
  | inr room ↦ ground (arith, v.head, v.tail, step b v)
]

-- What `put` leaves, once its size and its tail are known.
put-cells :
    (c n s : ℕ) (b : Buffer)
    → size (put c b) ≡ n
    → (put c b).tail ≡ s
    → contents (put c b) ≡ cells (update b.buf b.head c) b.max_size n s
unfolding put
put-cells c n s b e t =
    ap (λ k. cells (update b.buf b.head c) b.max_size k (put c b).tail) e
    ∙ ap (λ q. cells (update b.buf b.head c) b.max_size n q) t

put-contents_room :
    (c : ℕ) (b : Buffer) → IsRing b → b.full ≡ false → contents (put c b) ≡ contents b ++ c ∷ []
unfolding put
put-contents_room c b v room =
    let (small, at) = size-head b v room in
    put-cells c (suc (size b)) b.tail b (put-size c b v ∙ ground arith) (ground arith)
    ∙ subst (λ p. cells (update b.buf p c) b.max_size (suc (size b)) b.tail ≡ contents b ++ c ∷ [])
        at (cells-put b.buf b.max_size (size b) b.tail c v.tail small)

put-contents_full :
    (c k : ℕ) (b : Buffer)
    → IsRing b
    → b.full ≡ true
    → b.max_size ≡ suc k
    → contents (put c b) ≡ drop 1 (contents b) ++ c ∷ []
unfolding put size
put-contents_full c k b v filled e =
    let second : ℕ = wrap b.max_size (b.tail + 1) in
    let at : wrap b.max_size (second + k) ≡ b.head = ground (arith, v.met filled, v.tail) in
    let all : size b ≡ suc k = ground arith in
    let whole : contents b ≡ cells b.buf b.max_size (suc k) b.tail =
      ap (λ n. cells b.buf b.max_size n b.tail) all in
    put-cells c (suc k) second b (put-size c b v ∙ ground arith) (ground (arith, (step b v).1))
    ∙ subst
        (λ p.
          cells (update b.buf p c) b.max_size (suc k) second
          ≡ cells b.buf b.max_size k second ++ c ∷ [])
        at (cells-put b.buf b.max_size k second c (ground (arith, v.tail)) (omega arith))
    ∙ ap (λ l. drop 1 l ++ c ∷ []) (sym whole)

-- On a well-formed buffer, putting a char leaves a well-formed buffer whose queue has the char at
-- its end, and has lost its oldest one exactly if the buffer was full.
pub put-contents :
    (c : ℕ) (b : Buffer)
    → IsRing b
    → IsRing (put c b)
      × (contents (put c b) ≡ drop (if b.full then 1 else 0) (contents b) ++ c ∷ [])
put-contents c b v = (
  put-IsRing c b v,
  elim (Bool-cases b.full) [
    | inl filled ↦
        subst (λ f. contents (put c b) ≡ drop (if f then 1 else 0) (contents b) ++ c ∷ [])
          (sym filled) (put-contents_full c (b.max_size - 1) b v filled (omega (arith, v.head)))
    | inr room ↦
        subst (λ f. contents (put c b) ≡ drop (if f then 1 else 0) (contents b) ++ c ∷ [])
          (sym room) (put-contents_room c b v room)
  ],
)

-- On a well-formed buffer, getting a char answers 0 and changes nothing if the queue is empty, and
-- otherwise answers the oldest char of the queue and leaves a well-formed buffer with the rest.
pub get-contents :
    (b : Buffer)
    → IsRing b
    → ((get b ≡ (0, b)) × (contents b ≡ []))
      ⊎ (IsRing (get b).1 × (contents b ≡ (get b).0 ∷ contents (get b).1))
unfolding get empty size
get-contents b v = elim (Bool-cases (empty b)) [
  | inl nothing ↦
      let none_left : size b ≡ 0 = ground (arith, v.head) in
      inl (rw (get, nothing) refl, ap (λ n. cells b.buf b.max_size n b.tail) none_left)
  | inr more ↦
      let g : Buffer = record b { full = false; tail = (b.tail + 1) % b.max_size } in
      let run : get b ≡ (b.buf b.tail, g) = rw (get, more) refl in
      let n : ℕ = size b - 1 in
      let one_fewer : size g ≡ n = ground (arith, v.head, v.tail, v.met, (step b v).1) in
      let some_more : size b ≡ suc n = ground (arith, v.head, v.tail, v.met) in
      let rest : contents g ≡ cells b.buf b.max_size n (wrap b.max_size (b.tail + 1)) =
        ap (λ k. cells b.buf b.max_size k g.tail) one_fewer
        ∙ ap (λ q. cells b.buf b.max_size n q) ((step b v).1) in
      let whole : contents b
          ≡ b.buf b.tail ∷ cells b.buf b.max_size n (wrap b.max_size (b.tail + 1)) =
        ap (λ k. cells b.buf b.max_size k b.tail) some_more in
      inr (
        subst (λ r. IsRing r.1 × (contents b ≡ r.0 ∷ contents r.1)) (sym run)
          (
            record {
              head = v.head;
              tail = ground (arith, v.tail, (step b v).1);
              met = λ h. absurd (ground arith);
            },
            whole ∙ ap (λ l. b.buf b.tail ∷ l) (sym rest),
          ))
]

cells-length : (buf : ℕ → ℕ) (m n s : ℕ) → length (cells buf m n s) ≡ n
cells-length buf m zero s = refl
cells-length buf m (suc n) s = ap suc (cells-length buf m n (wrap m (s + 1)))

-- The size of a well-formed buffer is the length of its queue, which is no more than the capacity.
pub size-contents :
    (b : Buffer) → IsRing b → (size b ≡ length (contents b)) × (length (contents b) ≤ b.max_size)
unfolding size
size-contents b v = (
  sym (cells-length b.buf b.max_size (size b) b.tail),
  ground (arith, cells-length b.buf b.max_size (size b) b.tail, v.head, v.tail),
)
