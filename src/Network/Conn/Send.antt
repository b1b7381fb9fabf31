-- ===== src/Network/Conn/Send.antt =====
-- What a connection sends.
use native.Mathlib.Nat.{mod-eq_of_lt}
use mathlib.Core.List.{append_assoc}
use alphadb.Prelude.{
  ℕ, zero, suc, ◌+◌, ◌-◌, ◌%◌, ◌^◌, ◌≤◌, ◌<◌, ◌≡◌, refl, false, List, [], ◌∷◌, ◌++◌, arith, ltb,
  take, length, sym, ap, ◌∙◌,
}
use alphadb.Network.Buffer.{Buffer, size, copy_out, advance_get}
use alphadb.Network.Buffer.Queue.{contents, cells, wrap}
use alphadb.Network.Conn.{
  Socket, interrupted, would_block, broken, Wrote, took, write_failed, Outcome, returned, running,
  overrun, Sent, prepend, offered, send,
}

-- A buffer that is not full and whose bytes do not go around the end of its memory.
pub record IsFlat (b : Buffer) : Type 0 where
  pub room : b.full ≡ false
  pub ahead : b.tail ≤ b.head
  pub inside : b.head < b.max_size
  pub small : b.max_size < 2 ^ 64

-- The bytes from s on are the ring's, where they do not reach the end.
cells-flat : (buf : ℕ → ℕ) (m n s : ℕ) → s + n < m → cells buf m n s ≡ copy_out buf s n
unfolding copy_out
cells-flat buf m zero s h = refl
cells-flat buf m (suc n) s h =
    let next : wrap m (s + 1) ≡ s + 1 = ground arith in
    rw next (ap (λ l. buf s ∷ l) (cells-flat buf m n (s + 1) (omega arith)))

copy_out-take :
    (buf : ℕ → ℕ) (k n s : ℕ)
    → copy_out buf s (k + n) ≡ take k (copy_out buf s (k + n)) ++ copy_out buf (s + k) n
unfolding copy_out take
copy_out-take buf zero n s =
    let here : s + 0 ≡ s = omega arith in let all : 0 + n ≡ n = omega arith in rw (here, all) refl
copy_out-take buf (suc k) n s =
    let e : suc k + n ≡ suc (k + n) = omega arith in
    let at : s + suc k ≡ s + 1 + k = omega arith in
    rw (e, at) (ap (λ l. buf s ∷ l) (copy_out-take buf k n (s + 1)))

size-flat : (b : Buffer) → IsFlat b → size b ≡ b.head - b.tail
unfolding size
size-flat b v = ground (arith, v.room, v.ahead)

contents-flat : (b : Buffer) → IsFlat b → contents b ≡ offered b
unfolding offered
contents-flat b v =
    cells-flat b.buf b.max_size (size b) b.tail (ground (arith, size-flat b v, v.ahead, v.inside))

length-copy_out : (buf : ℕ → ℕ) (s n : ℕ) → length (copy_out buf s n) ≡ n
unfolding copy_out length
length-copy_out buf s zero = refl
length-copy_out buf s (suc n) = rw (length-copy_out buf (s + 1) n) refl

length-offered : (b : Buffer) → length (offered b) ≡ size b
unfolding offered
length-offered b = length-copy_out b.buf b.tail (size b)

-- Taking n bytes out of a flat buffer.
on-tail : (n : ℕ) (b : Buffer) → IsFlat b → n ≤ size b → (advance_get n b).tail ≡ b.tail + n
unfolding advance_get
on-tail n b v le =
    let bound : b.tail + n < b.max_size = ground (arith, size-flat b v, v.ahead, v.inside) in
    let low : (b.tail + n) % 2 ^ 64 ≡ b.tail + n = mod-eq_of_lt (omega (arith, v.small)) in
    rw low (mod-eq_of_lt bound)

advance_get-IsFlat : (n : ℕ) (b : Buffer) → IsFlat b → n ≤ size b → IsFlat (advance_get n b)
unfolding advance_get
advance_get-IsFlat n b v le = record {
  room = v.room;
  ahead = ground (arith, on-tail n b v le, size-flat b v, v.ahead);
  inside = v.inside;
  small = v.small;
}

size-advance_get :
    (n : ℕ) (b : Buffer) → IsFlat b → n ≤ size b → size (advance_get n b) + n ≡ size b
unfolding advance_get
size-advance_get n b v le =
    let left = size-flat _ (advance_get-IsFlat n b v le) in
    ground (arith, left, on-tail n b v le, size-flat b v, v.ahead)

advance_get-offered :
    (n : ℕ) (b : Buffer)
    → IsFlat b
    → n ≤ size b
    → offered b ≡ take n (offered b) ++ offered (advance_get n b)
unfolding offered advance_get
advance_get-offered n b v le =
    let left : size (advance_get n b) ≡ size b - n = ground (arith, size-advance_get n b v le) in
    let whole : size b ≡ n + (size b - n) = omega arith in
    rw (whole, left, on-tail n b v le) (copy_out-take b.buf n (size b - n) b.tail)

-- What a send must come to: it returns, what is left is flat, and the bytes of the buffer are those
-- that the system took and then those that are left.
unfoldable pub Sends : {W : Type 0} → Buffer → Outcome (Sent W) → Type 0
Sends b (returned s) = IsFlat s.buffer × (contents b ≡ s.bytes ++ contents s.buffer)
Sends b running = ⊥
Sends b overrun = ⊥

-- What the system promises of write: it takes at most what it is offered, and the number of further
-- interruptions, which `patience` bounds, goes down with each.
pub record IsPatient {W : Type 0} (sock : Socket W) (patience : W → ℕ) : Type 0 where
  pub within :
      (l : List ℕ) (w : W) (n : ℕ)
      → (sock.write l w).0 ≡ took n
      → (n ≤ length l) × (patience (sock.write l w).1 ≤ patience w)
  pub patient :
      (l : List ℕ) (w : W)
      → (sock.write l w).0 ≡ write_failed interrupted
      → patience (sock.write l w).1 < patience w

module _ {W : Type 0} (sock : Socket W) (patience : W → ℕ) (law : IsPatient sock patience) where
  fits : (b : Buffer) → IsFlat b → ltb b.max_size (b.tail + size b) ≡ false
  fits b v = ground (arith, size-flat b v, v.ahead, v.inside)

  nothing-Sends :
      (b : Buffer) (w : W)
      → IsFlat b
      → Sends b (returned (record { bytes = []; buffer = b; world = w }))
  unfolding Sends
  nothing-Sends b w v = (v, refl)

  prepend-Sends :
      (n : ℕ) (b : Buffer) (o : Outcome (Sent W))
      → IsFlat b
      → n ≤ size b
      → Sends (advance_get n b) o
      → Sends b (prepend (take n (offered b)) o)
  unfolding Sends prepend
  prepend-Sends n b (returned s) v le (flat, e) = (
    flat,
    contents-flat b v
        ∙ advance_get-offered n b v le
        ∙ ap (λ l. take n (offered b) ++ l)
            (sym (contents-flat _ (advance_get-IsFlat n b v le)) ∙ e)
        ∙ sym (append_assoc (take n (offered b)) s.bytes (contents s.buffer)),
  )
  prepend-Sends n b running v le h = h
  prepend-Sends n b overrun v le h = h

  -- One call of write, by its answer, given what the calls after it come to.
  call-Sends :
      (fuel : ℕ) (b : Buffer) (w : W)
      → IsFlat b
      → size b + patience w < suc fuel
      → ((c : Buffer) (u : W)
          → IsFlat c
          → size c + patience u < fuel
          → Sends c (send sock fuel c u))
      → (a : Wrote) → (sock.write (offered b) w).0 ≡ a
      → Sends b (send sock (suc fuel) b w)
  unfolding send
  call-Sends fuel b w v h ih (took zero) e =
      rw (send, fits b v, e) (nothing-Sends b (sock.write (offered b) w).1 v)
  call-Sends fuel b w v h ih (took (suc n)) e =
      let (some_of, calm) = law.within (offered b) w (suc n) e in
      let le : suc n ≤ size b = omega (arith, length-offered b) in
      let flat = advance_get-IsFlat (suc n) b v le in
      let less : size (advance_get (suc n) b) + suc n ≡ size b = size-advance_get (suc n) b v le in
      rw (send, fits b v, e)
        (prepend-Sends (suc n) b _ v le (ih _ _ flat (omega (arith, less, calm, h))))
  call-Sends fuel b w v h ih (write_failed interrupted) e =
      rw (send, fits b v, e) (ih _ _ v (omega (arith, law.patient (offered b) w e, h)))
  call-Sends fuel b w v h ih (write_failed would_block) e =
      rw (send, fits b v, e) (nothing-Sends b (sock.write (offered b) w).1 v)
  call-Sends fuel b w v h ih (write_failed broken) e =
      rw (send, fits b v, e) (nothing-Sends b (sock.write (offered b) w).1 v)

  -- On a buffer that is not full and does not go around the end of its memory, over a system that
  -- takes at most what it is offered, and with fuel above the bytes held plus the interruptions to
  -- come: send returns, the bytes that the system took and then those that are left are the ones
  -- the buffer held, and the buffer that is left does not go around either.
  pub send-Sends :
      (fuel : ℕ) (b : Buffer) (w : W)
      → IsFlat b
      → size b + patience w < fuel
      → Sends b (send sock fuel b w)
  send-Sends zero b w v h = absurd (omega arith)
  send-Sends (suc fuel) b w v h = call-Sends fuel b w v h (send-Sends fuel) _ refl
