-- ===== src/Network/Conn/Receive.antt =====
-- What a connection reads.
use alphadb.Prelude.{ℕ, zero, suc, ◌-◌, ◌^◌, ◌≡◌, refl, false, [], arith, ap}
use alphadb.Network.Buffer.{Buffer, size, advance_put}
use alphadb.Network.Conn.{Socket, received, read_failed, broken, returned, running, handle_read}

size-empty : (b : Buffer) → b.full ≡ false → b.head ≡ b.tail → size b ≡ 0
unfolding size
size-empty b room met = ground arith

module _ {W : Type 0} (sock : Socket W) where
  -- A read of no bytes answers that it has received none.
  abbrev pub ReadsNothing : Type 0
  ReadsNothing = (w : W) → (sock.read 0 w).0 ≡ received []

  -- A connection whose buffer is empty asks for no bytes, and so it never receives any: it makes one
  -- call, and the buffer stays as it is.
  pub handle_read-idle :
      (fuel : ℕ) (b : Buffer) (w : W)
      → ReadsNothing
      → b.full ≡ false
      → b.head ≡ b.tail
      → handle_read sock (suc fuel) b w ≡ returned (b, (sock.read 0 w).1)
  unfolding handle_read
  handle_read-idle fuel b w law room met =
      let e : size b ≡ 0 = size-empty b room met in
      let answer : (sock.read (size b) w).0 ≡ received [] = rw e (law w) in
      rw (handle_read, answer) (ap (λ n. returned (b, (sock.read n w).1)) e)

  -- On a socket that answers every read with an error other than the three that are tested,
  -- handle_read is running after any number of calls.
  pub handle_read-endless :
      (fuel : ℕ) (b : Buffer) (w : W)
      → ((n : ℕ) (v : W) → (sock.read n v).0 ≡ read_failed broken)
      → handle_read sock fuel b w ≡ running
  unfolding handle_read
  handle_read-endless zero b w law = refl
  handle_read-endless (suc fuel) b w law =
      rw (handle_read, law (size b) w)
        (handle_read-endless fuel (advance_put (2 ^ 64 - 1) b) (sock.read (size b) w).1 law)
