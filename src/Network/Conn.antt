-- ===== src/Network/Conn.antt =====
-- network/conn.cc: the loops of a connection that read from and write to its socket. The calls of
-- the system are a parameter; the callbacks are run after the loops and are left out.
pub mod Send
pub mod Receive
use alphadb.Prelude.{
  ℕ, zero, suc, ◌+◌, ◌-◌, ◌^◌, Bool, true, false, List, [], ◌∷◌, ◌++◌, Option, none, some, ltb,
  length, take,
}
use alphadb.Network.Buffer.{Buffer, size, copy_in, copy_out, put_bytes, advance_get, advance_put}

-- EINTR, EAGAIN or EWOULDBLOCK, and every other number of an error
pub data Errno : Type 0 where
  interrupted would_block broken : Errno

-- The answer of a call: a number of bytes that were taken, and bytes that were received.
pub data Wrote : Type 0 where
  took : ℕ → Wrote
  write_failed : Errno → Wrote

pub data Got : Type 0 where
  received : List ℕ → Got
  read_failed : Errno → Got

-- write(sock, bytes) and read(sock, _, size); W is the state of the system.
pub record Socket (W : Type 0) : Type 0 where
  pub write : List ℕ → W → Wrote × W
  pub read : ℕ → W → Got × W

-- What a loop comes to: it returns, it is still running when the fuel is used up, or memory behind
-- the end of the buffer is accessed.
pub data Outcome (A : Type 0) : Type 0 where
  returned : A → Outcome A
  running overrun : Outcome A

-- A send: the bytes that the system took, in order, and what is left.
pub record Sent (W : Type 0) : Type 0 where
  pub bytes : List ℕ
  pub buffer : Buffer
  pub world : W

unfoldable pub prepend : {W : Type 0} → List ℕ → Outcome (Sent W) → Outcome (Sent W)
prepend l (returned s) = returned (record s { bytes = l ++ s.bytes })
prepend l running = running
prepend l overrun = overrun

-- What get_begin points to, as many bytes as the buffer says it has.
unfoldable pub offered : Buffer → List ℕ
offered b = copy_out b.buf b.tail (size b)

module _ {W : Type 0} (sock : Socket W) where
  -- conn::send(buffer&), `fuel` calls of write at most
  unfoldable pub send : ℕ → Buffer → W → Outcome (Sent W)
  send zero b w = running
  send (suc fuel) b w = elim (ltb b.max_size (b.tail + size b)) [
    | true ↦ overrun
    | false ↦
        let answer : Wrote × W = sock.write (offered b) w in
        elim answer.0 [
          | took zero ↦ returned (record { bytes = []; buffer = b; world = answer.1 })
          | took (suc n) ↦
              prepend (take (suc n) (offered b)) (send fuel (advance_get (suc n) b) answer.1)
          | write_failed interrupted ↦ send fuel b answer.1
          | write_failed would_block ↦
              returned (record { bytes = []; buffer = b; world = answer.1 })
          | write_failed broken ↦ returned (record { bytes = []; buffer = b; world = answer.1 })
        ]
  ]

  -- conn::handle_write, whose loop is the one of send
  unfoldable pub handle_write : ℕ → Buffer → W → Outcome (Sent W)
  handle_write fuel b w = send fuel b w

  -- conn::send(const char*, size_t), into the connection's own buffer
  unfoldable pub send_bytes : ℕ → List ℕ → Buffer → W → Outcome (Sent W)
  send_bytes fuel bytes b w = elim (put_bytes bytes b) [
    | none ↦ overrun
    | some filled ↦ send fuel filled w
  ]

  -- The loop of conn::handle_read, `fuel` calls of read at most: it asks for as many bytes as the
  -- buffer holds. An error that is none of the three goes on to advance_put(-1).
  unfoldable pub handle_read : ℕ → Buffer → W → Outcome (Buffer × W)
  handle_read zero b w = running
  handle_read (suc fuel) b w =
      let answer : Got × W = sock.read (size b) w in
      elim answer.0 [
        | received [] ↦ returned (b, answer.1)
        | received (c ∷ cs) ↦ elim (ltb b.max_size (b.head + length (c ∷ cs))) [
          | true ↦ overrun
          | false ↦
              handle_read fuel
                (advance_put (length (c ∷ cs)) (record b { buf = copy_in b.buf b.head (c ∷ cs) }))
                answer.1
        ]
        | read_failed interrupted ↦ handle_read fuel b answer.1
        | read_failed would_block ↦ returned (b, answer.1)
        | read_failed broken ↦ handle_read fuel (advance_put (2 ^ 64 - 1) b) answer.1
      ]
