-- ===== src/Network/Codec/Ready.antt =====
-- When a codec takes a message for whole.
use alphadb.Prelude.{ℕ, ◌+◌, ◌^◌, ◌<◌, ◌≡◌, refl, true, not, List, ◌++◌, some, ltb, arith, length}
use alphadb.Prelude.Int.{pos, int_lt, plus}
use alphadb.Prelude.Memory.{signed}
use alphadb.Network.Buffer.{Buffer, size}
use alphadb.Network.Coding.{encode_int, decode_varint}
use alphadb.Network.Coding.RoundTrip.{decode_varint-encode_int}
use alphadb.Network.Codec.{begin_bytes, word, is_ready}

signed-word : (n : ℕ) → n < 2 ^ 31 → signed (2 ^ 31) (word 32 (pos n)) ≡ pos n
unfolding signed word
signed-word n small = ground arith

-- If the memory from get_begin on starts with the length of a message, and the length and its own
-- bytes are below 2 ^ 31 together, is_ready answers true exactly if the buffer holds no more than
-- these bytes and the message.
is_ready-at_most :
    (b : Buffer) (len : ℕ) (rest : List ℕ)
    → begin_bytes b ≡ encode_int (pos len) ++ rest
    → len + length (encode_int (pos len)) < 2 ^ 31
    → is_ready b ≡ some (not (ltb (len + length (encode_int (pos len))) (size b)))
unfolding is_ready word
is_ready-at_most b len rest e small =
    let read : decode_varint (begin_bytes b) ≡ some (pos len, length (encode_int (pos len))) =
      rw e (decode_varint-encode_int (pos len) rest (omega arith)) in
    let whole : int_lt (plus (pos len) (length (encode_int (pos len)))) (pos (2 ^ 31)) ≡ true =
      ground arith in
    let fits : word 64 (plus (pos len) (length (encode_int (pos len))))
        ≡ len + length (encode_int (pos len)) =
      ground arith in
    rw (is_ready, read, signed-word len (omega arith), whole, fits) refl
