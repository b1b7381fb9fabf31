-- ===== src/Network/Codec/Id.antt =====
-- The id of a call through the buffer of a connection.
use alphadb.Prelude.{
  ℕ, suc, ◌+◌, ◌-◌, ◌%◌, ◌^◌, ◌<◌, ◌≤◌, ◌≡◌, refl, false, List, [], ◌∷◌, ◌++◌, some, none, ltb,
  arith, length, update, ◌∙◌,
}
use alphadb.Network.Buffer.{Buffer, put_bytes, copy_in, copy_out}
use alphadb.Network.Coding.{encode_uint}
use alphadb.Network.Coding.RoundTrip.{decode_uvarint-encode_uint}
use alphadb.Network.Codec.{begin_bytes, write_id, read_id}

copy_in-before : (buf : ℕ → ℕ) (j k : ℕ) (cs : List ℕ) → k < j → copy_in buf j cs k ≡ buf k
unfolding copy_in
copy_in-before buf j k [] below = refl
copy_in-before buf j k (c ∷ cs) below =
    copy_in-before (update buf j c) (j + 1) k cs (omega arith) ∙ ground arith

-- What was copied is read back, and what is behind it follows.
copy_out-copy_in :
    (buf : ℕ → ℕ) (i n : ℕ) (cs : List ℕ)
    → copy_out (copy_in buf i cs) i (length cs + n)
      ≡ cs ++ copy_out (copy_in buf i cs) (i + length cs) n
unfolding copy_out copy_in length
copy_out-copy_in buf i n [] =
    let here : i + 0 ≡ i = omega arith in
    let none_more : 0 + n ≡ n = omega arith in rw (here, none_more) refl
copy_out-copy_in buf i n (c ∷ cs) =
    let first : copy_in (update buf i c) (i + 1) cs i ≡ c =
      copy_in-before (update buf i c) (i + 1) i cs (omega arith) ∙ ground arith in
    let count : suc (length cs) + n ≡ suc (length cs + n) = omega arith in
    let on : i + suc (length cs) ≡ i + 1 + length cs = omega arith in
    rw (count, on, copy_out, first, copy_out-copy_in (update buf i c) (i + 1) n cs) refl

-- The buffer that write_id leaves starts with the id, if it was empty and there is room.
written :
    (id : ℕ) (b : Buffer)
    → b.head ≡ b.tail
    → b.tail + length (encode_uint id) ≤ b.max_size
    → id < 2 ^ 64
    → read_id (record b {
      buf = copy_in b.buf b.tail (encode_uint id);
      head = (b.tail + length (encode_uint id)) % 2 ^ 64 % b.max_size;
    })
      ≡ some id
unfolding read_id begin_bytes
written id b met room fits =
    let n = b.max_size - b.tail - length (encode_uint id) in
    let whole : b.max_size - b.tail ≡ length (encode_uint id) + n = omega arith in
    rw
      (
        read_id,
        begin_bytes,
        whole,
        copy_out-copy_in b.buf b.tail n (encode_uint id),
        decode_uvarint-encode_uint id
            (copy_out (copy_in b.buf b.tail (encode_uint id)) (b.tail + length (encode_uint id)) n)
            fits,
      )
      refl

-- If a buffer is empty, and the encoded id fits between its end and the end of the memory, then the
-- id that write_id puts into it is the one that read_id answers.
pub write_id-read_id :
    (id : ℕ) (b : Buffer)
    → b.head ≡ b.tail
    → b.tail + length (encode_uint id) ≤ b.max_size
    → id < 2 ^ 64
    → (elim (write_id id b) [ none ↦ none | some b' ↦ read_id b' ]) ≡ some id
unfolding write_id put_bytes
write_id-read_id id b met room fits =
    let inside : ltb b.max_size (b.tail + length (encode_uint id)) ≡ false = ground arith in
    rw (write_id, put_bytes, met, inside) (written id b met room fits)
