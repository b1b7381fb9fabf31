-- ===== src/Tests/Wire.antt =====
-- The codec and the ring buffer at concrete numbers and buffers.
use alphadb.Prelude.{
  ◌+◌, ◌≡◌, refl, none, false, [], ◌∷◌, ◌++◌, some, arith, if◌then◌else◌, length, drop,
}
use alphadb.Network.Coding.{encode_uint, decode_uvarint}
use alphadb.Network.Coding.RoundTrip.{decode_uvarint-encode_uint}
use alphadb.Network.Codec.{write_id, read_id}
use alphadb.Network.Codec.Id.{write_id-read_id}
use alphadb.Network.Buffer.{Buffer, put}
use alphadb.Network.Buffer.Queue.{IsRing, contents, put-contents}

decode_uvarint-encode_uint_example :
    decode_uvarint (encode_uint 300 ++ 9 ∷ []) ≡ some (300, length (encode_uint 300))
decode_uvarint-encode_uint_example = decode_uvarint-encode_uint 300 (9 ∷ []) (omega arith)

-- An empty buffer whose end is in the middle of its memory.
abbrev idle : Buffer
idle = record { buf = λ i. 10 + i; full = false; head = 3; tail = 3; max_size = 16 }

write_id-read_id_example :
    (elim (write_id 300 idle) [ none ↦ none | some b ↦ read_id b ]) ≡ some 300
unfolding encode_uint
write_id-read_id_example = write_id-read_id 300 idle refl (omega arith) (omega arith)

-- Three of four places are used, around the end.
abbrev ring : Buffer
ring = record { buf = λ i. 10 + i; full = false; head = 1; tail = 2; max_size = 4 }

ring-IsRing : IsRing ring
ring-IsRing = record { head = omega arith; tail = omega arith; met = λ h. absurd (ground arith) }

put-contents_example :
    IsRing (put 7 ring)
    × (contents (put 7 ring) ≡ drop (if false then 1 else 0) (contents ring) ++ 7 ∷ [])
put-contents_example = put-contents 7 ring ring-IsRing

-- One byte, at the start of the memory of the default size.
abbrev started : Buffer
started = record { buf = λ i. 0; full = false; head = 1; tail = 0; max_size = 65535 }
