-- ===== src/Network/Coding.antt =====
-- network/coding.cc: integers in groups of seven bits, the least significant group first. What is
-- written to a buffer is the list of its bytes, and the number that the encoder returns is its
-- length; a byte is a number below 256.
pub mod RoundTrip
use alphadb.Prelude.{
  ℕ, zero, suc, ◌+◌, ◌-◌, ◌*◌, ◌/◌, ◌%◌, ◌^◌, Bool, List, [], ◌∷◌, Option, none, some, ltb, leb,
  ◌==◌, if◌then◌else◌, length,
}
use alphadb.Prelude.Int.{ℤ, pos, negsuc}

-- The loop of varint::encode_uint, `fuel` rounds at most; a group that is not the last gets the
-- bit 0x80.
unfoldable pub encode_groups : ℕ → ℕ → List ℕ
encode_groups zero val = []
encode_groups (suc fuel) val =
    let rest = encode_groups fuel (val / 128) in
    if val / 128 == 0 then val % 128 ∷ [] else (val % 128 + 128) ∷ rest

-- varint::encode_uint: 64 bits are ten groups.
unfoldable pub encode_uint : ℕ → List ℕ
unfolding encode_groups
encode_uint val = encode_groups 10 val

-- The loop of varint::decode_uvarint, at byte `i`, where `shift` is 7 * i. The groups do not
-- overlap, so that `|=` is a sum; the bits shifted past 64 are lost. A shift by 64 or more and a
-- read past the data are undefined: `none`.
unfoldable pub decode_groups : ℕ → ℕ → List ℕ → Option (ℕ × ℕ)
decode_groups i val [] = none
decode_groups i val (b ∷ bytes) =
    let more = decode_groups (i + 1) (val + b % 128 * 2 ^ (7 * i) % 2 ^ 64) bytes in
    if leb 64 (7 * i)
    then none
    else if b / 128 % 2 == 0
    then some (val + b % 128 * 2 ^ (7 * i) % 2 ^ 64, i + 1)
    else more

-- varint::decode_uvarint: the value, and the number of bytes.
unfoldable pub decode_uvarint : List ℕ → Option (ℕ × ℕ)
unfolding decode_groups
decode_uvarint bytes = decode_groups 0 0 bytes

-- static_cast<uint64_t>(val < 0 ? ~(val << 1) : (val << 1)), and back.
unfoldable pub to_zigzag : ℤ → ℕ
to_zigzag (pos n) = 2 * n % 2 ^ 64
to_zigzag (negsuc k) = (2 * k + 1) % 2 ^ 64

unfoldable pub of_zigzag : ℕ → ℤ
of_zigzag u = if u % 2 == 0 then pos (u / 2) else negsuc (u / 2)

-- varint::encode_int
unfoldable pub encode_int : ℤ → List ℕ
unfolding encode_uint to_zigzag
encode_int val = encode_uint (to_zigzag val)

-- varint::decode_varint
unfoldable pub decode_varint : List ℕ → Option (ℤ × ℕ)
unfolding decode_uvarint of_zigzag
decode_varint bytes = elim (decode_uvarint bytes) [
  | none ↦ none
  | some (u, count) ↦ some (of_zigzag u, count)
]
