-- ===== src/Network/Codec.antt =====
-- network/rpc/codec.h and codec.cc: what the codec of a connection does itself with the buffers of the
-- connection. The arguments of the calls have operators of their own.
pub mod Ready
pub mod Id
use alphadb.Prelude.{ℕ, ◌+◌, ◌-◌, ◌%◌, ◌^◌, Bool, not, List, Option, none, some, ltb, if◌then◌else◌}
use alphadb.Prelude.Int.{ℤ, pos, negsuc, int_lt, plus}
use alphadb.Prelude.Memory.{signed}
use alphadb.Network.Buffer.{Buffer, size, copy_out, put_bytes}
use alphadb.Network.Coding.{encode_uint, decode_uvarint, decode_varint}

-- What get_begin points to: the bytes from there to the end of the memory.
unfoldable pub begin_bytes : Buffer → List ℕ
begin_bytes b = copy_out b.buf b.tail (b.max_size - b.tail)

-- The conversion of a number to w bits without a sign.
unfoldable pub word : ℕ → ℤ → ℕ
word w (pos n) = n % 2 ^ w
word w (negsuc k) = 2 ^ w - 1 - k % 2 ^ w

-- codec::is_ready; the length that was read becomes an int, and the sum a size_t for the test. `none`
-- is an int that overflows, or a read past the end of the memory.
unfoldable pub is_ready : Buffer → Option Bool
is_ready b = elim (decode_varint (begin_bytes b)) [
  | none ↦ none
  | some (len, bytes) ↦
      let sum : ℤ = plus (signed (2 ^ 31) (word 32 len)) bytes in
      if int_lt sum (pos (2 ^ 31)) then some (not (ltb (word 64 sum) (size b))) else none
]

-- codec& operator<<(codec&, const rpc_id_t&)
unfoldable pub write_id : ℕ → Buffer → Option Buffer
write_id id b = put_bytes (encode_uint id) b

-- codec& operator>>(codec&, rpc_id_t&): the bytes stay in the buffer.
unfoldable pub read_id : Buffer → Option ℕ
read_id b = elim (decode_uvarint (begin_bytes b)) [ none ↦ none | some (id, bytes) ↦ some id ]
