-- ===== src/Network/Buffer.antt =====
-- network/buffer.h and network/buffer.cc: the ring buffer of a connection. A char is a number, the
-- memory a function of the index. The mutex is taken by one method at a time, and is left out;
-- head_ and tail_ are below max_size_, so that adding one to them does not wrap.
pub mod Queue
pub mod Faults
use alphadb.Prelude.{
  ℕ, zero, suc, ◌+◌, ◌-◌, ◌%◌, ◌^◌, Bool, true, false, ◌&&◌, ◌||◌, not, List, [], ◌∷◌, Option, none,
  some, ltb, leb, ◌==◌, if◌then◌else◌, update, length,
}

pub record Buffer : Type 0 where
  pub buf : ℕ → ℕ
  pub full : Bool
  pub head : ℕ
  pub tail : ℕ
  pub max_size : ℕ

unfoldable pub advance_get : ℕ → Buffer → Buffer
advance_get s b = record b { tail = (b.tail + s) % 2 ^ 64 % b.max_size }

unfoldable pub advance_put : ℕ → Buffer → Buffer
advance_put s b = record b { head = (b.head + s) % 2 ^ 64 % b.max_size }

unfoldable pub empty : Buffer → Bool
empty b = not b.full && b.head == b.tail

unfoldable pub size : Buffer → ℕ
size b =
    if b.full
    then b.max_size
    else if leb b.tail b.head
    then b.head - b.tail
    else b.max_size - (b.tail - b.head)

-- buffer::put(char)
unfoldable pub put : ℕ → Buffer → Buffer
put c b =
    let tail : ℕ = if b.full then (b.tail + 1) % b.max_size else b.tail in
    let head : ℕ = (b.head + 1) % b.max_size in
    record b { buf = update b.buf b.head c; tail = tail; head = head; full = head == tail }

-- memcpy to `i`, i + 1, ...
unfoldable pub copy_in : (ℕ → ℕ) → ℕ → List ℕ → ℕ → ℕ
copy_in buf i [] = buf
copy_in buf i (c ∷ cs) = copy_in (update buf i c) (i + 1) cs

unfoldable pub copy_out : (ℕ → ℕ) → ℕ → ℕ → List ℕ
copy_out buf i zero = []
copy_out buf i (suc n) = buf i ∷ copy_out buf (i + 1) n

-- buffer::put(const char*, size_t): the test for room has no body. `none` is a write past the end
-- of the memory.
unfoldable pub put_bytes : List ℕ → Buffer → Option Buffer
unfolding copy_in
put_bytes cs b =
    if ltb b.max_size (b.head + length cs)
    then none
    else some (record b {
      buf = copy_in b.buf b.head cs;
      head = (b.head + length cs) % 2 ^ 64 % b.max_size;
    })

-- buffer::get(): the char, and the buffer.
unfoldable pub get : Buffer → ℕ × Buffer
unfolding empty
get b =
    if empty b
    then (0, b)
    else (b.buf b.tail, record b { full = false; tail = (b.tail + 1) % b.max_size })

-- buffer::get(char*, size_t): the bytes that are copied out.
unfoldable pub get_bytes : ℕ → Buffer → Option (List ℕ × Buffer)
unfolding size copy_out
get_bytes len b =
    if ltb (size b) len
    then some ([], b)
    else if ltb b.max_size (b.tail + len)
    then none
    else some (
      copy_out b.buf b.tail len,
      record b { full = false; tail = (b.tail + len) % 2 ^ 64 % b.max_size },
    )

-- tail_ - s is taken modulo 2 ^ 64 before the remainder.
unfoldable pub unget : ℕ → Buffer → Buffer
unfolding size
unget s b =
    if b.full || ltb (size b) s
    then b
    else record b { tail = (b.tail + 2 ^ 64 - s) % 2 ^ 64 % b.max_size }

unfoldable pub reset : Buffer → Buffer
reset b = record b { head = b.tail; full = false }
