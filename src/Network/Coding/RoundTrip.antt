-- ===== src/Network/Coding/RoundTrip.antt =====
-- The decoders of network/coding.cc applied to what the encoders write.
use alphadb.Prelude.{
  ℕ, zero, suc, ◌+◌, ◌*◌, ◌/◌, ◌%◌, ◌^◌, ◌<◌, ◌≡◌, refl, inl, inr, true, false, List, [], ◌∷◌, ◌++◌,
  some, arith, leb, ◌==◌, length, Bool-cases, ◌∙◌, ap,
}
use alphadb.Prelude.Int.{ℤ, pos, negsuc}
use native.Mathlib.Omega.{pow_step}
use alphadb.Network.Coding.{
  encode_groups, encode_uint, decode_groups, decode_uvarint, to_zigzag, of_zigzag, encode_int,
  decode_varint,
}

-- The next seven bits: the power grows by 2 ^ 7.
next_power : (i : ℕ) → 2 ^ (7 * (i + 1)) ≡ 128 * 2 ^ (7 * i)
next_power i =
    let e : 7 * (i + 1) ≡ suc (suc (suc (suc (suc (suc (suc (7 * i))))))) = omega arith in
    rw e (
      omega (
        arith,
        pow_step 2 (7 * i),
        pow_step 2 (suc (7 * i)),
        pow_step 2 (suc (suc (7 * i))),
        pow_step 2 (suc (suc (suc (7 * i)))),
        pow_step 2 (suc (suc (suc (suc (7 * i))))),
        pow_step 2 (suc (suc (suc (suc (suc (7 * i)))))),
        pow_step 2 (suc (suc (suc (suc (suc (suc (7 * i))))))),
      ))

-- A number, by its lowest group.
split_group : (v p : ℕ) → v * p ≡ 128 * (v / 128 * p) + v % 128 * p
split_group v p =
    let e : v ≡ 128 * (v / 128) + v % 128 = omega arith in ap (λ x. x * p) e ∙ omega arith

decode_more :
    (i r acc : ℕ) (bytes : List ℕ)
    → r < 128
    → leb 64 (7 * i) ≡ false
    → r * 2 ^ (7 * i) % 2 ^ 64 ≡ r * 2 ^ (7 * i)
    → decode_groups i acc ((r + 128) ∷ bytes) ≡ decode_groups (i + 1) (acc + r * 2 ^ (7 * i)) bytes
unfolding decode_groups
decode_more i r acc bytes small room low =
    let group : (r + 128) % 128 ≡ r = omega arith in
    let goes_on : ((r + 128) / 128 % 2 == 0) ≡ false = ground arith in
    rw (decode_groups, room, goes_on, group, low) refl

-- A last group.
decode_last :
    (i r acc : ℕ) (bytes : List ℕ)
    → r < 128
    → leb 64 (7 * i) ≡ false
    → r * 2 ^ (7 * i) % 2 ^ 64 ≡ r * 2 ^ (7 * i)
    → decode_groups i acc (r ∷ bytes) ≡ some (acc + r * 2 ^ (7 * i), i + 1)
unfolding decode_groups
decode_last i r acc bytes small room low = ground arith

next_power' : (n : ℕ) → 2 ^ (7 * suc n) ≡ 128 * 2 ^ (7 * n)
next_power' n = let e : suc n ≡ n + 1 = omega arith in ap (λ k. 2 ^ (7 * k)) e ∙ next_power n

lowest :
    (val i : ℕ)
    → val * 2 ^ (7 * i) < 2 ^ 64
    → val % 128 * 2 ^ (7 * i) % 2 ^ 64 ≡ val % 128 * 2 ^ (7 * i)
lowest val i fits = omega (arith, split_group val (2 ^ (7 * i)))

-- A number of one group.
decode-encode_last :
    (n i val acc : ℕ) (rest : List ℕ)
    → (val / 128 == 0) ≡ true
    → leb 64 (7 * i) ≡ false
    → val * 2 ^ (7 * i) < 2 ^ 64
    → decode_groups i acc (encode_groups (suc n) val ++ rest)
      ≡ some (acc + val * 2 ^ (7 * i), i + length (encode_groups (suc n) val))
unfolding encode_groups
decode-encode_last n i val acc rest last room fits =
    let one : encode_groups (suc n) val ≡ val % 128 ∷ [] = ground arith in
    rw one (
      decode_last i (val % 128) acc rest (omega arith) room (lowest val i fits)
      ∙ ground (arith, split_group val (2 ^ (7 * i))))

decode-encode_groups :
    (n i val acc : ℕ) (rest : List ℕ)
    → i + suc n ≡ 10
    → val < 2 ^ (7 * suc n)
    → val * 2 ^ (7 * i) < 2 ^ 64
    → decode_groups i acc (encode_groups (suc n) val ++ rest)
      ≡ some (acc + val * 2 ^ (7 * i), i + length (encode_groups (suc n) val))
unfolding encode_groups
decode-encode_groups zero i val acc rest places small fits =
    decode-encode_last zero i val acc rest (ground arith) (ground arith) fits
decode-encode_groups (suc m) i val acc rest places small fits =
    let room : leb 64 (7 * i) ≡ false = ground arith in
    elim (Bool-cases (val / 128 == 0)) [
      | inl last ↦ decode-encode_last (suc m) i val acc rest last room fits
      | inr more ↦
          let high : val / 128 * 2 ^ (7 * (i + 1)) ≡ 128 * (val / 128 * 2 ^ (7 * i)) =
            ap (λ x. val / 128 * x) (next_power i) ∙ omega arith in
          let whole = split_group val (2 ^ (7 * i)) in
          let one : encode_groups (suc (suc m)) val
              ≡ (val % 128 + 128) ∷ encode_groups (suc m) (val / 128) =
            ground arith in
          rw one (
            decode_more i (val % 128) acc (encode_groups (suc m) (val / 128) ++ rest) (omega arith)
              room (lowest val i fits)
            ∙ decode-encode_groups m (i + 1) (val / 128) (acc + val % 128 * 2 ^ (7 * i)) rest
                (omega arith) (omega (arith, next_power' (suc m))) (omega (arith, high, whole))
            ∙ ground (arith, high, whole))
    ]

-- For every number below 2 ^ 64 and whatever bytes follow, decoding what encode_uint wrote answers
-- the number and the number of bytes that were written.
pub decode_uvarint-encode_uint :
    (val : ℕ) (rest : List ℕ)
    → val < 2 ^ 64
    → decode_uvarint (encode_uint val ++ rest) ≡ some (val, length (encode_uint val))
unfolding encode_uint decode_uvarint
decode_uvarint-encode_uint val rest fits =
    decode-encode_groups 9 0 val 0 rest refl (omega arith) (omega arith) ∙ ground arith

abbrev pub IsInt64 : ℤ → Type 0
IsInt64 (pos n) = n < 2 ^ 63
IsInt64 (negsuc k) = k < 2 ^ 63

zigzag_back : (z : ℤ) → IsInt64 z → of_zigzag (to_zigzag z) ≡ z
unfolding of_zigzag to_zigzag
zigzag_back (pos n) fits = ground arith
zigzag_back (negsuc k) fits = ground arith

zigzag_fits : (z : ℤ) → to_zigzag z < 2 ^ 64
unfolding to_zigzag
zigzag_fits (pos n) = omega arith
zigzag_fits (negsuc k) = omega arith

-- For every signed number of 64 bits and whatever bytes follow, decoding what encode_int wrote
-- answers the number and the number of bytes that were written.
pub decode_varint-encode_int :
    (val : ℤ) (rest : List ℕ)
    → IsInt64 val
    → decode_varint (encode_int val ++ rest) ≡ some (val, length (encode_int val))
unfolding decode_varint encode_int
decode_varint-encode_int val rest fits = rw (
  decode_varint,
  encode_int,
  decode_uvarint-encode_uint (to_zigzag val) rest (zigzag_fits val),
  zigzag_back val fits,
)
