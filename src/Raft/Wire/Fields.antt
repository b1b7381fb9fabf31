-- ===== src/Raft/Wire/Fields.antt =====
-- What the receiver finds at the start of a message.
use alphadb.Prelude.{
  ℕ, zero, suc, ◌+◌, ◌^◌, ◌≤◌, ◌<◌, ◌≡◌, refl, ap, ◌∙◌, some, List, [], ◌∷◌, ◌++◌, length, arith,
}
use alphadb.Network.Coding.{encode_uint, decode_uvarint}
use alphadb.Network.Coding.RoundTrip.{decode_uvarint-encode_uint}
use alphadb.Raft.State.{RequestVoteArgs, AppendEntriesArgs, AppendEntriesReply, RequestVoteReply}
use alphadb.Raft.Wire.{
  overwrite, encode_all, cells, bit, request_vote_fields, vote_reply_fields, append_entries_fields,
  append_reply_fields,
}

-- What was written is a prefix of what is sent.
cells-overwrite :
    (bs : List ℕ) (n : ℕ) (buf : ℕ → ℕ)
    → length bs ≤ n
    → (rest : List ℕ) × (cells n (overwrite bs buf) ≡ bs ++ rest)
unfolding cells overwrite
cells-overwrite [] n buf h = (cells n buf, refl)
cells-overwrite (b ∷ bs) zero buf h = absurd (omega arith)
cells-overwrite (b ∷ bs) (suc n) buf h =
    let (rest, e) = cells-overwrite bs n (λ i. buf (suc i)) (omega arith) in
    (rest, ap (λ l. b ∷ l) e)

-- The last field of a list that starts with `u`.
unfoldable pub last_of : ℕ → List ℕ → ℕ
last_of u [] = u
last_of u (v ∷ vs) = last_of v vs

-- The start of a message decodes to the last field, whatever has been written before.
encode_all-last :
    (u : ℕ) (vs : List ℕ) (bytes : ℕ) (buf : ℕ → ℕ)
    → last_of u vs < 2 ^ 64
    → let (n, sent) = encode_all (u ∷ vs) (bytes, buf) in
      decode_uvarint (cells n sent) ≡ some (last_of u vs, length (encode_uint (last_of u vs)))
unfolding encode_all last_of
encode_all-last u [] bytes buf h =
    let (rest, e) =
      cells-overwrite (encode_uint u) (bytes + length (encode_uint u)) buf (omega arith) in
    ap decode_uvarint e ∙ decode_uvarint-encode_uint u rest h
encode_all-last u (v ∷ vs) bytes buf h =
    encode_all-last v vs (bytes + length (encode_uint u)) (overwrite (encode_uint u) buf) h

-- The bytes of a message behind its length.
unfoldable pub payload : List ℕ → (ℕ → ℕ) → List ℕ
payload fields junk = cells (encode_all fields (0, junk)).0 (encode_all fields (0, junk)).1

-- In a message of each of the four kinds, with a last field below 2 ^ 64, the bytes behind the
-- length decode to the last field that was encoded, where the term was meant: last_log_index,
-- vote_granted, leader_commit and success.
pub payload-last :
    (a : RequestVoteArgs) (r : RequestVoteReply) (e : AppendEntriesArgs) (s : AppendEntriesReply)
    (junk : ℕ → ℕ)
    → a.last_log_index < 2 ^ 64
    → e.leader_commit < 2 ^ 64
    → (decode_uvarint (payload (request_vote_fields a) junk)
        ≡ some (a.last_log_index, length (encode_uint a.last_log_index)))
      × (decode_uvarint (payload (vote_reply_fields r) junk)
          ≡ some (bit r.vote_granted, length (encode_uint (bit r.vote_granted))))
      × (decode_uvarint (payload (append_entries_fields e) junk)
          ≡ some (e.leader_commit, length (encode_uint e.leader_commit)))
      × (decode_uvarint (payload (append_reply_fields s) junk)
          ≡ some (bit s.success, length (encode_uint (bit s.success))))
unfolding payload last_of request_vote_fields vote_reply_fields append_entries_fields
    append_reply_fields bit
payload-last a r e s junk h k = (
  encode_all-last a.term (a.candidate_id ∷ a.last_log_index ∷ a.last_log_index ∷ []) 0 junk h,
  encode_all-last r.term (bit r.vote_granted ∷ []) 0 junk (ground arith),
  encode_all-last e.term (e.leader_id ∷ e.prev_log_index ∷ e.prev_log_term ∷ e.leader_commit ∷ []) 0
      junk k,
  encode_all-last s.term (bit s.success ∷ []) 0 junk (ground arith),
)
