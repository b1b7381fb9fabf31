-- ===== src/Raft/Wire.antt =====
-- consensus/raft/rpc_args.cc and consensus/raft/log.cc: the arguments and the replies on the wire. The
-- local array `buf` starts with indeterminate bytes, a parameter; every field is written to its start.
pub mod Fields
use alphadb.Prelude.{
  ℕ, zero, suc, ◌+◌, ◌-◌, ◌*◌, ◌/◌, ◌%◌, ◌^◌, Bool, true, false, Option, none, some, List, [], ◌∷◌,
  ◌++◌, get_elem?, length, take, ◌==◌, if◌then◌else◌,
}
use alphadb.Network.Buffer.{Buffer, put, put_bytes, get, get_bytes, unget}
use alphadb.Network.Coding.{encode_uint, decode_uvarint}
use alphadb.Raft.State.{
  LogEntry, RequestVoteArgs, RequestVoteReply, AppendEntriesArgs, AppendEntriesReply,
}

-- bytes written from the start of an array
unfoldable pub overwrite : List ℕ → (ℕ → ℕ) → ℕ → ℕ
overwrite bs buf i = elim (get_elem? bs i) [ none ↦ buf i | some b ↦ b ]

-- `bytes += varint::encode_uint(buf, v)` for every field
unfoldable pub encode_all : List ℕ → ℕ × (ℕ → ℕ) → ℕ × (ℕ → ℕ)
encode_all [] s = s
encode_all (v ∷ vs) (bytes, buf) =
    encode_all vs (bytes + length (encode_uint v), overwrite (encode_uint v) buf)

-- The first n bytes of an array.
unfoldable pub cells : ℕ → (ℕ → ℕ) → List ℕ
cells zero buf = []
cells (suc n) buf = buf 0 ∷ cells n (λ i. buf (suc i))

-- `b->put(uint16_t(bytes)); b->put(buf, bytes)`: the number is converted to a char.
unfoldable pub put_message : ℕ × (ℕ → ℕ) → Buffer → Option Buffer
put_message (bytes, buf) b = put_bytes (cells bytes buf) (put (bytes % 2 ^ 16 % 256) b)

unfoldable pub bit : Bool → ℕ
bit b = if b then 1 else 0

-- the fields in the order in which they are encoded
unfoldable pub request_vote_fields : RequestVoteArgs → List ℕ
request_vote_fields a = a.term ∷ a.candidate_id ∷ a.last_log_index ∷ a.last_log_index ∷ []

unfoldable pub vote_reply_fields : RequestVoteReply → List ℕ
vote_reply_fields r = r.term ∷ bit r.vote_granted ∷ []

unfoldable pub append_entries_fields : AppendEntriesArgs → List ℕ
append_entries_fields a =
    a.term ∷ a.leader_id ∷ a.prev_log_index ∷ a.prev_log_term ∷ a.leader_commit ∷ []

unfoldable pub append_reply_fields : AppendEntriesReply → List ℕ
append_reply_fields r = r.term ∷ bit r.success ∷ []

unfoldable pub log_fields : LogEntry → List ℕ
log_fields e = e.index ∷ e.term ∷ []

unfoldable pub entry_fields : List LogEntry → List ℕ
entry_fields [] = []
entry_fields (e ∷ l) = e.index ∷ e.term ∷ entry_fields l

-- The operators << of the two kinds of vote, of the reply to an append, and of a log entry.
unfoldable pub send_request_vote_args : RequestVoteArgs → (ℕ → ℕ) → Buffer → Option Buffer
send_request_vote_args a junk = put_message (encode_all (request_vote_fields a) (0, junk))

unfoldable pub send_request_vote_reply : RequestVoteReply → (ℕ → ℕ) → Buffer → Option Buffer
send_request_vote_reply r junk = put_message (encode_all (vote_reply_fields r) (0, junk))

unfoldable pub send_append_entries_reply : AppendEntriesReply → (ℕ → ℕ) → Buffer → Option Buffer
send_append_entries_reply r junk = put_message (encode_all (append_reply_fields r) (0, junk))

unfoldable pub send_log : LogEntry → (ℕ → ℕ) → Buffer → Option Buffer
send_log e junk b =
    let (bytes, buf) = encode_all (log_fields e) (0, junk) in
    put_bytes (cells bytes buf) (put (bytes / 256 % 256) (put (bytes % 256) b))

-- The operator << of append_entries_args; the number of entries is a uint16_t.
unfoldable pub send_append_entries_args :
    AppendEntriesArgs → (ℕ → ℕ) → (ℕ → ℕ) → Buffer → Option Buffer
send_append_entries_args a junk junk' b =
    let size : ℕ = length a.log_entries % 2 ^ 16 in
    let (bytes, buf) = encode_all (append_entries_fields a) (0, junk) in
    let (bytes2, bbuf) = encode_all (entry_fields (take size a.log_entries)) (0, junk') in
    elim (put_bytes (cells bytes buf)
      (put (size % 256) (put ((bytes + bytes2) % 2 ^ 16 % 256) b))) [
        | none ↦ none
        | some b' ↦ put_bytes (cells bytes2 bbuf) b'
      ]

-- varint::decode_uvarint(b->get_begin(), bytes): at most ten bytes are read, from the tail on.
unfoldable pub decode_begin : Buffer → Option (ℕ × ℕ)
decode_begin b = decode_uvarint (cells 10 (λ i. b.buf (b.tail + i)))

-- What the operators >> share: the two bytes of the length are taken, every field is decoded at the
-- same place, and since `reallen` is 0 the bytes are put back unless none was decoded.
unfoldable pub receive : Buffer → Option (ℕ × Buffer)
receive b = elim (get_bytes 2 b) [
  | none ↦ none
  | some (_, g) ↦ elim (decode_begin g) [
    | none ↦ none
    | some (v, bytes) ↦ some (v, if bytes == 0 then g else unget (bytes + 2) g)
  ]
]

unfoldable pub receive_request_vote_args : Buffer → Option (RequestVoteArgs × Buffer)
receive_request_vote_args b = elim (receive b) [
  | none ↦ none
  | some (v, b') ↦
      some (record { term = v; candidate_id = v; last_log_index = v; last_log_term = v }, b')
]

unfoldable pub receive_request_vote_reply : Buffer → Option (RequestVoteReply × Buffer)
receive_request_vote_reply b = elim (receive b) [
  | none ↦ none
  | some (v, b') ↦ some (record { term = v; vote_granted = if v == 0 then false else true }, b')
]

unfoldable pub receive_append_entries_reply : Buffer → Option (AppendEntriesReply × Buffer)
receive_append_entries_reply b = elim (receive b) [
  | none ↦ none
  | some (v, b') ↦ some (record { term = v; success = if v == 0 then false else true }, b')
]

-- The operator >> of append_entries_args, which takes two more bytes and leaves the entries alone.
unfoldable pub receive_append_entries_args :
    Buffer → List LogEntry → Option (AppendEntriesArgs × Buffer)
receive_append_entries_args b entries = elim (get_bytes 2 b) [
  | none ↦ none
  | some (_, g) ↦ elim (decode_begin g) [
    | none ↦ none
    | some (v, bytes) ↦ elim (get_bytes 2 g) [
      | none ↦ none
      | some (_, h) ↦ some (
        record {
          term = v;
          leader_id = v;
          prev_log_index = v;
          prev_log_term = v;
          leader_commit = v;
          log_entries = entries;
        },
        if bytes == 0 then h else unget (bytes + 2) h,
      )
    ]
  ]
]

-- The operator >> of a log entry, which takes one byte of the length, a char.
unfoldable pub receive_log : Buffer → Option (LogEntry × Buffer)
receive_log b =
    let (len, g) = get b in
    elim (decode_begin g) [
      | none ↦ none
      | some (v, bytes) ↦
          some (record { index = v; term = v }, if bytes == len then g else unget (bytes + 2) g)
    ]
