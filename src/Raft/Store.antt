-- ===== src/Raft/Store.antt =====
-- consensus/raft/raft_server.cc, the file of the persistent state: the text that
-- persist_state_to_disk writes, and how read_state_from_disk reads it. A text is a list of bytes.
-- How a stream prints and reads a struct log is a parameter: the source has this for a codec only.
pub mod Digits
pub mod Read
use alphadb.Prelude.{
  ℕ, zero, suc, ◌+◌, ◌-◌, ◌*◌, ◌/◌, ◌%◌, Bool, true, false, ◌&&◌, ◌||◌, not, Option, none, some,
  List, [], ◌∷◌, ◌++◌, ◌==◌, ltb, leb, if◌then◌else◌, length,
}
use alphadb.Prelude.Int.{ℤ, pos, negsuc}
use alphadb.Raft.State.{LogEntry, RaftServer}

-- operator<< of an unsigned number, in decimal; `fuel` numbers from 10 up are divided by 10.
unfoldable pub digits : ℕ → ℕ → List ℕ
digits zero n = (48 + n % 10) ∷ []
digits (suc fuel) n =
    let rest = digits fuel (n / 10) in
    if ltb n 10 then (48 + n) ∷ [] else rest ++ ((48 + n % 10) ∷ [])

unfoldable pub put_number : ℕ → List ℕ
put_number n = digits n n

-- operator<< of the int of a word, and of -1
unfoldable pub put_vote : Option ℕ → List ℕ
put_vote none = 45 ∷ put_number 1
put_vote (some w) =
    let low = put_number w in
    let high = put_number (4294967296 - w) in if ltb w 2147483648 then low else 45 ∷ high

unfoldable pub is_digit : ℕ → Bool
is_digit c = leb 48 c && leb c 57

-- isspace
unfoldable pub is_space : ℕ → Bool
is_space c = c == 32 || (leb 9 c && leb c 13)

-- The digits at the start of a text: their number, and what follows.
unfoldable pub take_digits : ℕ → List ℕ → ℕ × List ℕ
take_digits acc [] = (acc, [])
take_digits acc (c ∷ cs) =
    let rest = take_digits (acc * 10 + (c - 48)) cs in if is_digit c then rest else (acc, c ∷ cs)

unfoldable pub skip_space : List ℕ → List ℕ
skip_space [] = []
skip_space (c ∷ cs) = let rest = skip_space cs in if is_space c then rest else c ∷ cs

unfoldable pub starts_number : List ℕ → Bool
starts_number [] = false
starts_number (c ∷ cs) = is_digit c

unfoldable pub negative : ℕ → ℤ
negative zero = pos zero
negative (suc k) = negsuc k

-- The number behind a sign, none if there is none or it is not an int.
unfoldable pub read_digits : Bool → List ℕ → Option (ℤ × List ℕ)
read_digits minus cs =
    let r : ℕ × List ℕ = take_digits 0 cs in
    if not (starts_number cs) || not (ltb r.0 (if minus then 2147483649 else 2147483648))
    then none
    else some (if minus then negative r.0 else pos r.0, r.1)

unfoldable pub read_signed : List ℕ → Option (ℤ × List ℕ)
read_signed [] = none
read_signed (c ∷ cs) =
    if c == 45
    then read_digits true cs
    else if c == 43
    then read_digits false cs
    else read_digits false (c ∷ cs)

-- operator>> of an int, none if it sets failbit
unfoldable pub read_int : List ℕ → Option (ℤ × List ℕ)
read_int cs = read_signed (skip_space cs)

-- The locals of read_state_from_disk, which become the members of the server.
pub record Stored : Type 0 where
  pub current_term : ℤ
  pub voted_for : ℤ
  pub log_entries : List LogEntry

module _ (put_entry : LogEntry → List ℕ) where
  unfoldable pub put_entries : List LogEntry → List ℕ
  put_entries [] = []
  put_entries (e ∷ es) = put_entry e ++ put_entries es

  -- raft_server::persist_state_to_disk, on a file that is empty
  unfoldable pub persist_state : RaftServer → List ℕ
  persist_state s =
      put_number s.current_term
      ++ (put_vote s.voted_for ++ (put_number (length s.log_entries) ++ put_entries s.log_entries))

module _ (read_entry : List ℕ → Option (LogEntry × List ℕ)) where
  unfoldable pub read_entries : ℕ → List ℕ → Option (List LogEntry × List ℕ)
  read_entries zero cs = some ([], cs)
  read_entries (suc n) cs = elim (read_entry cs) [
    | none ↦ none
    | some (e, rest) ↦ elim (read_entries n rest) [
      | none ↦ none
      | some (es, end) ↦ some (e ∷ es, end)
    ]
  ]

  -- `i < size`
  unfoldable pub entries_to_read : ℤ → ℕ
  entries_to_read (pos n) = n
  entries_to_read (negsuc k) = 0

  -- raft_server::read_state_from_disk; none if the stream fails, which is not looked at: a number that
  -- is not reached keeps what it had, and it was not set.
  unfoldable pub read_state : List ℕ → Option Stored
  read_state cs = elim (read_int cs) [
    | none ↦ none
    | some (term, behind_term) ↦ elim (read_int behind_term) [
      | none ↦ none
      | some (vote, behind_vote) ↦ elim (read_int behind_vote) [
        | none ↦ none
        | some (size, behind_size) ↦ elim (read_entries (entries_to_read size) behind_size) [
          | none ↦ none
          | some (es, end) ↦
              some (record { current_term = term; voted_for = vote; log_entries = es })
        ]
      ]
    ]
  ]
