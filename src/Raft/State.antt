-- ===== src/Raft/State.antt =====
-- The data of a raft server: log.h, rpc_args.h and the members of class raft_server.
use alphadb.Prelude.{
  ℕ, Bool, List, [], ◌∷◌, Option, none, some, get_elem?, ◌==◌, if◌then◌else◌, ◌%◌, ◌^◌, ◌-◌,
}
use alphadb.Prelude.Int.{ℤ, pos, negsuc}
use alphadb.Prelude.Memory.{signed}

-- struct log
pub record LogEntry : Type 0 where
  pub index : ℕ
  pub term : ℕ

pub data Role : Type 0 where
  follower candidate leader : Role

pub record RequestVoteArgs : Type 0 where
  pub term : ℕ
  pub candidate_id : ℕ
  pub last_log_index : ℕ
  pub last_log_term : ℕ

pub record RequestVoteReply : Type 0 where
  pub term : ℕ
  pub vote_granted : Bool

pub record AppendEntriesArgs : Type 0 where
  pub term : ℕ
  pub leader_id : ℕ
  pub prev_log_index : ℕ
  pub prev_log_term : ℕ
  pub leader_commit : ℕ
  pub log_entries : List LogEntry

pub record AppendEntriesReply : Type 0 where
  pub term : ℕ
  pub success : Bool

-- What the server asks of the dispatcher and of its peers.
pub data Event : Type 0 where
  cancel_heartbeat cancel_election : Event
  -- run_after(get_election_timeout(), send_request_vote_args), and the timer of a running election
  schedule_election watch_election : Event
  -- run_every(0, HEARTBEAT_INTERVAL, send_append_entries_args)
  schedule_heartbeat watch_append : Event
  -- the timer of the last append_entries requests, and the calls of a round
  cancel_append cancel_calls : Event
  call_vote : ℕ → RequestVoteArgs → Event
  call_append : ℕ → AppendEntriesArgs → Event

pub record RaftServer : Type 0 where
  pub id : ℕ
  pub role : Role
  pub votes : ℕ
  pub current_term : ℕ
  -- an int: `none` is -1, and `some v` the int of the word v
  pub voted_for : Option ℕ
  pub log_entries : List LogEntry
  pub commit_index : ℕ
  pub last_applied : ℕ
  pub next_index : List ℤ
  pub match_index : List ℤ
  pub peers : ℕ
  -- mutex_ is held
  pub held : Bool
  -- newest first
  pub events : List Event

-- voted_for_ = candidate_id, from a uint32_t to an int: 0xFFFFFFFF becomes -1, which is no vote.
unfoldable pub recorded : ℕ → Option ℕ
recorded c = if c == 4294967295 then none else some c

-- int i = w, of a uint64_t, and the conversion back when it is compared
unfoldable pub to_int : ℕ → ℤ
to_int w = signed (2 ^ 31) (w % 2 ^ 32)

unfoldable pub widened : ℤ → ℕ
widened (pos n) = n
widened (negsuc k) = 2 ^ 64 - 1 - k

-- v[i] at an int; outside the vector it is undefined.
abbrev pub at : {A : Type 0} → List A → ℤ → Option A
at xs (pos i) = get_elem? xs i
at xs (negsuc k) = none

-- v.back()
abbrev pub back : {A : Type 0} → List A → Option A
back [] = none
back (x ∷ []) = some x
back (x ∷ y ∷ xs) = back (y ∷ xs)
