-- ===== src/Tests/Logs.antt =====
-- The theorems on the log at a follower and at a leader.
use alphadb.Prelude.{ℕ, ◌≡◌, refl, true, false, List, [], ◌∷◌, Option, none, some}
use alphadb.Prelude.Int.{pos}
use alphadb.Prelude.Memory.{signed}
use alphadb.Raft.State.{
  LogEntry, follower, leader, schedule_heartbeat, AppendEntriesArgs, AppendEntriesReply, RaftServer,
  to_int, widened,
}
use alphadb.Raft.Replication.{
  append_entries, take_entries, find_conflict, advance_commit, replicate_entry, append_local,
  apply_to_statemachine,
}
use alphadb.Raft.Append.{Appended, append_entries-Appended}
use alphadb.Raft.Commit.{Replicated, replicate_entry-Replicated}
use alphadb.Raft.Store.{
  persist_state, read_state, put_entries, put_number, digits, put_vote, read_int, skip_space,
  is_space, read_signed, read_digits, starts_number, is_digit, take_digits,
}
use alphadb.Raft.Store.Read.{read_state-persist_state}

abbrev entry : ℕ → ℕ → LogEntry
entry index term = record { index = index; term = term }

abbrev server : RaftServer
server = record {
  id = 1;
  role = follower;
  votes = 0;
  current_term = 4;
  voted_for = none;
  log_entries = entry 0 0 ∷ entry 1 3 ∷ entry 2 3 ∷ [];
  commit_index = 0;
  last_applied = 0;
  next_index = pos 0 ∷ [];
  match_index = pos 0 ∷ [];
  peers = 1;
  held = false;
  events = [];
}

-- The second entry conflicts with the log.
abbrev args : AppendEntriesArgs
args = record {
  term = 4;
  leader_id = 2;
  prev_log_index = 0;
  prev_log_term = 0;
  leader_commit = 1;
  log_entries = entry 1 4 ∷ entry 2 4 ∷ [];
}

abbrev reply : AppendEntriesReply
reply = record { term = 0; success = false }

abbrev appended : RaftServer
appended = record server { log_entries = entry 0 0 ∷ entry 2 4 ∷ []; commit_index = 1 }

append_entries-Appended_example : Appended args server appended
unfolding append_entries take_entries find_conflict advance_commit to_int widened signed
append_entries-Appended_example = append_entries-Appended args reply reply server appended refl

abbrev elected : RaftServer
elected = record server {
  role = leader;
  next_index = pos 4 ∷ [];
  commit_index = 1;
  events = schedule_heartbeat ∷ [];
}

abbrev replicated : RaftServer
replicated = record elected {
  log_entries = entry 0 0 ∷ entry 1 3 ∷ entry 2 3 ∷ entry 3 4 ∷ [];
  last_applied = 1;
}

replicate_entry-Replicated_example : Replicated true elected replicated
unfolding replicate_entry append_local apply_to_statemachine
replicate_entry-Replicated_example =
    replicate_entry-Replicated (λ e. true) true elected replicated refl

-- A server that has voted for 2 and has no entries yet; an entry would be a byte.
abbrev started : RaftServer
started = record server { current_term = 5; voted_for = some 2; log_entries = [] }

abbrev put_entry : LogEntry → List ℕ
put_entry e = e.index ∷ []

abbrev read_entry : List ℕ → Option (LogEntry × List ℕ)
read_entry [] = none
read_entry (c ∷ cs) = some (entry c 0, cs)

read_state-persist_state_example : read_state read_entry (persist_state put_entry started) ≡ none
read_state-persist_state_example = read_state-persist_state put_entry read_entry started refl

-- "520", which is read as one number
started_text :
    (persist_state put_entry started ≡ 53 ∷ 50 ∷ 48 ∷ [])
    × (read_int (53 ∷ 50 ∷ 48 ∷ []) ≡ some (pos 520, []))
unfolding persist_state put_entries put_number digits put_vote read_int skip_space is_space
    read_signed read_digits starts_number is_digit take_digits
started_text = (refl, refl)
