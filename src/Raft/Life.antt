-- ===== src/Raft/Life.antt =====
-- consensus/raft/raft_server.cc: the life of a server, as the sequence of requests, replies, timers
-- and commands that reach it. What the file of the persistent state holds is a parameter.
pub mod Kept
pub mod Handlers
pub mod Stable
pub mod Promise
use alphadb.Prelude.{ℕ, Bool, true, false, List, [], ◌∷◌, ◌++◌, Option, if◌then◌else◌}
use alphadb.Raft.Outcome.{H, done, pure, ◌>>=◌, ◌>>◌, modify}
use alphadb.Raft.State.{
  LogEntry, Role, follower, candidate, leader, RequestVoteArgs, RequestVoteReply, AppendEntriesArgs,
  AppendEntriesReply, cancel_heartbeat, cancel_election, cancel_append, cancel_calls, RaftServer,
}
use alphadb.Raft.Server.{
  guarded, emit, is_role, reschedule_election, send_request_vote_args, request_vote,
  receive_request_vote_reply,
}
use alphadb.Raft.Replication.{
  send_append_entries_args, append_entries, receive_append_entries_reply, add_peer, replicate_entry,
}

-- What read_state_from_disk has read.
pub record Stored : Type 0 where
  pub current_term : ℕ
  pub voted_for : Option ℕ
  pub log_entries : List LogEntry

unfoldable pub read_state_from_disk : Stored → H RaftServer (Unit {0})
read_state_from_disk file = guarded (
    modify λ s. record s {
      current_term = file.current_term;
      voted_for = file.voted_for;
      log_entries = file.log_entries;
    })

-- raft_server::start
unfoldable pub start : Stored → H RaftServer (Unit {0})
start file = read_state_from_disk file >> modify reschedule_election

-- raft_server::persist_state_to_disk, as far as the server is concerned
unfoldable pub persist_state_to_disk : H RaftServer (Unit {0})
persist_state_to_disk = guarded λ s. done tt s

-- The timer that shutdown cancels.
unfoldable pub cancel_last : Role → RaftServer → RaftServer
cancel_last leader s = emit cancel_heartbeat s
cancel_last candidate s = emit cancel_election s
cancel_last follower s = emit cancel_append s

-- raft_server::shutdown up to that of the connections
unfoldable pub shutdown : H RaftServer (Unit {0})
shutdown = persist_state_to_disk >> λ s. done tt (cancel_last s.role s)

-- The timer of an election that runs; it sends the requests again while it holds the mutex.
unfoldable pub election_timeout : H RaftServer (Unit {0})
election_timeout =
    modify (emit cancel_calls)
    >> guarded λ s. if is_role s.role candidate then send_request_vote_args s else done tt s

unfoldable pub append_timeout : H RaftServer (Unit {0})
append_timeout = modify (emit cancel_calls)

-- What reaches a server.
pub data Input : Type 0 where
  vote_asked : RequestVoteArgs → RequestVoteReply → Input
  vote_answered : RequestVoteReply → Input
  entries_sent : AppendEntriesArgs → AppendEntriesReply → Input
  entries_answered : ℕ → AppendEntriesReply → Input
  -- the timers of reschedule_election, of a running election, of the heartbeat and of its calls
  election_due running_due heartbeat_due append_due : Input
  peer_added command stopped : Input

-- The candidate that was granted a vote, if one was.
abbrev pub granted : RequestVoteArgs → RequestVoteReply → List ℕ
granted args reply = if reply.vote_granted then args.candidate_id ∷ [] else []

-- A handler that grants nothing.
abbrev pub quiet : {A : Type 0} → H RaftServer A → H RaftServer (List ℕ)
quiet m = m >>= λ _. pure []

-- What is done with an input, and the candidates that are granted a vote.
unfoldable pub handle : (LogEntry → Bool) → Input → H RaftServer (List ℕ)
handle apply (vote_asked args reply) = request_vote args reply >>= λ r. pure (granted args r)
handle apply (vote_answered reply) = quiet (receive_request_vote_reply reply)
handle apply (entries_sent args reply) = quiet (append_entries args reply)
handle apply (entries_answered i reply) = quiet (receive_append_entries_reply i reply)
handle apply election_due = quiet send_request_vote_args
handle apply running_due = quiet election_timeout
handle apply heartbeat_due = quiet send_append_entries_args
handle apply append_due = quiet append_timeout
handle apply peer_added = quiet add_peer
handle apply command = quiet (replicate_entry apply)
handle apply stopped = quiet shutdown

-- All candidates that are granted a vote in a sequence of inputs.
unfoldable pub run_all : (LogEntry → Bool) → List Input → H RaftServer (List ℕ)
unfolding handle
run_all apply [] = pure []
run_all apply (input ∷ inputs) = do
  first ← handle apply input
  later ← run_all apply inputs
  pure (first ++ later)
