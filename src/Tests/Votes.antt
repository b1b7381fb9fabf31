-- ===== src/Tests/Votes.antt =====
-- The election theorems at a follower and at a candidate.
use alphadb.Prelude.{arith, ℕ, ◌≡◌, List, refl, true, false, [], ◌∷◌, none, some}
use alphadb.Prelude.Int.{pos}
use alphadb.Raft.State.{
  follower, candidate, RequestVoteArgs, RequestVoteReply, RaftServer, recorded,
}
use alphadb.Raft.Server.{request_vote, cast_vote, may_vote}
use alphadb.Raft.Vote.{Answers, request_vote-Answers}
use alphadb.Raft.Outcome.{done}
use alphadb.Raft.Replication.{append_local, replicate_entry, send_append_entries_args}
use alphadb.Raft.Life.{Input, vote_asked, command, heartbeat_due, handle, run_all}
use alphadb.Raft.Life.Kept.{Kept}
use alphadb.Raft.Life.Promise.{Each, run_all-Kept}

abbrev server : RaftServer
server = record {
  id = 1;
  role = follower;
  votes = 0;
  current_term = 4;
  voted_for = none;
  log_entries = record { index = 0; term = 0 } ∷ record { index = 1; term = 3 } ∷ [];
  commit_index = 0;
  last_applied = 0;
  next_index = pos 0 ∷ pos 0 ∷ [];
  match_index = pos 0 ∷ pos 0 ∷ [];
  peers = 2;
  held = false;
  events = [];
}

abbrev running : RaftServer
running = record server { role = candidate; votes = 1; voted_for = some 1 }

abbrev call : ℕ → ℕ → RequestVoteArgs
call term c = record { term = term; candidate_id = c; last_log_index = 1; last_log_term = 3 }

abbrev blank_reply : RequestVoteReply
blank_reply = record { term = 0; vote_granted = false }

abbrev vote : RequestVoteReply
vote = record { term = 4; vote_granted = true }

abbrev promised_to_2 : RaftServer
promised_to_2 = record server { voted_for = some 2 }

abbrev granted : RequestVoteReply
granted = record { term = 0; vote_granted = true }

abbrev refused : RequestVoteReply
refused = record { term = 4; vote_granted = false }

request_vote-Answers_example : Answers (call 4 2) server granted promised_to_2
unfolding request_vote cast_vote may_vote recorded
request_vote-Answers_example =
    request_vote-Answers (call 4 2) blank_reply granted server promised_to_2 refl

-- Two candidates ask, a command comes, and the timer of a heartbeat.
abbrev day : List Input
day =
    vote_asked (call 4 2) blank_reply
    ∷ command
    ∷ vote_asked (call 4 3) blank_reply
    ∷ heartbeat_due
    ∷ []

day-done : run_all (λ _. true) day server ≡ done (2 ∷ []) promised_to_2
unfolding run_all handle request_vote cast_vote may_vote recorded replicate_entry append_local
    send_append_entries_args
day-done = refl

run_all-Kept_example : Kept server promised_to_2 × Each (2 ∷ []) (some 2)
run_all-Kept_example =
    run_all-Kept (λ _. true) day server promised_to_2 (2 ∷ [])
      (omega arith, (tt, (omega arith, (tt, tt)))) day-done
