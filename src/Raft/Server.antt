-- ===== src/Raft/Server.antt =====
-- The handlers of class raft_server.
use alphadb.Prelude.{
  ℕ, zero, suc, ◌+◌, ◌/◌, ◌%◌, ◌^◌, Bool, true, false, ◌&&◌, not, ◌∷◌, map, Option, none, some, ltb,
  leb, ◌==◌, if◌then◌else◌, length,
}
use alphadb.Prelude.Int.{pos}
use alphadb.Raft.Outcome.{Outcome, H, done, relock, wild, ◌>>=◌, ◌>>◌, modify, have}
use alphadb.Raft.State.{
  Role, follower, candidate, leader, RequestVoteArgs, RequestVoteReply, Event, cancel_heartbeat,
  cancel_election, schedule_election, watch_election, schedule_heartbeat, call_vote, RaftServer,
  back, recorded,
}

abbrev pub leave : {A : Type 0} → Outcome RaftServer A → Outcome RaftServer A
leave (done a s) = done a (record s { held = false })
leave relock = relock
leave wild = wild

abbrev pub enter : {A : Type 0} → Bool → H RaftServer A → RaftServer → Outcome RaftServer A
enter true body s = relock
enter false body s = leave (body (record s { held = true }))

-- std::lock_guard over a block.
abbrev pub guarded : {A : Type 0} → H RaftServer A → H RaftServer A
guarded body s = enter s.held body s

abbrev pub emit : Event → RaftServer → RaftServer
emit e s = record s { events = e ∷ s.events }

abbrev pub is_role : Role → Role → Bool
is_role follower follower = true
is_role candidate candidate = true
is_role leader leader = true
is_role _ _ = false

unfoldable pub majority : H RaftServer ℕ
majority = guarded λ s. done ((s.peers + 1) / 2) s

unfoldable pub reschedule_election : RaftServer → RaftServer
reschedule_election = emit schedule_election

-- One event for each peer, the last peer's on top.
unfoldable pub call_all : (ℕ → Event) → ℕ → RaftServer → RaftServer
call_all call zero s = s
call_all call (suc i) s = emit (call i) (call_all call i s)

unfoldable pub send_request_vote_args : H RaftServer (Unit {0})
unfolding call_all
send_request_vote_args = guarded λ s.
    (do
      last ← have (back s.log_entries)
      modify (
          call_all
            (λ i. call_vote i (record {
              term = s.current_term;
              candidate_id = s.id;
              last_log_index = last.index;
              last_log_term = last.term;
            }))
            s.peers)
      modify (emit watch_election))
      s

-- The conversion to a follower cancels the timer of the role that ends.
unfoldable pub cancel_timer : Role → RaftServer → RaftServer
cancel_timer leader s = emit cancel_heartbeat s
cancel_timer candidate s = emit cancel_election s
cancel_timer follower s = s

-- raft_server::convert_to
unfoldable pub convert_to : Role → ℕ → H RaftServer (Unit {0})
unfolding cancel_timer reschedule_election
convert_to follower term s =
    (do
      modify (cancel_timer s.role)
      guarded (modify λ t. record t { role = follower; current_term = term; voted_for = none })
      modify reschedule_election)
      s
convert_to candidate term s =
    (do
      guarded (
          modify λ t. record t {
            role = candidate;
            votes = 1;
            current_term = (t.current_term + 1) % 2 ^ 64;
            voted_for = some t.id;
          })
      send_request_vote_args)
      s
convert_to leader term s =
    (do
      guarded (
          modify λ t. record t {
            role = leader;
            next_index = map (λ _. pos (length t.log_entries + 1)) t.next_index;
            match_index = map (λ _. pos 0) t.match_index;
          })
      modify (emit schedule_heartbeat))
      s

-- voted_for_ == -1 || voted_for_ == candidate_id, which is compared as a word
unfoldable pub may_vote : Option ℕ → ℕ → Bool
may_vote none c = true
may_vote (some v) c = elim (recorded c) [ none ↦ false | some w ↦ v == w ]

-- The part of request_vote behind the tests on the term. `reply.term == args.term` compares and
-- sets nothing.
unfoldable pub cast_vote : RequestVoteArgs → RequestVoteReply → H RaftServer RequestVoteReply
cast_vote args reply s =
    let refused : RequestVoteReply = record { term = args.term; vote_granted = false } in
    if may_vote s.voted_for args.candidate_id
    then (elim (back s.log_entries) [
      | none ↦ wild
      | some last ↦
          if last.index == args.last_log_index && last.term == args.last_log_term
          then done (record reply { vote_granted = true })
              (record s { voted_for = recorded args.candidate_id })
          else done refused s
    ])
    else done refused s

unfoldable pub request_vote : RequestVoteArgs → RequestVoteReply → H RaftServer RequestVoteReply
request_vote args reply = guarded λ s.
    if ltb args.term s.current_term
    then done (record { term = args.term; vote_granted = false }) s
    else if ltb s.current_term args.term
    then (convert_to follower args.term >> cast_vote args reply) s
    else cast_vote args reply s

unfoldable pub receive_request_vote_reply : RequestVoteReply → H RaftServer (Unit {0})
receive_request_vote_reply reply = guarded λ s.
    if not (is_role s.role candidate)
    then done tt s
    else ((do
      (λ t. if ltb t.current_term reply.term then convert_to follower reply.term t else done tt t)
      (λ t.
          if reply.term == t.current_term && reply.vote_granted
          then (do
            modify (λ u. record u { votes = u.votes + 1 })
            m ← majority
            (λ u. if leb m u.votes then convert_to leader 0 u else done tt u))
              t
          else done tt t))
        s)
