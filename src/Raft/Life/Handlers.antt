-- ===== src/Raft/Life/Handlers.antt =====
-- Every handler keeps the role, the term and the vote.
use alphadb.Prelude.{
  ℕ, zero, suc, ◌+◌, ◌≡◌, refl, sym, subst, ◌∙◌, inl, inr, Bool, true, false, not, ◌||◌, [], ◌∷◌,
  ◌++◌, none, some, arith, ltb, ◌==◌, Bool-cases, Option-cases, get_elem?, length,
}
use alphadb.Prelude.Int.{pos}
use alphadb.Raft.Outcome.{relock, wild, ◌>>=◌, modify, have}
use alphadb.Raft.State.{
  LogEntry, follower, leader, RequestVoteArgs, RequestVoteReply, AppendEntriesArgs,
  AppendEntriesReply, Event, call_vote, watch_election, RaftServer, back,
}
use alphadb.Raft.Lock.{guarded-done, guarded-ends, guarded-wild, convert_to-held, majority-held}
use alphadb.Raft.Vote.{request_vote-Answers, may_vote-recorded}
use alphadb.Raft.Server.{emit, is_role, call_all, send_request_vote_args, request_vote}
use alphadb.Raft.Replication.{
  take_entries, append_entries, commit_from, add_peer, append_local, apply_to_statemachine,
  advance_commit, find_conflict, entries_from,
}
use alphadb.Raft.Life.Kept.{
  Kept, Kept-refl, Keeps, guarded-Keeps, then-Keeps, pure-Keeps, cast_vote-role, have-Keeps,
  modify-Keeps, ends-Kept,
}

pub request_vote-Keeps :
    (args : RequestVoteArgs) (reply : RequestVoteReply) (s : RaftServer)
    → Keeps (request_vote args reply) s
unfolding request_vote
request_vote-Keeps args reply s r t run =
    let a = request_vote-Answers args reply r s t run in
    let (u, free, body, shut) = guarded-done _ s run in
    let s₁ : RaftServer = record s { held = true } in
    record {
      role = elim (Bool-cases (ltb args.term s.current_term)) [
        | inl stale ↦ ground arith
        | inr fresh ↦ elim (Bool-cases (ltb s.current_term args.term)) [
          | inl later ↦
              let stuck = convert_to-held follower args.term s₁ refl in
              absurd {A = t.role ≡ s.role} (ground arith)
          | inr same ↦
              let kept = cast_vote-role args reply r s₁ u (ground arith) in ground (arith, kept)
        ]
      ];
      term = a.term;
      vote = λ c e. elim (Bool-cases r.vote_granted) [
        | inl g ↦
            let v = a.granted g in
            v.promised ∙ may_vote-recorded s.voted_for c args.candidate_id e v.free
        | inr n ↦ a.refused n ∙ e
      ];
    }

call_all-Kept : (call : ℕ → Event) (n : ℕ) (s : RaftServer) → Kept s (call_all call n s)
unfolding call_all
call_all-Kept call zero s = Kept-refl s
call_all-Kept call (suc n) s =
    let v = call_all-Kept call n s in record { role = v.role; term = v.term; vote = v.vote }

pub send_request_vote_args-Keeps : (s : RaftServer) → Keeps send_request_vote_args s
unfolding send_request_vote_args
send_request_vote_args-Keeps s =
    let s₁ : RaftServer = record s { held = true } in
    guarded-Keeps _ s (
      then-Keeps (have (back s.log_entries)) _ s₁ (have-Keeps (back s.log_entries) s₁) (λ last u e.
        let ask : ℕ → Event = λ i. call_vote i (record {
          term = s.current_term;
          candidate_id = s.id;
          last_log_index = last.index;
          last_log_term = last.term;
        }) in
        then-Keeps (modify (call_all ask s.peers)) (λ _. modify (emit watch_election)) u
          (modify-Keeps (call_all ask s.peers) u (call_all-Kept ask s.peers u))
          (λ x v h.
            modify-Keeps (emit watch_election) v
              (record { role = refl; term = refl; vote = λ c k. k }))))

advance_commit-Kept : (n : ℕ) (s : RaftServer) → Kept s (advance_commit n s)
unfolding advance_commit
advance_commit-Kept n s = record {
  role = ground arith;
  term = ground arith;
  vote = λ c e. ground arith;
}

take_entries-Keeps :
    (args : AppendEntriesArgs) (reply : AppendEntriesReply) (s : RaftServer)
    → Keeps (take_entries args reply) s
unfolding take_entries
take_entries-Keeps args reply s a t run =
    elim (Option-cases (find_conflict s.log_entries none args.log_entries)) [
      | inl none_read ↦ absurd (ground arith)
      | inr ((kept, none), e) ↦ absurd (ground arith)
      | inr ((kept, some index), e) ↦ elim (Option-cases (entries_from index args.log_entries)) [
        | inl past ↦ absurd (ground arith)
        | inr (fresh, f) ↦
            let u : RaftServer = record s { log_entries = kept ++ fresh } in
            let v = advance_commit-Kept args.leader_commit u in
            ends-Kept (take_entries args reply s) reply s t (advance_commit args.leader_commit u)
              (rw (take_entries, e, f) refl)
              (record { role = v.role; term = v.term; vote = v.vote }) run
      ]
    ]

pub append_entries-Keeps :
    (args : AppendEntriesArgs) (reply : AppendEntriesReply) (s : RaftServer)
    → Keeps (append_entries args reply) s
unfolding append_entries
append_entries-Keeps args reply s a t run =
    let (u, free, body, shut) = guarded-done _ s run in
    let s₁ : RaftServer = record s { held = true } in
    let refused : AppendEntriesReply = record { term = args.term; success = false } in
    let same : Kept s (record s { held = false }) = record {
      role = refl;
      term = refl;
      vote = λ c e. e;
    } in
    elim (Bool-cases
      (ltb args.term s.current_term || ltb (length s.log_entries) args.prev_log_index)) [
        | inl stale ↦
            ends-Kept (append_entries args reply s) refused s t (record s { held = false })
              (guarded-ends _ s {t = s₁} free (rw stale)) same run
        | inr fresh ↦ elim (Option-cases (get_elem? s.log_entries args.prev_log_index)) [
          | inl past ↦
              let stuck : append_entries args reply s ≡ wild =
                guarded-wild _ s free (rw (fresh, past)) in
              absurd (ground arith)
          | inr (prev, e) ↦ elim (Bool-cases (not (prev.term == args.prev_log_term))) [
            | inl other ↦
                ends-Kept (append_entries args reply s) refused s t (record s { held = false })
                  (guarded-ends _ s {t = s₁} free (rw (fresh, e, other))) same run
            | inr level ↦
                let v = take_entries-Keeps args reply s₁ a u (rw (fresh, e, level) at body) in
                subst (Kept s) (sym shut) (record { role = v.role; term = v.term; vote = v.vote })
          ]
        ]
      ]

pub commit_from-Keeps : (n k : ℕ) (s : RaftServer) → s.held ≡ true → Keeps (commit_from n k) s
unfolding commit_from
commit_from-Keeps n zero s h a t run = pure-Keeps tt s a t run
commit_from-Keeps n (suc k) s h a t run =
    let stuck : commit_from n (suc k) s ≡ relock = rw (commit_from, ◌>>=◌, majority-held s h) in
    absurd (ground arith)

pub add_peer-Keeps : (s : RaftServer) → Keeps add_peer s
unfolding add_peer
add_peer-Keeps s = guarded-Keeps _ s (λ a t run.
    ends-Kept _ tt _ t
      (record s {
        held = true;
        next_index = s.next_index ++ pos 0 ∷ [];
        match_index = s.match_index ++ pos 0 ∷ [];
        peers = s.peers + 1;
      })
      refl (record { role = refl; term = refl; vote = λ c e. e }) run)

pub append_local-Keeps : (s : RaftServer) → Keeps append_local s
unfolding append_local
append_local-Keeps s a t run =
    let (u, free, body, shut) = guarded-done _ s run in
    let s₁ : RaftServer = record s { held = true } in
    let longer : RaftServer = record s {
      held = true;
      log_entries =
          s.log_entries ++ record { index = length s.log_entries; term = s.current_term } ∷ [];
    } in
    elim (Bool-cases (not (is_role s.role leader))) [
      | inl idle ↦
          ends-Kept (append_local s) false s t (record s { held = false })
            (guarded-ends _ s {t = s₁} free (rw idle))
            (record { role = refl; term = refl; vote = λ c e. e }) run
      | inr leads ↦
          ends-Kept (append_local s) true s t (record longer { held = false })
            (guarded-ends _ s {t = longer} free (rw leads))
            (record { role = refl; term = refl; vote = λ c e. e }) run
    ]

pub apply_to_statemachine-Keeps :
    (apply : LogEntry → Bool) (s : RaftServer) → Keeps (apply_to_statemachine apply) s
unfolding apply_to_statemachine
apply_to_statemachine-Keeps apply s a t run = record {
  role = ground arith;
  term = ground arith;
  vote = λ c e. ground arith;
}
