-- ===== src/Raft/Vote.antt =====
-- request_vote, on requests of every term.
use alphadb.Prelude.{
  ℕ, none, Option, ◌<◌, ◌≡◌, refl, inl, inr, true, false, ◌&&◌, some, arith, ltb, ◌==◌, Bool-cases,
  Option-cases,
}
use alphadb.Raft.Outcome.{done, relock, ◌>>=◌}
use alphadb.Raft.State.{
  LogEntry, follower, RequestVoteArgs, RequestVoteReply, RaftServer, back, recorded,
}
use alphadb.Raft.Lock.{guarded-done, guarded-relock, convert_to-held}
use alphadb.Raft.Server.{may_vote, cast_vote, request_vote}

-- A server that has voted votes again only for the candidate that it has recorded.
pub may_vote-recorded :
    (v : Option ℕ) (c k : ℕ) → v ≡ some c → may_vote v k ≡ true → recorded k ≡ some c
unfolding may_vote recorded
may_vote-recorded none c k e m = absurd (ground arith)
may_vote-recorded (some d) c k e m = elim (Bool-cases (k == 4294967295)) [
  | inl lost ↦ absurd (ground arith)
  | inr known ↦ ground arith
]

-- A vote: the server has promised it to the candidate, who is of the server's term, and whose last
-- entry is the server's own.
pub record Votes (args : RequestVoteArgs) (s s' : RaftServer) : Type 0 where
  pub term : args.term ≡ s.current_term
  pub free : may_vote s.voted_for args.candidate_id ≡ true
  pub promised : s'.voted_for ≡ recorded args.candidate_id
  pub last :
      (l : LogEntry) × (back s.log_entries ≡ some l)
      × (l.index ≡ args.last_log_index)
      × (l.term ≡ args.last_log_term)

-- What an answered request leaves of the server.
pub record Answers (args : RequestVoteArgs) (s : RaftServer) (r : RequestVoteReply)
    (s' : RaftServer) : Type 0 where
  pub term : s'.current_term ≡ s.current_term
  pub log : s'.log_entries ≡ s.log_entries
  pub granted : r.vote_granted ≡ true → Votes args s s'
  pub refused : r.vote_granted ≡ false → s'.voted_for ≡ s.voted_for

cast_vote-Answers :
    (args : RequestVoteArgs) (reply r : RequestVoteReply) (s s' : RaftServer)
    → args.term ≡ s.current_term
    → cast_vote args reply s ≡ done r s'
    → Answers args s r s'
unfolding cast_vote
cast_vote-Answers args reply r s s' same run =
    elim (Bool-cases (may_vote s.voted_for args.candidate_id)) [
      | inr taken ↦ record {
        term = ground arith;
        log = ground arith;
        granted = λ g. absurd (ground arith);
        refused = λ g. ground arith;
      }
      | inl free ↦ elim (Option-cases (back s.log_entries)) [
        | inl empty ↦ absurd (ground arith)
        | inr (l, e) ↦
            elim (Bool-cases (l.index == args.last_log_index && l.term == args.last_log_term)) [
              | inr behind ↦ record {
                term = ground arith;
                log = ground arith;
                granted = λ g. absurd (ground arith);
                refused = λ g. ground arith;
              }
              | inl level ↦ record {
                term = ground arith;
                log = ground arith;
                granted = λ g. record {
                  term = same;
                  free = free;
                  promised = ground arith;
                  last = (l, e, ground arith, ground arith);
                };
                refused = λ g. absurd (ground arith);
              }
            ]
      ]
    ]

-- A vote request of a later term makes request_vote lock the mutex that it already holds.
pub request_vote-later :
    (args : RequestVoteArgs) (reply : RequestVoteReply) (s : RaftServer)
    → s.current_term < args.term
    → request_vote args reply s ≡ relock
unfolding request_vote
request_vote-later args reply s h =
    let fresh : ltb args.term s.current_term ≡ false = ground arith in
    let later : ltb s.current_term args.term ≡ true = ground arith in
    guarded-relock _ s
      (rw (fresh, later, ◌>>=◌, convert_to-held follower args.term (record s { held = true }) refl))

-- When request_vote returns, the server keeps its term and log; a granted vote is for a request of
-- the server's term whose last entry is the server's own, from a candidate that the server had not
-- voted against, and is recorded, but for the candidate 0xFFFFFFFF, whose int is -1, no vote; a
-- refusal keeps the recorded vote.
pub request_vote-Answers :
    (args : RequestVoteArgs) (reply r : RequestVoteReply) (s s' : RaftServer)
    → request_vote args reply s ≡ done r s'
    → Answers args s r s'
unfolding request_vote
request_vote-Answers args reply r s s' run =
    let (t, free, body, shut) = guarded-done _ s run in
    let s₁ : RaftServer = record s { held = true } in
    elim (Bool-cases (ltb args.term s.current_term)) [
      | inl stale ↦ record {
        term = ground arith;
        log = ground arith;
        granted = λ g. absurd (ground arith);
        refused = λ g. ground arith;
      }
      | inr fresh ↦ elim (Bool-cases (ltb s.current_term args.term)) [
        | inl later ↦
            let stuck = convert_to-held follower args.term s₁ refl in
            absurd {A = Answers args s r s'} (ground arith)
        | inr same ↦
            let a = cast_vote-Answers args reply r s₁ t (ground arith) (ground arith) in
            record {
              term = ground (arith, a.term);
              log = ground (arith, a.log);
              granted = λ g.
                  let v = a.granted g in
                  record {
                    term = v.term;
                    free = v.free;
                    promised = ground (arith, v.promised);
                    last = v.last;
                  };
              refused = λ g. ground (arith, a.refused);
            }
      ]
    ]
