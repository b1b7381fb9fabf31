-- ===== src/Raft/Election.antt =====
-- The replies that a candidate collects.
use alphadb.Prelude.{◌+◌, ◌≡◌, refl, inl, inr, true, false, ◌&&◌, not, arith, ltb, ◌==◌, Bool-cases}
use alphadb.Raft.Outcome.{Outcome, done, relock, ◌>>=◌}
use alphadb.Raft.State.{follower, candidate, RequestVoteReply, RaftServer}
use alphadb.Raft.Lock.{guarded-done, guarded-relock, guarded-ends, convert_to-held, majority-held}
use alphadb.Raft.Server.{is_role, receive_request_vote_reply}

-- A candidate that receives a granted vote for its current term locks the mutex that it already
-- holds.
pub receive_request_vote_reply-vote :
    (reply : RequestVoteReply) (s : RaftServer)
    → s.role ≡ candidate
    → reply.term ≡ s.current_term
    → reply.vote_granted ≡ true
    → receive_request_vote_reply reply s ≡ relock
unfolding receive_request_vote_reply
receive_request_vote_reply-vote reply s r same granted =
    let running : not (is_role s.role candidate) ≡ false = ground arith in
    let current : ltb s.current_term reply.term ≡ false = ground arith in
    let vote : (reply.term == s.current_term && reply.vote_granted) ≡ true = ground arith in
    guarded-relock _ s (
      rw (
        running,
        ◌>>=◌,
        current,
        vote,
        majority-held (record s { held = true; votes = s.votes + 1 }) refl,
      ))

ends_same :
    (o : Outcome RaftServer (Unit {0})) (s s' : RaftServer)
    → s.held ≡ false
    → o ≡ done tt s'
    → o ≡ done tt (record s { held = false })
    → s' ≡ s
ends_same o s s' free run calm = ground arith

-- Whenever receive_request_vote_reply returns, the server is the one it was before the call: no
-- vote is counted, no leader is made, no later term is adopted.
pub receive_request_vote_reply-done :
    (reply : RequestVoteReply) (s s' : RaftServer)
    → receive_request_vote_reply reply s ≡ done tt s'
    → s' ≡ s
unfolding receive_request_vote_reply
receive_request_vote_reply-done reply s s' run =
    let (t, free, body, shut) = guarded-done _ s run in
    let s₁ : RaftServer = record s { held = true } in
    elim (Bool-cases (is_role s.role candidate)) [
      | inr idle ↦
          ends_same (receive_request_vote_reply reply s) s s' free run
            (guarded-ends _ s {t = s₁} free (rw idle))
      | inl running ↦ elim (Bool-cases (ltb s.current_term reply.term)) [
        | inl later ↦
            let stuck : receive_request_vote_reply reply s ≡ relock =
              guarded-relock _ s
                (rw (running, ◌>>=◌, later, convert_to-held follower reply.term s₁ refl)) in
            absurd {A = s' ≡ s} (cc)
        | inr current ↦ elim (Bool-cases (reply.term == s.current_term && reply.vote_granted)) [
          | inl vote ↦
              let stuck : receive_request_vote_reply reply s ≡ relock = guarded-relock _ s (
                rw (
                  running,
                  ◌>>=◌,
                  current,
                  vote,
                  majority-held (record s₁ { votes = s.votes + 1 }) refl,
                )) in
              absurd {A = s' ≡ s} (cc)
          | inr nothing ↦
              let calm : receive_request_vote_reply reply s ≡ done tt (record s₁ { held = false }) =
                guarded-ends _ s {t = s₁} free (rw (running, ◌>>=◌, current, nothing)) in
              ends_same (receive_request_vote_reply reply s) s s' free run calm
        ]
      ]
    ]
