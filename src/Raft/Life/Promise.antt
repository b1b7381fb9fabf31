-- ===== src/Raft/Life/Promise.antt =====
-- The one candidate that a server votes for in its life.
use alphadb.Prelude.{
  ℕ, ◌≡◌, refl, sym, subst, ◌∙◌, ◌<◌, inl, inr, Bool, true, List, [], ◌∷◌, ◌++◌, Option, some,
  arith, Bool-cases,
}
use alphadb.Raft.Outcome.{H, done, pure}
use alphadb.Raft.State.{
  LogEntry, RequestVoteArgs, RequestVoteReply, cancel_calls, RaftServer, recorded,
}
use alphadb.Raft.Lock.{case-done}
use alphadb.Raft.Vote.{request_vote-Answers}
use alphadb.Raft.Server.{emit, send_request_vote_args, request_vote, receive_request_vote_reply}
use alphadb.Raft.Replication.{
  send_append_entries_args, append_entries, receive_append_entries_reply, add_peer, replicate_entry,
}
use alphadb.Raft.Life.{
  shutdown, election_timeout, append_timeout, Input, vote_asked, vote_answered, entries_sent,
  entries_answered, election_due, running_due, heartbeat_due, append_due, peer_added, command,
  stopped, granted, quiet, handle, run_all,
}
use alphadb.Raft.Life.Kept.{Kept, Kept-trans, Keeps, then-Keeps, pure-Keeps, modify-Keeps}
use alphadb.Raft.Life.Handlers.{
  request_vote-Keeps, send_request_vote_args-Keeps, append_entries-Keeps, add_peer-Keeps,
}
use alphadb.Raft.Life.Stable.{
  send_append_entries_args-Keeps, receive_append_entries_reply-Keeps, replicate_entry-Keeps,
  election_timeout-Keeps, shutdown-Keeps, quiet-Keeps, vote_answered-Keeps,
}

append_timeout-Keeps : (s : RaftServer) → Keeps append_timeout s
unfolding append_timeout
append_timeout-Keeps s =
    modify-Keeps (emit cancel_calls) s (record { role = refl; term = refl; vote = λ c e. e })

handle-Keeps :
    (apply : LogEntry → Bool) (input : Input) (s : RaftServer) → Keeps (handle apply input) s
unfolding handle
handle-Keeps apply (vote_asked args reply) s =
    then-Keeps (request_vote args reply) (λ r. pure (granted args r)) s
      (request_vote-Keeps args reply s) (λ r t e. pure-Keeps (granted args r) t)
handle-Keeps apply (vote_answered reply) s =
    quiet-Keeps (receive_request_vote_reply reply) s (vote_answered-Keeps reply s)
handle-Keeps apply (entries_sent args reply) s =
    quiet-Keeps (append_entries args reply) s (append_entries-Keeps args reply s)
handle-Keeps apply (entries_answered i reply) s =
    quiet-Keeps (receive_append_entries_reply i reply) s
      (receive_append_entries_reply-Keeps i reply s)
handle-Keeps apply election_due s =
    quiet-Keeps send_request_vote_args s (send_request_vote_args-Keeps s)
handle-Keeps apply running_due s = quiet-Keeps election_timeout s (election_timeout-Keeps s)
handle-Keeps apply heartbeat_due s =
    quiet-Keeps send_append_entries_args s (send_append_entries_args-Keeps s)
handle-Keeps apply append_due s = quiet-Keeps append_timeout s (append_timeout-Keeps s)
handle-Keeps apply peer_added s = quiet-Keeps add_peer s (add_peer-Keeps s)
handle-Keeps apply command s = quiet-Keeps (replicate_entry apply) s (replicate_entry-Keeps apply s)
handle-Keeps apply stopped s = quiet-Keeps shutdown s (shutdown-Keeps s)

-- The candidate of a request is one whose id is an int other than -1.
abbrev pub Known : Input → Type 0
Known (vote_asked args reply) = args.candidate_id < 4294967295
Known _ = Unit {0}

abbrev pub AllKnown : List Input → Type 0
AllKnown [] = Unit {0}
AllKnown (input ∷ inputs) = Known input × AllKnown inputs

recorded-known : (c : ℕ) → c < 4294967295 → recorded c ≡ some c
unfolding recorded
recorded-known c h = ground arith

-- Every candidate of a list is the one that a server has recorded.
abbrev pub Each : List ℕ → Option ℕ → Type 0
Each [] v = Unit {0}
Each (c ∷ cs) v = (v ≡ some c) × Each cs v

Each-append : (cs ds : List ℕ) (v : Option ℕ) → Each cs v → Each ds v → Each (cs ++ ds) v
Each-append [] ds v a b = b
Each-append (c ∷ cs) ds v (e, a) b = (e, Each-append cs ds v a b)

Each-Kept : (s t : RaftServer) (cs : List ℕ) → Kept s t → Each cs s.voted_for → Each cs t.voted_for
Each-Kept s t [] k a = tt
Each-Kept s t (c ∷ cs) k (e, a) = (k.vote c e, Each-Kept s t cs k a)

pure_is : (cs ds : List ℕ) (s t : RaftServer) → pure cs s ≡ done ds t → (ds ≡ cs) × (t ≡ s)
pure_is cs ds s t e = (ground arith, ground arith)

quiet-Each :
    {A : Type 0} (m : H RaftServer A) (s t : RaftServer) (cs : List ℕ)
    → quiet m s ≡ done cs t
    → Each cs t.voted_for
quiet-Each m s t cs run =
    let (x, u, one, more) = case-done (λ _. pure []) (m s) run in
    subst (λ l. Each l t.voted_for) (sym (pure_is [] cs u t more).0) tt

granted-Each :
    (args : RequestVoteArgs) (r : RequestVoteReply) (v : Option ℕ)
    → (r.vote_granted ≡ true → v ≡ some args.candidate_id)
    → Each (granted args r) v
granted-Each args r v h = elim (Bool-cases r.vote_granted) [
  | inl g ↦ rw g (h g, tt)
  | inr n ↦ rw n tt
]

handle-Each :
    (apply : LogEntry → Bool) (input : Input) (s t : RaftServer) (cs : List ℕ)
    → Known input
    → handle apply input s ≡ done cs t
    → Each cs t.voted_for
unfolding handle
handle-Each apply (vote_asked args reply) s t cs k run =
    let (r, u, one, more) =
      case-done (λ r. pure (granted args r)) (request_vote args reply s) run in
    let a = request_vote-Answers args reply r s u one in
    let (same, at) = pure_is (granted args r) cs u t more in
    subst (λ l. Each l t.voted_for) (sym same)
      (subst (λ w. Each (granted args r) w.voted_for) (sym at)
        (granted-Each args r u.voted_for
          (λ g. (a.granted g).promised ∙ recorded-known args.candidate_id k)))
handle-Each apply (vote_answered reply) s t cs k run =
    quiet-Each (receive_request_vote_reply reply) s t cs run
handle-Each apply (entries_sent args reply) s t cs k run =
    quiet-Each (append_entries args reply) s t cs run
handle-Each apply (entries_answered i reply) s t cs k run =
    quiet-Each (receive_append_entries_reply i reply) s t cs run
handle-Each apply election_due s t cs k run = quiet-Each send_request_vote_args s t cs run
handle-Each apply running_due s t cs k run = quiet-Each election_timeout s t cs run
handle-Each apply heartbeat_due s t cs k run = quiet-Each send_append_entries_args s t cs run
handle-Each apply append_due s t cs k run = quiet-Each append_timeout s t cs run
handle-Each apply peer_added s t cs k run = quiet-Each add_peer s t cs run
handle-Each apply command s t cs k run = quiet-Each (replicate_entry apply) s t cs run
handle-Each apply stopped s t cs k run = quiet-Each shutdown s t cs run

-- Whatever requests, replies, timers and commands reach a server one after the other, but for the
-- requests of a candidate 0xFFFFFFFF, whose int is no vote: if it returns from all of them, it has
-- the role and the term that it had at first, a vote that it had given still stands, and all votes
-- that it has granted went to the one candidate that it has recorded.
pub run_all-Kept :
    (apply : LogEntry → Bool) (inputs : List Input) (s t : RaftServer) (cs : List ℕ)
    → AllKnown inputs
    → run_all apply inputs s ≡ done cs t
    → Kept s t × Each cs t.voted_for
unfolding run_all
run_all-Kept apply [] s t cs known run =
    let (same, at) = pure_is [] cs s t run in
    (pure-Keeps [] s cs t run, subst (λ l. Each l t.voted_for) (sym same) tt)
run_all-Kept apply (input ∷ inputs) s t cs (k, known) run =
    let (first, u, one, more) = case-done _ (handle apply input s) run in
    let (later, w, two, last) =
      case-done (λ ds. pure (first ++ ds)) (run_all apply inputs u) more in
    let (kept, each) = run_all-Kept apply inputs u w later known two in
    let (same, at) = pure_is (first ++ later) cs w t last in
    let here = handle-Keeps apply input s first u one in
    let before = Each-Kept u w first kept (handle-Each apply input s u first k one) in
    let all = Each-append first later w.voted_for before each in
    (
      subst (Kept s) (sym at) (Kept-trans s u w here kept),
      subst (λ l. Each l t.voted_for) (sym same)
          (subst (λ x. Each (first ++ later) x.voted_for) (sym at) all),
    )
