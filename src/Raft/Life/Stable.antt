-- ===== src/Raft/Life/Stable.antt =====
-- The role, the term and the votes of a server through its life.
use alphadb.Prelude.{
  ℕ, zero, suc, ◌+◌, ◌-◌, ◌≡◌, refl, sym, subst, inl, inr, Bool, true, false, not, [], arith, ltb,
  Bool-cases, Option-cases, get_elem?, set, length, if◌then◌else◌,
}
use alphadb.Prelude.Int.{inc, dec}
use alphadb.Raft.Outcome.{H, done, relock, wild, pure, ◌>>=◌, ◌>>◌, modify}
use alphadb.Raft.State.{
  LogEntry, Role, follower, candidate, leader, RequestVoteReply, AppendEntriesReply, watch_append,
  call_append, cancel_calls, RaftServer,
}
use alphadb.Raft.Lock.{
  case-done, guarded-done, guarded-ends, guarded-wild, guarded-relock, convert_to-held,
  send_append_entries_args-held,
}
use alphadb.Raft.Election.{receive_request_vote_reply-done}
use alphadb.Raft.Server.{emit, is_role, send_request_vote_args, receive_request_vote_reply}
use alphadb.Raft.Replication.{
  append_args, send_appends, send_append_entries_args, update_commit_index,
  receive_append_entries_reply, append_local, apply_to_statemachine, replicate_entry,
}
use alphadb.Raft.Life.{persist_state_to_disk, cancel_last, shutdown, election_timeout, quiet}
use alphadb.Raft.Life.Kept.{
  Kept, Kept-refl, Kept-trans, Keeps, guarded-Keeps, then-Keeps, pure-Keeps, ends-Kept,
  modify-Keeps, relock-done, wild-done,
}
use alphadb.Raft.Life.Handlers.{
  send_request_vote_args-Keeps, commit_from-Keeps, append_local-Keeps, apply_to_statemachine-Keeps,
}

send_appends-Keeps : (i n : ℕ) (s : RaftServer) → Keeps (send_appends i n) s
unfolding send_appends
send_appends-Keeps i zero s a t run = pure-Keeps tt s a t run
send_appends-Keeps i (suc n) s a t run =
    let (x, u, one, more) = case-done (λ _. send_appends (i + 1) n) _ run in
    elim (Option-cases (get_elem? s.next_index i)) [
      | inl past ↦ absurd (ground (arith, one))
      | inr (next, e) ↦ elim (Option-cases (append_args s next)) [
        | inl past ↦ absurd (ground (arith, one))
        | inr (args, f) ↦
            let known : u ≡ emit (call_append i args) s = ground (arith, one) in
            Kept-trans s u t
              (subst (Kept s) (sym known) (record { role = refl; term = refl; vote = λ c k. k }))
              (send_appends-Keeps (i + 1) n u x t more)
      ]
    ]

idle_same : (s : RaftServer) → Kept s (record s { held = false })
idle_same s = record { role = refl; term = refl; vote = λ c e. e }

pub send_append_entries_args-Keeps : (s : RaftServer) → Keeps send_append_entries_args s
unfolding send_append_entries_args
send_append_entries_args-Keeps s a t run =
    let (u, free, body, shut) = guarded-done _ s run in
    let s₁ : RaftServer = record s { held = true } in
    elim (Bool-cases (not (is_role s.role leader))) [
      | inl idle ↦
          ends-Kept (send_append_entries_args s) tt s t (record s { held = false })
            (guarded-ends _ s {t = s₁} free (rw idle)) (idle_same s) run
      | inr leads ↦
          let v =
            then-Keeps (send_appends 0 s.peers) (λ _. modify (emit watch_append)) s₁
              (send_appends-Keeps 0 s.peers s₁)
              (λ x w h.
                modify-Keeps (emit watch_append) w
                  (record { role = refl; term = refl; vote = λ c k. k }))
              a u (rw leads at body) in
          subst (Kept s) (sym shut) (record { role = v.role; term = v.term; vote = v.vote })
    ]

pub receive_append_entries_reply-Keeps :
    (i : ℕ) (reply : AppendEntriesReply) (s : RaftServer)
    → Keeps (receive_append_entries_reply i reply) s
unfolding receive_append_entries_reply update_commit_index
receive_append_entries_reply-Keeps i reply s a t run =
    let (u, free, body, shut) = guarded-done _ s run in
    let s₁ : RaftServer = record s { held = true } in
    elim (Bool-cases (not (is_role s.role leader))) [
      | inl idle ↦
          ends-Kept (receive_append_entries_reply i reply s) tt s t (record s { held = false })
            (guarded-ends _ s {t = s₁} free (rw idle)) (idle_same s) run
      | inr leads ↦ elim (Bool-cases (ltb s.current_term reply.term)) [
        | inl later ↦
            let stuck : receive_append_entries_reply i reply s ≡ relock =
              guarded-relock _ s
                (rw (leads, ◌>>=◌, later, convert_to-held follower reply.term s₁ refl)) in
            absurd (relock-done _ stuck run)
        | inr current ↦ elim (Option-cases (get_elem? s.next_index i)) [
          | inl past ↦
              let stuck : receive_append_entries_reply i reply s ≡ wild =
                guarded-wild _ s free (rw (leads, ◌>>=◌, current, past)) in
              absurd (wild-done _ stuck run)
          | inr (next, e) ↦ elim (Option-cases (get_elem? s.match_index i)) [
            | inl past ↦
                let stuck : receive_append_entries_reply i reply s ≡ wild =
                  guarded-wild _ s free (rw (leads, ◌>>=◌, current, e, past)) in
                absurd (wild-done _ stuck run)
            | inr (matched, f) ↦ elim (Bool-cases reply.success) [
              | inl good ↦
                  let w : RaftServer = record s₁ {
                    next_index = set s.next_index i (inc next);
                    match_index = set s.match_index i (inc matched);
                  } in
                  let v =
                    commit_from-Keeps (s.commit_index + 1)
                      (length s.log_entries - (s.commit_index + 1)) w refl a u
                      (rw (leads, ◌>>=◌, current, e, f, good) at body) in
                  subst (Kept s) (sym shut) (record { role = v.role; term = v.term; vote = v.vote })
              | inr bad ↦
                  let stuck : receive_append_entries_reply i reply s ≡ relock = guarded-relock _ s (
                    rw (
                      leads,
                      ◌>>=◌,
                      current,
                      e,
                      f,
                      bad,
                      send_append_entries_args-held
                          (record s₁ { next_index = set s.next_index i (dec next) }) refl,
                    )) in
                  absurd (relock-done _ stuck run)
            ]
          ]
        ]
      ]
    ]

-- What replicate does behind its first block.
applied-Keeps :
    (apply : LogEntry → Bool) (taken : Bool) (s : RaftServer)
    → Keeps (if taken then (apply_to_statemachine apply >> pure true) else pure false) s
applied-Keeps apply false s a t run = pure-Keeps false s a t run
applied-Keeps apply true s a t run =
    then-Keeps (apply_to_statemachine apply) (λ _. pure true) s
      (apply_to_statemachine-Keeps apply s) (λ x u h. pure-Keeps true u) a t run

pub replicate_entry-Keeps :
    (apply : LogEntry → Bool) (s : RaftServer) → Keeps (replicate_entry apply) s
unfolding replicate_entry
replicate_entry-Keeps apply s =
    then-Keeps append_local
      (λ taken. if taken then (apply_to_statemachine apply >> pure true) else pure false) s
      (append_local-Keeps s) (λ taken u h. applied-Keeps apply taken u)

pub election_timeout-Keeps : (s : RaftServer) → Keeps election_timeout s
unfolding election_timeout
election_timeout-Keeps s a t run =
    let v : RaftServer = emit cancel_calls s in
    let w =
      guarded-Keeps (λ u. if is_role u.role candidate then send_request_vote_args u else done tt u)
        v
        (λ b u h. elim (Bool-cases (is_role s.role candidate)) [
          | inl runs ↦ send_request_vote_args-Keeps (record v { held = true }) b u (rw runs at h)
          | inr over ↦ pure-Keeps tt (record v { held = true }) b u (rw over at h)
        ])
        a t run in
    record { role = w.role; term = w.term; vote = w.vote }

cancel_last-Kept : (r : Role) (s : RaftServer) → Kept s (cancel_last r s)
unfolding cancel_last
cancel_last-Kept follower s = record { role = refl; term = refl; vote = λ c e. e }
cancel_last-Kept candidate s = record { role = refl; term = refl; vote = λ c e. e }
cancel_last-Kept leader s = record { role = refl; term = refl; vote = λ c e. e }

pub shutdown-Keeps : (s : RaftServer) → Keeps shutdown s
unfolding shutdown persist_state_to_disk
shutdown-Keeps s =
    then-Keeps persist_state_to_disk (λ _ u. done tt (cancel_last u.role u)) s
      (guarded-Keeps (λ u. done tt u) s (pure-Keeps tt (record s { held = true })))
      (λ x u h. modify-Keeps (λ v. cancel_last v.role v) u (cancel_last-Kept u.role u))

-- A handler that grants nothing.
pub quiet-Keeps : {A : Type 0} (m : H RaftServer A) (s : RaftServer) → Keeps m s → Keeps (quiet m) s
quiet-Keeps m s h = then-Keeps m (λ _. pure []) s h (λ a t e. pure-Keeps [] t)

pub vote_answered-Keeps :
    (reply : RequestVoteReply) (s : RaftServer) → Keeps (receive_request_vote_reply reply) s
vote_answered-Keeps reply s a t run =
    subst (Kept s) (sym (receive_request_vote_reply-done reply s t run)) (Kept-refl s)
