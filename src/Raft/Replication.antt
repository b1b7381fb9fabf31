-- ===== src/Raft/Replication.antt =====
-- The handlers of class raft_server that replicate the log.
use alphadb.Prelude.{
  ℕ, zero, suc, ◌+◌, ◌-◌, ◌%◌, ◌^◌, min, Bool, true, false, ◌&&◌, ◌||◌, not, List, [], ◌∷◌, ◌++◌,
  Option, none, some, ltb, leb, ◌==◌, if◌then◌else◌, get_elem?, set, length, take, drop,
}
use alphadb.Prelude.Int.{ℤ, pos, negsuc, inc, dec}
use alphadb.Raft.Outcome.{H, done, wild, pure, ◌>>=◌, ◌>>◌, modify, have}
use alphadb.Raft.State.{
  LogEntry, follower, leader, AppendEntriesArgs, AppendEntriesReply, watch_append, call_append,
  RaftServer, at, to_int, widened,
}
use alphadb.Raft.Server.{guarded, emit, is_role, majority, convert_to}

-- The arguments for one peer: log_entries_[next - 1] and the entries from `next` on.
unfoldable pub append_args : RaftServer → ℤ → Option AppendEntriesArgs
append_args s next = elim (at s.log_entries (dec next)) [
  | none ↦ none
  | some prev ↦ some (record {
    term = s.current_term;
    leader_id = s.id;
    prev_log_index = prev.index;
    prev_log_term = prev.term;
    leader_commit = s.commit_index;
    log_entries = elim next [ pos j ↦ drop j s.log_entries | negsuc _ ↦ [] ];
  })
]

-- The loop over the peers i, i + 1, ..., `n` of them.
unfoldable pub send_appends : ℕ → ℕ → H RaftServer (Unit {0})
unfolding append_args
send_appends i zero = pure tt
send_appends i (suc n) = do
  (λ s.
      (do
        next ← have (get_elem? s.next_index i)
        args ← have (append_args s next)
        modify (emit (call_append i args)))
        s)
  send_appends (i + 1) n

unfoldable pub send_append_entries_args : H RaftServer (Unit {0})
send_append_entries_args = guarded λ s.
    if not (is_role s.role leader)
    then done tt s
    else ((do send_appends 0 s.peers; modify (emit watch_append)) s)

-- log_entries_.erase(begin() + index, end()); the index is inside the log.
abbrev pub before : ℤ → List LogEntry → List LogEntry
before (pos n) log = take n log
before (negsuc k) log = log

-- The loop over the new entries, whose index and term are converted to int: what is left of the log, and the index of the last entry that was
-- looked at, which is the conflict if there was one. An entry past the log is read all the same.
unfoldable pub find_conflict :
    List LogEntry → Option ℤ → List LogEntry → Option (List LogEntry × Option ℤ)
find_conflict log index [] = some (log, index)
find_conflict log index (e ∷ es) = elim (at log (to_int e.index)) [
  | none ↦ none
  | some old ↦
      let rest = find_conflict log (some (to_int e.index)) es in
      if old.term == widened (to_int e.term)
      then rest
      else some (before (to_int e.index) log, some (to_int e.index))
]

-- args.log_entries.begin() + index: past the end of the entries it is undefined.
abbrev pub entries_from : ℤ → List LogEntry → Option (List LogEntry)
entries_from (negsuc k) es = none
entries_from (pos i) es = if leb i (length es) then some (drop i es) else none

-- if (leader_commit > commit_index_) commit_index_ = min(leader_commit, size - 1)
unfoldable pub advance_commit : ℕ → RaftServer → RaftServer
advance_commit leader_commit s =
    if ltb s.commit_index leader_commit
    then record s {
      commit_index = min leader_commit ((length s.log_entries + 2 ^ 64 - 1) % 2 ^ 64);
    }
    else s

-- The part of append_entries behind the tests. `index` is not set if there are no entries, and is
-- a place of the log, not of the entries. The reply is left as it came in.
unfoldable pub take_entries :
    AppendEntriesArgs → AppendEntriesReply → H RaftServer AppendEntriesReply
unfolding find_conflict advance_commit
take_entries args reply s = elim (find_conflict s.log_entries none args.log_entries) [
  | none ↦ wild
  | some (kept, none) ↦ wild
  | some (kept, some index) ↦ elim (entries_from index args.log_entries) [
    | none ↦ wild
    | some fresh ↦
        done reply (advance_commit args.leader_commit (record s { log_entries = kept ++ fresh }))
  ]
]

unfoldable pub append_entries :
    AppendEntriesArgs → AppendEntriesReply → H RaftServer AppendEntriesReply
append_entries args reply = guarded λ s.
    let refused : AppendEntriesReply = record { term = args.term; success = false } in
    if ltb args.term s.current_term || ltb (length s.log_entries) args.prev_log_index
    then done refused s
    else (elim (get_elem? s.log_entries args.prev_log_index) [
      | none ↦ wild
      | some prev ↦
          if not (prev.term == args.prev_log_term)
          then done refused s
          else take_entries args reply s
    ])

-- The number of peers i, i + 1, ... whose match index has reached `n`.
unfoldable pub count_matches : ℕ → List ℤ → ℕ
count_matches n [] = 0
count_matches n (pos m ∷ ms) = (if leb n m then 1 else 0) + count_matches n ms
count_matches n (negsuc _ ∷ ms) = count_matches n ms

-- update_commit_index: the rounds n, n + 1, ..., `k` of them.
unfoldable pub commit_from : ℕ → ℕ → H RaftServer (Unit {0})
unfolding count_matches
commit_from n zero = pure tt
commit_from n (suc k) = do
  m ← majority
  (λ s.
      (do
        entry ← have (get_elem? s.log_entries n)
        modify (λ t.
            if leb m (count_matches n t.match_index) && entry.term == t.current_term
            then record t { commit_index = n }
            else t))
        s)
  commit_from (n + 1) k

unfoldable pub update_commit_index : H RaftServer (Unit {0})
unfolding commit_from
update_commit_index s =
    commit_from (s.commit_index + 1) (length s.log_entries - (s.commit_index + 1)) s

unfoldable pub receive_append_entries_reply : ℕ → AppendEntriesReply → H RaftServer (Unit {0})
receive_append_entries_reply i reply = guarded λ s.
    if not (is_role s.role leader)
    then done tt s
    else ((do
      (λ t. if ltb t.current_term reply.term then convert_to follower reply.term t else done tt t)
      (λ t.
          (do
            next ← have (get_elem? t.next_index i)
            matched ← have (get_elem? t.match_index i)
            (λ u.
                if reply.success
                then done tt (record u {
                  next_index = set u.next_index i (inc next);
                  match_index = set u.match_index i (inc matched);
                })
                else (modify (λ w. record w { next_index = set w.next_index i (dec next) })
                      >> send_append_entries_args)
                    u))
            t)
      update_commit_index)
        s)

unfoldable pub add_peer : H RaftServer (Unit {0})
add_peer = guarded (
    modify λ s. record s {
      next_index = s.next_index ++ pos 0 ∷ [];
      match_index = s.match_index ++ pos 0 ∷ [];
      peers = s.peers + 1;
    })

-- apply_to_statemachine; `apply` is what set_apply_func was given. With nothing to apply the result
-- that is returned was never set.
unfoldable pub apply_to_statemachine : (LogEntry → Bool) → H RaftServer (Unit {0})
apply_to_statemachine apply s =
    if not (ltb s.last_applied s.commit_index)
    then wild
    else (elim (get_elem? s.log_entries (s.last_applied + 1)) [
      | none ↦ wild
      | some entry ↦
          if apply entry
          then done tt (record s { last_applied = s.last_applied + 1 })
          else done tt s
    ])

-- The first block of replicate.
unfoldable pub append_local : H RaftServer Bool
append_local = guarded λ s.
    if not (is_role s.role leader)
    then done false s
    else done true (record s {
      log_entries =
          s.log_entries ++ record { index = length s.log_entries; term = s.current_term } ∷ [];
    })

unfoldable pub replicate_entry : (LogEntry → Bool) → H RaftServer Bool
unfolding append_local apply_to_statemachine
replicate_entry apply = do
  taken ← append_local
  if taken then (apply_to_statemachine apply >> pure true) else pure false
