-- ===== src/Raft/Commit.antt =====
-- The leader: its first heartbeat, the replies to its entries, and replication.
use alphadb.Prelude.{
  ℕ, suc, ◌+◌, ◌≤◌, ◌<◌, ◌≡◌, refl, ◌⊎◌, inl, inr, Bool, true, false, not, List, [], ◌∷◌, ◌++◌,
  none, arith, ltb, if◌then◌else◌, Bool-cases, Option-cases, length, get_elem?, ◌∙◌, sym, ltb→lt,
  ap, subst, map,
}
use alphadb.Prelude.Int.{ℤ, pos, dec}
use alphadb.Raft.Outcome.{done, wild, ◌>>=◌, ◌>>◌, pure}
use alphadb.Raft.State.{LogEntry, leader, schedule_heartbeat, RaftServer, at}
use alphadb.Raft.Lock.{case-done, guarded-done, guarded-wild}
use alphadb.Raft.Server.{guarded, emit, convert_to, is_role}
use alphadb.Raft.Replication.{
  append_args, send_appends, send_append_entries_args, append_local, apply_to_statemachine,
  replicate_entry,
}

get_elem?-length : {A : Type 0} (xs : List A) → get_elem? xs (length xs) ≡ none
get_elem?-length [] = refl
get_elem?-length (x ∷ xs) = get_elem?-length xs

at-past : {A : Type 0} (xs : List A) → at xs (dec (pos (length xs + 1))) ≡ none
at-past xs =
    let next : length xs + 1 ≡ suc (length xs) = omega arith in
    rw (next, dec, at, get_elem?-length xs)

send_appends-past :
    (n : ℕ) (rest : List ℤ) (s : RaftServer)
    → s.next_index ≡ pos (length s.log_entries + 1) ∷ rest
    → send_appends 0 (suc n) s ≡ wild
unfolding send_appends append_args
send_appends-past n rest s nx = rw (◌>>=◌, nx, append_args, at-past s.log_entries)

send_append_entries_args-past :
    (n : ℕ) (rest : List ℤ) (s : RaftServer)
    → s.held ≡ false
    → s.role ≡ leader
    → s.peers ≡ suc n
    → s.next_index ≡ pos (length s.log_entries + 1) ∷ rest
    → send_append_entries_args s ≡ wild
unfolding send_append_entries_args
send_append_entries_args-past n rest s free lead pe nx =
    let run : not (is_role s.role leader) ≡ false = ground arith in
    guarded-wild _ s free
      (rw (run, pe, ◌>>=◌, send_appends-past n rest (record s { peers = suc n; held = true }) nx))

-- A server with a peer that has just converted to a leader reads behind the end of its log when it
-- sends its first append_entries requests.
pub convert_to-leader-heartbeat :
    (term i : ℕ) (next : ℤ) (rest : List ℤ) (s s' : RaftServer)
    → s.next_index ≡ next ∷ rest
    → s.peers ≡ suc i
    → convert_to leader term s ≡ done tt s'
    → send_append_entries_args s' ≡ wild
unfolding convert_to
convert_to-leader-heartbeat term i next rest s s' nx pe run =
    let (u, s₁, one, more) = case-done _ (guarded _ s) run in
    let (t, free, body, shut) = guarded-done _ s one in
    let ends : s' ≡ emit schedule_heartbeat (record t { held = false }) = ground arith in
    send_append_entries_args-past i (map (λ _. pos (length s.log_entries + 1)) rest) s'
      (ground arith) (ground arith) (ground arith) (ground arith)

-- The entry that a leader appends, and the order of the two indices.
pub record Replicated (taken : Bool) (s s' : RaftServer) : Type 0 where
  pub leads : taken ≡ is_role s.role leader
  pub log : s'.log_entries ≡ (
      if taken
      then s.log_entries ++ record { index = length s.log_entries; term = s.current_term } ∷ []
      else s.log_entries)
  pub applied : s.last_applied ≤ s.commit_index → s'.last_applied ≤ s'.commit_index
  pub forward : s.last_applied ≤ s'.last_applied
  pub commit : s'.commit_index ≡ s.commit_index
  -- A leader has returned only with something to apply.
  pub due : taken ≡ true → s.last_applied < s.commit_index

record Applied (s s' : RaftServer) : Type 0 where
  due : s.last_applied < s.commit_index
  log : s'.log_entries ≡ s.log_entries
  commit : s'.commit_index ≡ s.commit_index
  step :
      (s'.last_applied ≡ s.last_applied)
      ⊎ ((s.last_applied < s.commit_index) × (s'.last_applied ≡ s.last_applied + 1))

apply_to_statemachine-Applied :
    (apply : LogEntry → Bool) (u : Unit {0}) (s s' : RaftServer)
    → apply_to_statemachine apply s ≡ done u s'
    → Applied s s'
unfolding apply_to_statemachine
apply_to_statemachine-Applied apply u s s' run =
    let same : s.last_applied < s.commit_index → s' ≡ s → Applied s s' =
      λ h e. rw e (record { due = h; log = refl; commit = refl; step = inl refl }) in
    elim (Bool-cases (ltb s.last_applied s.commit_index)) [
      | inr idle ↦ absurd (ground arith)
      | inl behind ↦ elim (Option-cases (get_elem? s.log_entries (s.last_applied + 1))) [
        | inl past ↦ absurd (ground arith)
        | inr (entry, found) ↦ elim (Bool-cases (apply entry)) [
          | inr refused ↦ same (ltb→lt _ _ behind) (ground arith)
          | inl taking ↦
              let e : s' ≡ record s { last_applied = s.last_applied + 1 } = ground arith in
              rw e (record {
                due = ltb→lt _ _ behind;
                log = refl;
                commit = refl;
                step = inr (ltb→lt _ _ behind, refl);
              })
        ]
      ]
    ]

-- When replicate returns, it answers whether the server leads, and a leader had something to apply;
-- a leader's log has grown by one entry, whose index is the length of the log before and whose term
-- is the current one, whether or not that entry is applied, and any other log is unchanged; the
-- applied index does not fall, and not pass the commit index if it had not before.
pub replicate_entry-Replicated :
    (apply : LogEntry → Bool) (taken : Bool) (s s' : RaftServer)
    → replicate_entry apply s ≡ done taken s'
    → Replicated taken s s'
unfolding replicate_entry append_local
replicate_entry-Replicated apply taken s s' run =
    let (b, t, one, more) = case-done _ (append_local s) run in
    let (u, free, body, shut) = guarded-done _ s one in
    elim (Bool-cases (is_role s.role leader)) [
      | inr refused ↦
          let e : s' ≡ record s { held = false } = ground arith in
          let r : taken ≡ false = ground arith in
          rw (e, r)
            (record {
              leads = sym refused;
              log = refl;
              applied = λ h. h;
              forward = omega arith;
              commit = refl;
              due = λ h. absurd (ground arith);
            })
      | inl taking ↦
          let grown : t ≡ record s {
            held = false;
            log_entries =
                s.log_entries
                ++ record { index = length s.log_entries; term = s.current_term } ∷ [];
          } =
            ground arith in
          let yields : b ≡ true = ground arith in
          let (w, v, two, end) =
            case-done (λ _. pure true) (apply_to_statemachine apply t)
              (subst
                (λ c.
                  (if c then apply_to_statemachine apply >> pure true else pure false) t
                  ≡ done taken s')
                yields more) in
          let a = apply_to_statemachine-Applied apply w t v two in
          let r : taken ≡ true = ground arith in
          let e : s' ≡ v = ground arith in
          rw (r, e)
            (record {
              leads = sym taking;
              log = a.log ∙ ap (λ u. u.log_entries) grown;
              applied = λ h. ground (arith, a.step, a.commit, grown);
              forward = ground (arith, a.step, grown);
              commit = a.commit ∙ ap (λ u. u.commit_index) grown;
              due = λ h. ground (arith, a.due, grown);
            })
    ]
