-- ===== src/Raft/Append.antt =====
-- append_entries and the commit index of a follower.
use alphadb.Prelude.{
  ℕ, zero, suc, ◌≤◌, ◌<◌, ◌≡◌, ◌≢◌, refl, ◌⊎◌, inl, inr, true, false, ◌||◌, not, List, [], ◌∷◌,
  ◌++◌, Option, none, some, arith, ltb, ◌==◌, Bool-cases, Option-cases, length, take, get_elem?,
  ◌∙◌, sym, ap, ◌^◌, ltb→lt,
}
use mathlib.Core.List.{append-nil}
use alphadb.Raft.Outcome.{done, wild}
use alphadb.Raft.State.{
  LogEntry, AppendEntriesArgs, AppendEntriesReply, RaftServer, at, to_int, widened,
}
use alphadb.Prelude.Int.{ℤ, pos, negsuc}
use alphadb.Raft.Lock.{guarded-done, guarded-wild}
use alphadb.Raft.Replication.{
  find_conflict, entries_from, advance_commit, take_entries, append_entries,
}

-- The log is cut at a conflict: an entry of the leader's whose index, as an int, is `n`, and whose
-- term, as an int, is not the one that stands there.
abbrev pub CutAt : List LogEntry → List LogEntry → ℕ → Type 0
CutAt log [] n = ⊥
CutAt log (e ∷ es) n =
    ((to_int e.index ≡ pos n)
      × ((old : LogEntry) × (get_elem? log n ≡ some old) × (old.term ≢ widened (to_int e.term))))
    ⊎ CutAt log es n

take_all : (log : List LogEntry) → take (length log) log ≡ log
take_all [] = refl
take_all (e ∷ log) = ap (◌∷◌ e) (take_all log)

at-inside :
    (log : List LogEntry) (i : ℤ) (old : LogEntry)
    → at log i ≡ some old
    → (n : ℕ) × (i ≡ pos n) × (get_elem? log n ≡ some old)
at-inside log (pos n) old e = (n, refl, e)
at-inside log (negsuc k) old e = absurd (ground arith)

-- What find_conflict leaves: all of the log, or the part before a conflict.
find_conflict-cut :
    (log es kept : List LogEntry) (index index' : Option ℤ)
    → find_conflict log index es ≡ some (kept, index')
    → (kept ≡ log) ⊎ ((n : ℕ) × (kept ≡ take n log) × CutAt log es n)
unfolding find_conflict
find_conflict-cut log [] kept index index' h = inl (ground arith)
find_conflict-cut log (e ∷ es) kept index index' h = elim (Option-cases (at log (to_int e.index))) [
  | inl past ↦ absurd (ground arith)
  | inr (old, found) ↦ elim (Bool-cases (old.term == widened (to_int e.term))) [
    | inr conflict ↦
        let (n, i, there) = at-inside log (to_int e.index) old found in
        inr (n, ground (arith, i), inl (i, (old, there, ground arith)))
    | inl same ↦
        elim (find_conflict-cut log es kept (some (to_int e.index)) index' (ground arith)) [
          | inl whole ↦ inl whole
          | inr (n, cut, at_n) ↦ inr (n, cut, inr at_n)
        ]
  ]
]

-- What is left when append_entries returns, whatever it answers.
pub record Appended (args : AppendEntriesArgs) (s s' : RaftServer) : Type 0 where
  -- The log keeps all its entries or those before a conflict; what follows is new.
  pub log :
      (n : ℕ) × (tail : List LogEntry) × (s'.log_entries ≡ take n s.log_entries ++ tail)
      × ((n ≡ length s.log_entries) ⊎ CutAt s.log_entries args.log_entries n)
  -- The commit index does not fall while the entry that it names is there, and is not set past the log.
  pub forward :
      s.commit_index < length s'.log_entries
      → length s'.log_entries < 2 ^ 64
      → s.commit_index ≤ s'.commit_index
  pub inside :
      0 < length s'.log_entries
      → length s'.log_entries < 2 ^ 64
      → (s'.commit_index ≡ s.commit_index) ⊎ (s'.commit_index < length s'.log_entries)
  pub term : s'.current_term ≡ s.current_term
  pub vote : s'.voted_for ≡ s.voted_for

unchanged : (args : AppendEntriesArgs) (s : RaftServer) → Appended args s s
unchanged args s = record {
  log = (length s.log_entries, [], sym (append-nil _ ∙ take_all s.log_entries), inl refl);
  forward = λ h k. omega arith;
  inside = λ h k. inl refl;
  term = refl;
  vote = refl;
}

advance_commit-Appended :
    (args : AppendEntriesArgs) (s : RaftServer) (log : List LogEntry)
    → (n : ℕ) (tail : List LogEntry) → log ≡ take n s.log_entries ++ tail
    → (n ≡ length s.log_entries) ⊎ CutAt s.log_entries args.log_entries n
    → Appended args s (advance_commit args.leader_commit (record s { log_entries = log }))
unfolding advance_commit
advance_commit-Appended args s log n tail e at =
    elim (Bool-cases (ltb s.commit_index args.leader_commit)) [
      | inl more ↦ rw more (record {
        log = (n, tail, e, at);
        forward = λ h k. omega (arith, ltb→lt _ _ more);
        inside = λ h k. inr (omega arith);
        term = refl;
        vote = refl;
      })
      | inr same ↦ rw same (record {
        log = (n, tail, e, at);
        forward = λ h k. omega arith;
        inside = λ h k. inl refl;
        term = refl;
        vote = refl;
      })
    ]

take_entries-Appended :
    (args : AppendEntriesArgs) (reply r : AppendEntriesReply) (s s' : RaftServer)
    → take_entries args reply s ≡ done r s'
    → Appended args s s'
unfolding take_entries
take_entries-Appended args reply r s s' run =
    elim (Option-cases (find_conflict s.log_entries none args.log_entries)) [
      | inl past ↦ absurd (ground arith)
      | inr ((kept, none), e) ↦ absurd (ground arith)
      | inr ((kept, some index), e) ↦ elim (Option-cases (entries_from index args.log_entries)) [
        | inl out ↦ absurd (ground arith)
        | inr (fresh, f) ↦
            let e' : s'
                ≡ advance_commit args.leader_commit (record s { log_entries = kept ++ fresh }) =
              ground arith in
            rw e'
              (elim (find_conflict-cut s.log_entries args.log_entries kept none (some index) e) [
                | inl whole ↦
                    advance_commit-Appended args s (kept ++ fresh) (length s.log_entries) fresh
                      (ap (λ l. l ++ fresh) (whole ∙ sym (take_all s.log_entries))) (inl refl)
                | inr (n, cut, at) ↦
                    advance_commit-Appended args s (kept ++ fresh) n fresh
                      (ap (λ l. l ++ fresh) cut) (inr at)
              ])
      ]
    ]

-- When append_entries returns, the log keeps all its entries, or those before an entry that
-- conflicts with an entry of the request, both its index and term taken as ints, and only gains
-- entries behind them; while the log is not empty and shorter than 2 ^ 64, the commit index is
-- unchanged or inside the log, and it does not fall if its entry is still there; the term and the
-- vote stay.
pub append_entries-Appended :
    (args : AppendEntriesArgs) (reply r : AppendEntriesReply) (s s' : RaftServer)
    → append_entries args reply s ≡ done r s'
    → Appended args s s'
unfolding append_entries
append_entries-Appended args reply r s s' run =
    let (t, free, body, shut) = guarded-done _ s run in
    let s₁ : RaftServer = record s { held = true } in
    let same : t ≡ s₁ → Appended args s s' = λ e.
      rw (shut, e)
        (record {
          log = (unchanged args s).log;
          forward = λ h k. omega arith;
          inside = λ h k. inl refl;
          term = refl;
          vote = refl;
        }) in
    elim (Bool-cases
      (ltb args.term s.current_term || ltb (length s.log_entries) args.prev_log_index)) [
        | inl refused ↦ same (ground arith)
        | inr fine ↦ elim (Option-cases (get_elem? s.log_entries args.prev_log_index)) [
          | inl past ↦ absurd (ground arith)
          | inr (prev, e) ↦ elim (Bool-cases (not (prev.term == args.prev_log_term))) [
            | inl other ↦ same (ground arith)
            | inr match ↦
                let v = take_entries-Appended args reply r s₁ t (ground arith) in
                rw shut (record {
                  log = v.log;
                  forward = v.forward;
                  inside = v.inside;
                  term = v.term;
                  vote = v.vote;
                })
          ]
        ]
      ]

get_elem?-inside :
    {A : Type 0} (xs : List A) (i : ℕ) (x : A) → get_elem? xs i ≡ some x → i < length xs
get_elem?-inside [] i x e = absurd (cc)
get_elem?-inside (y ∷ ys) zero x e = omega arith
get_elem?-inside (y ∷ ys) (suc i) x e = omega (arith, get_elem?-inside ys i x e)

-- If the mutex is free, append_entries reads a variable that was never set on every request that is
-- not of an older term, matches the log at the previous index and brings no entries.
pub append_entries-heartbeat :
    (args : AppendEntriesArgs) (reply : AppendEntriesReply) (prev : LogEntry) (s : RaftServer)
    → s.held ≡ false
    → s.current_term ≤ args.term
    → get_elem? s.log_entries args.prev_log_index ≡ some prev
    → prev.term ≡ args.prev_log_term
    → args.log_entries ≡ []
    → append_entries args reply s ≡ wild
unfolding append_entries take_entries find_conflict
append_entries-heartbeat args reply prev s free fresh at same empty =
    let inside = get_elem?-inside s.log_entries args.prev_log_index prev at in
    let fine : (ltb args.term s.current_term || ltb (length s.log_entries) args.prev_log_index)
        ≡ false =
      ground arith in
    let match : not (prev.term == args.prev_log_term) ≡ false = ground arith in
    guarded-wild _ s free (rw (fine, at, match, empty))
