-- ===== src/Raft/Lock.antt =====
-- The mutex: what a handler that returns has done, and what a handler that locks again comes to.
use alphadb.Prelude.{ℕ, ◌≡◌, refl, Bool, true, false, arith, ap, ◌∙◌}
use alphadb.Raft.Outcome.{Outcome, H, done, relock, wild, ◌>>=◌}
use alphadb.Raft.State.{Role, follower, candidate, leader, RaftServer}
use alphadb.Raft.Server.{leave, enter, guarded, convert_to, cancel_timer, majority}
use alphadb.Raft.Replication.{send_append_entries_args}

module _ {A B : Type 0} (f : A → H RaftServer B) {b : B} {s' : RaftServer} where
  pub case-done :
      (o : Outcome RaftServer A)
      → elim o [ done a t ↦ f a t | relock ↦ relock | wild ↦ wild ] ≡ done b s'
      → (a : A) × (t : RaftServer) × (o ≡ done a t) × (f a t ≡ done b s')
  case-done (done a t) e = (a, t, refl, e)
  case-done relock e = absurd (cc)
  case-done wild e = absurd (cc)

module _ {A : Type 0} where
  leave-done :
      (o : Outcome RaftServer A) {a : A} {s' : RaftServer}
      → leave o ≡ done a s'
      → (t : RaftServer) × (o ≡ done a t) × (s' ≡ record t { held = false })
  leave-done (done b t) e = (t, ground arith, ground arith)
  leave-done relock e = absurd (cc)
  leave-done wild e = absurd (cc)

  enter-done :
      (b : Bool) (body : H RaftServer A) (s : RaftServer) {a : A} {s' : RaftServer}
      → enter b body s ≡ done a s'
      → (t : RaftServer) × (b ≡ false)
        × (body (record s { held = true }) ≡ done a t)
        × (s' ≡ record t { held = false })
  enter-done true body s e = absurd (cc)
  enter-done false body s e =
      let (t, run, shut) = leave-done (body (record s { held = true })) e in (t, refl, run, shut)

  -- A block that returns found the mutex free, and leaves it free.
  pub guarded-done :
      (body : H RaftServer A) (s : RaftServer) {a : A} {s' : RaftServer}
      → guarded body s ≡ done a s'
      → (t : RaftServer) × (s.held ≡ false)
        × (body (record s { held = true }) ≡ done a t)
        × (s' ≡ record t { held = false })
  guarded-done body s e = enter-done s.held body s e

  pub guarded-held :
      (body : H RaftServer A) (s : RaftServer) → s.held ≡ true → guarded body s ≡ relock
  guarded-held body s h = ap (λ b. enter b body s) h

  -- A block that locks again does not return, whether the mutex was free or not.
  enter-relock :
      (b : Bool) (body : H RaftServer A) (s : RaftServer)
      → body (record s { held = true }) ≡ relock
      → enter b body s ≡ relock
  enter-relock true body s e = refl
  enter-relock false body s e = ap leave e

  pub guarded-relock :
      (body : H RaftServer A) (s : RaftServer)
      → body (record s { held = true }) ≡ relock
      → guarded body s ≡ relock
  guarded-relock body s e = enter-relock s.held body s e

  enter-wild :
      (b : Bool) (body : H RaftServer A) (s : RaftServer)
      → b ≡ false
      → body (record s { held = true }) ≡ wild
      → enter b body s ≡ wild
  enter-wild true body s h e = absurd (cc)
  enter-wild false body s h e = ap leave e

  pub guarded-wild :
      (body : H RaftServer A) (s : RaftServer)
      → s.held ≡ false
      → body (record s { held = true }) ≡ wild
      → guarded body s ≡ wild
  guarded-wild body s h e = enter-wild s.held body s h e

  enter-ends :
      (b : Bool) (body : H RaftServer A) (s : RaftServer) {a : A} {t : RaftServer}
      → b ≡ false
      → body (record s { held = true }) ≡ done a t
      → enter b body s ≡ done a (record t { held = false })
  enter-ends true body s h e = absurd (cc)
  enter-ends false body s h e = ap leave e

  pub guarded-ends :
      (body : H RaftServer A) (s : RaftServer) {a : A} {t : RaftServer}
      → s.held ≡ false
      → body (record s { held = true }) ≡ done a t
      → guarded body s ≡ done a (record t { held = false })
  guarded-ends body s h e = enter-ends s.held body s h e

cancel_timer-held : (r : Role) (s : RaftServer) → (cancel_timer r s).held ≡ s.held
unfolding cancel_timer
cancel_timer-held follower s = refl
cancel_timer-held candidate s = refl
cancel_timer-held leader s = refl

-- No conversion is possible under the lock.
pub convert_to-held :
    (r : Role) (term : ℕ) (s : RaftServer) → s.held ≡ true → convert_to r term s ≡ relock
unfolding convert_to
convert_to-held follower term s h =
    rw (convert_to, ◌>>=◌, guarded-held _ (cancel_timer s.role s) (cancel_timer-held s.role s ∙ h))
convert_to-held candidate term s h = rw (convert_to, ◌>>=◌, h)
convert_to-held leader term s h = rw (convert_to, ◌>>=◌, h)

pub majority-held : (s : RaftServer) → s.held ≡ true → majority s ≡ relock
unfolding majority
majority-held s h = guarded-held _ s h

pub send_append_entries_args-held :
    (s : RaftServer) → s.held ≡ true → send_append_entries_args s ≡ relock
unfolding send_append_entries_args
send_append_entries_args-held s h = guarded-held _ s h
