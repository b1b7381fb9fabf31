-- ===== src/Raft/Life/Kept.antt =====
-- What the handlers that return leave of the role, the term and the vote of a server.
use alphadb.Prelude.{
  ℕ, ◌≡◌, refl, sym, subst, ◌∙◌, inl, inr, true, Option, none, some, arith, Option-cases,
}
use alphadb.Raft.Outcome.{Outcome, H, done, relock, wild, pure, ◌>>=◌, modify, have}
use alphadb.Raft.State.{RequestVoteArgs, RequestVoteReply, RaftServer, back}
use alphadb.Raft.Lock.{case-done, guarded-done}
use alphadb.Raft.Server.{guarded, cast_vote}

-- The role and the term stay, and so does a vote that has been given.
pub record Kept (s t : RaftServer) : Type 0 where
  pub role : t.role ≡ s.role
  pub term : t.current_term ≡ s.current_term
  pub vote : (c : ℕ) → s.voted_for ≡ some c → t.voted_for ≡ some c

pub Kept-refl : (s : RaftServer) → Kept s s
Kept-refl s = record { role = refl; term = refl; vote = λ c e. e }

pub Kept-trans : (s t u : RaftServer) → Kept s t → Kept t u → Kept s u
Kept-trans s t u a b = record {
  role = b.role ∙ a.role;
  term = b.term ∙ a.term;
  vote = λ c e. b.vote c (a.vote c e);
}

-- A handler keeps these if it returns.
abbrev pub Keeps : {A : Type 0} → H RaftServer A → RaftServer → Type 0
Keeps {A} m s = (a : A) (t : RaftServer) → m s ≡ done a t → Kept s t

pub guarded-Keeps :
    {A : Type 0} (body : H RaftServer A) (s : RaftServer)
    → Keeps body (record s { held = true })
    → Keeps (guarded body) s
guarded-Keeps body s h a t run =
    let (u, free, one, shut) = guarded-done body s run in
    let v = h a u one in
    subst (Kept s) (sym shut) (record { role = v.role; term = v.term; vote = v.vote })

-- One handler after another.
pub then-Keeps :
    {A B : Type 0} (m : H RaftServer A) (f : A → H RaftServer B) (s : RaftServer)
    → Keeps m s
    → ((a : A) (t : RaftServer) → m s ≡ done a t → Keeps (f a) t)
    → Keeps (m >>= f) s
then-Keeps m f s h g b u run =
    let (a, t, one, more) = case-done f (m s) run in
    Kept-trans s t u (h a t one) (g a t one b u more)

-- A handler that only changes other members.
pub pure-Keeps : {A : Type 0} (a : A) (s : RaftServer) → Keeps (pure a) s
pure-Keeps a s b t run = let e : t ≡ s = ground arith in subst (Kept s) (sym e) (Kept-refl s)

-- A handler whose result is known.
pub ends-Kept :
    {A : Type 0} (o : Outcome RaftServer A) {a : A} (b : A) (s t u : RaftServer)
    → o ≡ done b u
    → Kept s u
    → o ≡ done a t
    → Kept s t
ends-Kept o b s t u known v run = let e : t ≡ u = ground arith in subst (Kept s) (sym e) v

-- A handler that does not return.
pub relock-done :
    {A : Type 0} (o : Outcome RaftServer A) {a : A} {t : RaftServer} → o ≡ relock → o ≡ done a t → ⊥
relock-done o stuck run = ground arith

pub wild-done :
    {A : Type 0} (o : Outcome RaftServer A) {a : A} {t : RaftServer} → o ≡ wild → o ≡ done a t → ⊥
wild-done o stuck run = ground arith

pub modify-Keeps :
    (f : RaftServer → RaftServer) (s : RaftServer) → Kept s (f s) → Keeps (modify f) s
modify-Keeps f s v a t run = ends-Kept (modify f s) tt s t (f s) refl v run

pub have-Keeps : {A : Type 0} (o : Option A) (s : RaftServer) → Keeps (have o) s
have-Keeps none s a t run = absurd (cc)
have-Keeps (some b) s a t run = ends-Kept (have (some b) s) b s t s refl (Kept-refl s) run

pub cast_vote-role :
    (args : RequestVoteArgs) (reply r : RequestVoteReply) (s t : RaftServer)
    → cast_vote args reply s ≡ done r t
    → t.role ≡ s.role
unfolding cast_vote
cast_vote-role args reply r s t run = elim (Option-cases (back s.log_entries)) [
  | inl empty ↦ ground arith
  | inr (l, e) ↦ ground arith
]
