-- ===== src/Network/Kqueue/Round.antt =====
-- network/poller.cc, on macOS: what a round of kqueue_poller::loop_once handles when its handlers
-- remove channels.
use mathlib.Core.Option
use mathlib.Core.Option.{none-ne-some, some-injective}
use alphadb.Prelude.{
  ℕ, zero, suc, ◌<◌, ◌≡◌, refl, sym, ◌∙◌, ap, inl, inr, Bool, false, Option, none, some, List, [],
  ◌∷◌, arith, ltb, if◌then◌else◌, count, Bool-cases, Option-cases,
}
use alphadb.Network.Kqueue.{
  KqueuePoller, is_chan, clear_from, remove_channel, remove_all, Handlers, handle, loop,
}
use alphadb.Network.Kqueue.Freed.{Distinct, Distinct-less, drop, clear_from-lem}

-- An event whose channel was not removed before.
unfoldable pub survivor : List ℕ → Option ℕ → Option ℕ
survivor freed none = none
survivor freed (some c) = if ltb 0 (count c freed) then none else some c

unfoldable pub free_all : List ℕ → List ℕ → List ℕ
free_all [] freed = freed
free_all (chan ∷ chans) freed = free_all chans (chan ∷ freed)

-- A round that, of the events kqueue gave it, handles each whose channel no handler has removed
-- before, from the last to the first.
unfoldable pub serve :
    {W : Type 0} → Handlers W → (ℕ → Option ℕ) → (ℕ → Bool) → ℕ → List ℕ → W → List ℕ × W
serve {W = W} h events eof zero freed w = (freed, w)
serve {W = W} h events eof (suc i) freed w = elim (survivor freed (events i)) [
  | none ↦ serve h events eof i freed w
  | some chan ↦
      let r : List ℕ × W = handle h (eof i) chan w in serve h events eof i (free_all r.0 freed) r.1
]

drop-survivor :
    (chan : ℕ) (freed : List ℕ) (o : Option ℕ)
    → drop chan (survivor freed o) ≡ survivor (chan ∷ freed) o
unfolding drop survivor is_chan count
drop-survivor chan freed none = refl
drop-survivor chan freed (some c) = ground arith

survivor-some :
    (freed : List ℕ) (o : Option ℕ) (c : ℕ)
    → survivor freed o ≡ some c
    → (o ≡ some c) × (ltb 0 (count c freed) ≡ false)
unfolding survivor
survivor-some freed none c e = absurd (ground arith)
survivor-some freed (some d) c e = elim (Bool-cases (ltb 0 (count d freed))) [
  | inl gone ↦ absurd (none-ne-some c (sym (ap (λ b. if b then none else some d) gone) ∙ e))
  | inr live ↦
      let same : d ≡ c = some-injective d c (sym (ap (λ b. if b then none else some d) live) ∙ e) in
      (ap some same, ap (λ k. ltb 0 (count k freed)) (sym same) ∙ live)
]

-- What remove_channel leaves alone.
remove_all-rest :
    (chans : List ℕ) (p : KqueuePoller)
    → ((remove_all chans p).last_active ≡ p.last_active)
      × ((remove_all chans p).eof ≡ p.eof)
      × ((remove_all chans p).freed ≡ free_all chans p.freed)
unfolding remove_all free_all remove_channel
remove_all-rest [] p = (refl, refl, refl)
remove_all-rest (chan ∷ chans) p = remove_all-rest chans (remove_channel chan p)

-- The first n events are those that kqueue gave, without the channels that were removed since.
abbrev pub Follows : ℕ → (ℕ → Option ℕ) → KqueuePoller → Type 0
Follows n events p = (j : ℕ) → j < n → p.udata j ≡ survivor p.freed (events j)

Follows-Distinct :
    (n : ℕ) (events : ℕ → Option ℕ) (p : KqueuePoller)
    → Distinct n events
    → Follows n events p
    → Distinct n p.udata
Follows-Distinct n events p d f j k c h g e l =
    d j k c h g (survivor-some p.freed (events j) c (sym (f j h) ∙ e)).0
      (survivor-some p.freed (events k) c (sym (f k g) ∙ l)).0

remove_channel-Follows :
    (chan n : ℕ) (events : ℕ → Option ℕ) (p : KqueuePoller)
    → Distinct n events
    → p.last_active ≡ n
    → Follows n events p
    → Follows n events (remove_channel chan p)
unfolding remove_channel
remove_channel-Follows chan n events p d e f j h =
    ap (λ m. clear_from chan m p.udata j) e
    ∙ clear_from-lem chan n j p.udata (Follows-Distinct n events p d f) h
    ∙ ap (drop chan) (f j h)
    ∙ drop-survivor chan p.freed (events j)

remove_all-Follows :
    (chans : List ℕ) (n : ℕ) (events : ℕ → Option ℕ) (p : KqueuePoller)
    → Distinct n events
    → p.last_active ≡ n
    → Follows n events p
    → Follows n events (remove_all chans p)
unfolding remove_all
remove_all-Follows [] n events p d e f = f
remove_all-Follows (chan ∷ chans) n events p d e f =
    remove_all-Follows chans n events (remove_channel chan p) d
      ((remove_all-rest (chan ∷ []) p).0 ∙ e) (remove_channel-Follows chan n events p d e f)

Follows-less :
    (i : ℕ) (events : ℕ → Option ℕ) (p : KqueuePoller)
    → Follows (suc i) events p
    → Follows i events p
Follows-less i events p f j h = f j (omega arith)

loop-none :
    {W : Type 0} (h : Handlers W) (i : ℕ) (p : KqueuePoller) (w : W)
    → p.udata i ≡ none
    → loop h (suc i) p w ≡ loop h i (record p { last_active = suc i }) w
unfolding loop
loop-none h i p w e = rw (loop, e) refl

loop-some :
    {W : Type 0} (h : Handlers W) (i : ℕ) (p : KqueuePoller) (w : W) (chan : ℕ)
    → p.udata i ≡ some chan
    → ltb 0 (count chan p.freed) ≡ false
    → loop h (suc i) p w
      ≡ loop h i
          (remove_all (handle h (p.eof i) chan w).0 (record p { last_active = suc i }))
          (handle h (p.eof i) chan w).1
unfolding loop
loop-some h i p w chan e l = rw (loop, e, l) refl

serve-none :
    {W : Type 0} (h : Handlers W) (events : ℕ → Option ℕ) (eof : ℕ → Bool) (i : ℕ) (freed : List ℕ)
    (w : W)
    → survivor freed (events i) ≡ none
    → serve h events eof (suc i) freed w ≡ serve h events eof i freed w
unfolding serve
serve-none h events eof i freed w e = rw (serve, e) refl

serve-some :
    {W : Type 0} (h : Handlers W) (events : ℕ → Option ℕ) (eof : ℕ → Bool) (i : ℕ) (freed : List ℕ)
    (w : W) (chan : ℕ)
    → survivor freed (events i) ≡ some chan
    → serve h events eof (suc i) freed w
      ≡ serve h events eof i
          (free_all (handle h (eof i) chan w).0 freed)
          (handle h (eof i) chan w).1
unfolding serve
serve-some h events eof i freed w chan e = rw (serve, e) refl

-- What a round leaves: the channels it removed, and the state of the connections.
abbrev pub left_by : {W : Type 0} → KqueuePoller × W → List ℕ × W
left_by r = (r.0.freed, r.1)

loop-Follows :
    {W : Type 0} (h : Handlers W) (n : ℕ) (events : ℕ → Option ℕ) (p : KqueuePoller) (w : W)
    → Distinct n events
    → Follows n events p
    → Option.map left_by (loop h n p w) ≡ some (serve h events p.eof n p.freed w)
unfolding loop serve
loop-Follows h zero events p w d f = refl
loop-Follows h (suc i) events p w d f = elim (Option-cases (p.udata i)) [
  | inl gone ↦
      ap (Option.map left_by) (loop-none h i p w gone)
      ∙ loop-Follows h i events (record p { last_active = suc i }) w (Distinct-less i events d)
          (Follows-less i events p f)
      ∙ sym (ap some (serve-none h events p.eof i p.freed w (sym (f i (omega arith)) ∙ gone)))
  | inr found ↦
      let there = sym (f i (omega arith)) ∙ found.1 in
      let r : List ℕ × _ = handle h (p.eof i) found.0 w in
      let rest = remove_all-rest r.0 (record p { last_active = suc i }) in
      ap (Option.map left_by)
        (loop-some h i p w found.0 found.1 (survivor-some p.freed (events i) found.0 there).1)
      ∙ loop-Follows h i events (remove_all r.0 (record p { last_active = suc i })) r.1
          (Distinct-less i events d)
          (Follows-less i events (remove_all r.0 (record p { last_active = suc i }))
            (remove_all-Follows r.0 (suc i) events (record p { last_active = suc i }) d refl f))
      ∙ ap some (
          ap (λ e. serve h events e i (remove_all r.0 (record p { last_active = suc i })).freed r.1)
            rest.1
          ∙ ap (λ l. serve h events p.eof i l r.1) rest.2
          ∙ sym (serve-some h events p.eof i p.freed w found.0 there))
]

survivor-fresh : (o : Option ℕ) → o ≡ survivor [] o
unfolding survivor count
survivor-fresh none = refl
survivor-fresh (some c) = refl

-- If no two events of a round are of one channel and none was removed before, then the loop of
-- kqueue_poller::loop_once never takes an event of a channel that a handler removed; it handles
-- exactly the events whose channels no earlier handler of the round removed, from the last to the
-- first, and leaves the state and the removed channels that these handlers leave.
pub loop-serve :
    {W : Type 0} (h : Handlers W) (n : ℕ) (p : KqueuePoller) (w : W)
    → p.freed ≡ []
    → Distinct n p.udata
    → Option.map left_by (loop h n p w) ≡ some (serve h p.udata p.eof n [] w)
loop-serve h n p w e d =
    loop-Follows h n p.udata p w d
      (λ j l. survivor-fresh (p.udata j) ∙ ap (λ f. survivor f (p.udata j)) (sym e))
    ∙ ap (λ f. some (serve h p.udata p.eof n f w)) e
