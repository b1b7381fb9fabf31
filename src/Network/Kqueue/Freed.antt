-- ===== src/Network/Kqueue/Freed.antt =====
-- network/poller.cc, on macOS: the loop of kqueue_poller::remove_channel.
use mathlib.Core.Bool.{true≢false}
use alphadb.Prelude.{
  ℕ, zero, suc, ◌≤◌, ◌<◌, ◌≡◌, ◌≢◌, refl, sym, ◌∙◌, ap, ◌⊎◌, inl, inr, true, false, Option, none,
  some, arith, if◌then◌else◌, update, Bool-cases,
}
use alphadb.Network.Kqueue.{is_chan, clear_from}

-- No channel has two of the first n events.
abbrev pub Distinct : ℕ → (ℕ → Option ℕ) → Type 0
Distinct n udata = (j k c : ℕ) → j < n → k < n → udata j ≡ some c → udata k ≡ some c → j ≡ k

is_chan-some : (chan : ℕ) (o : Option ℕ) → is_chan chan o ≡ true → o ≡ some chan
unfolding is_chan
is_chan-some chan none e = absurd (ground arith)
is_chan-some chan (some c) e = ground arith

is_chan-other : (chan c : ℕ) (o : Option ℕ) → is_chan chan o ≡ false → o ≡ some c → c ≢ chan
unfolding is_chan
is_chan-other chan c none e f g = ground arith
is_chan-other chan c (some d) e f g = ground arith

clear_from-above :
    (chan n j : ℕ) (udata : ℕ → Option ℕ) → n ≤ j → clear_from chan n udata j ≡ udata j
unfolding clear_from
clear_from-above chan zero j udata h = refl
clear_from-above chan (suc i) j udata h =
    ground (arith, clear_from-above chan i j udata (omega arith))

pub Distinct-less : (i : ℕ) (udata : ℕ → Option ℕ) → Distinct (suc i) udata → Distinct i udata
Distinct-less i udata d j k c h g = d j k c (omega arith) (omega arith)

-- An event without the channel.
unfoldable pub drop : ℕ → Option ℕ → Option ℕ
drop chan o = if is_chan chan o then none else o

less-or-last : (i j : ℕ) → j < suc i → (j < i) ⊎ (j ≡ i)
less-or-last i j h = omega arith

update-found :
    (chan i j : ℕ) (udata : ℕ → Option ℕ)
    → Distinct (suc i) udata
    → j < suc i
    → is_chan chan (udata i) ≡ true
    → update udata i none j ≡ drop chan (udata j)
unfolding update drop
update-found chan i j udata d h e = elim (Bool-cases (is_chan chan (udata j))) [
  | inl found ↦
      let same : j ≡ i =
        d j i chan h (omega arith) (is_chan-some chan (udata j) found)
          (is_chan-some chan (udata i) e) in
      ground arith
  | inr other ↦
      let apart : j ≢ i =
        λ same. true≢false (sym e ∙ ap (λ k. is_chan chan (udata k)) (sym same) ∙ other) in
      ground arith
]

drop-other : (chan : ℕ) (o : Option ℕ) → is_chan chan o ≡ false → drop chan o ≡ o
unfolding drop
drop-other chan o e = rw e refl

-- The loop of remove_channel clears all events of the channel, if there is at most one.
pub clear_from-lem :
    (chan n j : ℕ) (udata : ℕ → Option ℕ)
    → Distinct n udata
    → j < n
    → clear_from chan n udata j ≡ drop chan (udata j)
unfolding clear_from
clear_from-lem chan zero j udata d h = absurd (omega arith)
clear_from-lem chan (suc i) j udata d h = elim (Bool-cases (is_chan chan (udata i))) [
  | inl found ↦ rw found (update-found chan i j udata d h found)
  | inr other ↦ rw other (elim (less-or-last i j h) [
    | inl less ↦ clear_from-lem chan i j udata (Distinct-less i udata d) less
    | inr last ↦
        let others : is_chan chan (udata j) ≡ false =
          ap (λ k. is_chan chan (udata k)) last ∙ other in
        clear_from-above chan i j udata (omega arith) ∙ sym (drop-other chan (udata j) others)
  ])
]
