-- ===== src/Network/Kqueue.antt =====
-- network/poller.cc, on macOS: the channels of a kqueue_poller and one round of its loop, whose handlers
-- may remove channels. A channel is a number; a handler is a parameter that says which channels it
-- removes, which are then freed.
pub mod Freed
pub mod Round
use alphadb.Prelude.{
  ℕ, zero, suc, ◌+◌, Bool, true, false, ◌||◌, Option, none, some, List, [], ◌∷◌, ◌++◌, ◌==◌, ltb,
  if◌then◌else◌, update, erase, count,
}
use alphadb.Network.Poller.{insert_channel}

-- EV_SET with EV_ADD | EV_ENABLE or with EV_DELETE, for a channel and a filter
pub data Filter : Type 0 where
  evfilt_read evfilt_write : Filter

pub data Change : Type 0 where
  enabled deleted : ℕ → Filter → Change

pub record KqueuePoller : Type 0 where
  pub channels : List ℕ
  -- udata of the events of the round, none for nullptr, and whether EV_EOF is set
  pub udata : ℕ → Option ℕ
  pub eof : ℕ → Bool
  -- last_active_ plus one: it is -1 when no round runs
  pub last_active : ℕ
  -- the channels that were removed in this round
  pub freed : List ℕ

-- The changes that add_channel and update_channel hand over.
unfoldable pub added : ℕ → Filter → Bool → List Change
added chan filter on = if on then enabled chan filter ∷ [] else []

unfoldable pub changed : ℕ → Filter → Bool → List Change
changed chan filter on = (if on then enabled chan filter else deleted chan filter) ∷ []

-- kqueue_poller::add_channel and update_channel, with the channel's read_enabled and write_enabled
unfoldable pub add_channel : ℕ → Bool → Bool → KqueuePoller → KqueuePoller × List Change
add_channel chan reads writes p = (
  record p { channels = insert_channel chan p.channels },
  added chan evfilt_read reads ++ added chan evfilt_write writes,
)

unfoldable pub update_channel : ℕ → Bool → Bool → KqueuePoller → KqueuePoller × List Change
update_channel chan reads writes p =
    (p, changed chan evfilt_read reads ++ changed chan evfilt_write writes)

unfoldable pub is_chan : ℕ → Option ℕ → Bool
is_chan chan none = false
is_chan chan (some c) = chan == c

-- The loop of remove_channel, with `n` events left, from the last down.
unfoldable pub clear_from : ℕ → ℕ → (ℕ → Option ℕ) → ℕ → Option ℕ
clear_from chan zero udata = udata
clear_from chan (suc i) udata =
    let rest = clear_from chan i udata in
    if is_chan chan (udata i) then update udata i none else rest

-- kqueue_poller::remove_channel
unfoldable pub remove_channel : ℕ → KqueuePoller → KqueuePoller
remove_channel chan p = record p {
  channels = erase chan p.channels;
  udata = clear_from chan p.last_active p.udata;
  freed = chan ∷ p.freed;
}

unfoldable pub remove_all : List ℕ → KqueuePoller → KqueuePoller
remove_all [] p = p
remove_all (chan ∷ chans) p = remove_all chans (remove_channel chan p)

-- The handlers of the channels: which channels each removes. W is the state of the connections;
-- reads and writes are read_enabled and write_enabled of a channel in it.
pub record Handlers (W : Type 0) : Type 0 where
  pub reads : ℕ → W → Bool
  pub writes : ℕ → W → Bool
  pub on_read : ℕ → W → List ℕ × W
  pub on_write : ℕ → W → List ℕ × W

module _ {W : Type 0} (h : Handlers W) where
  -- handle_read, handle_write or nothing, by the flags of the event and of its channel
  unfoldable pub handle : Bool → ℕ → W → List ℕ × W
  handle eof chan w =
      if eof || h.reads chan w
      then h.on_read chan w
      else if h.writes chan w
      then h.on_write chan w
      else ([], w)

  -- The loop of kqueue_poller::loop_once with `n` events left; none if a freed channel is used.
  unfoldable pub loop : ℕ → KqueuePoller → W → Option (KqueuePoller × W)
  loop zero p w = some (record p { last_active = zero }, w)
  loop (suc i) p w = elim (p.udata i) [
    | none ↦ loop i (record p { last_active = suc i }) w
    | some chan ↦ elim (ltb 0 (count chan p.freed)) [
      | true ↦ none
      | false ↦
          let r : List ℕ × W = handle (p.eof i) chan w in
          loop i (remove_all r.0 (record p { last_active = suc i })) r.1
    ]
  ]
