-- ===== src/Network/Poller.antt =====
-- network/poller.cc, on Linux: the channels of an epoll_poller and one round of its loop. A channel is
-- a number; what is asked of epoll_ctl is a list.
pub mod Dispatch
use alphadb.Prelude.{
  ℕ, zero, suc, ◌+◌, ◌-◌, ◌/◌, ◌%◌, Bool, true, false, ◌||◌, Option, none, some, List, [], ◌∷◌,
  ◌++◌, ◌==◌, if◌then◌else◌, get_elem?, erase, length,
}
use alphadb.Network.Channel.{has_bit, write_event}

-- epoll_ctl with the channel and its events
pub data Control : Type 0 where
  ctl_add ctl_mod ctl_del : ℕ → ℕ → Control

pub record EpollPoller : Type 0 where
  pub channels : List ℕ

-- std::set::insert
unfoldable pub insert_channel : ℕ → List ℕ → List ℕ
insert_channel chan [] = chan ∷ []
insert_channel chan (c ∷ cs) = if chan == c then c ∷ cs else c ∷ insert_channel chan cs

-- epoll_poller::add_channel, update_channel and remove_channel
unfoldable pub add_channel : ℕ → ℕ → EpollPoller → EpollPoller × List Control
add_channel chan events p =
    (record p { channels = insert_channel chan p.channels }, ctl_add chan events ∷ [])

unfoldable pub update_channel : ℕ → ℕ → EpollPoller → EpollPoller × List Control
update_channel chan events p = (p, ctl_mod chan events ∷ [])

unfoldable pub remove_channel : ℕ → ℕ → EpollPoller → EpollPoller × List Control
remove_channel chan events p =
    (record p { channels = erase chan p.channels }, ctl_del chan events ∷ [])

-- An event that epoll_wait has answered: its channel, none for nullptr, and its events.
pub record Event : Type 0 where
  pub chan : Option ℕ
  pub events : ℕ

-- channel::handle_read and channel::handle_write
pub data Handled : Type 0 where
  handle_read handle_write : ℕ → Handled

-- POLLIN, POLLERR and POLLOUT are the bits 1, 8 and 4.
unfoldable pub handle : Event → List Handled
handle e = elim e.chan [
  | none ↦ []
  | some chan ↦
      if has_bit 1 e.events || has_bit 8 e.events
      then handle_read chan ∷ []
      else if has_bit write_event e.events
      then handle_write chan ∷ []
      else []
]

-- An event before those that come after it in the loop.
unfoldable pub handle_first : Option Event → List Handled → List Handled
handle_first none rest = rest
handle_first (some e) rest = handle e ++ rest

-- The loop of loop_once, with `n` events left.
unfoldable pub handle_from : List Event → ℕ → List Handled
handle_from events zero = []
handle_from events (suc i) =
    let rest = handle_from events i in handle_first (get_elem? events i) rest

-- epoll_poller::loop_once, for the events that epoll_wait answers
unfoldable pub loop_once : List Event → List Handled
loop_once events = handle_from events (length events)
