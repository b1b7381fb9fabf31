-- ===== src/Network/Channel.antt =====
-- network/channel.cc, on Linux: the events that a channel waits for, and what it asks of its poller.
-- The events are a short that is not negative, a sum of the bits of its events.
pub mod Flags
use alphadb.Prelude.{ℕ, ◌+◌, ◌-◌, ◌/◌, ◌%◌, Bool, true, false, List, [], ◌∷◌, ◌==◌, if◌then◌else◌}
use alphadb.Prelude.Int.{ℤ, pos, negsuc}

-- The calls of the poller's update_channel and remove_channel, and of ::close.
pub data Request : Type 0 where
  update remove close_fd : Request

pub record Channel : Type 0 where
  pub fd : ℤ
  pub events : ℕ

-- EPOLLIN and EPOLLOUT
abbrev pub read_event : ℕ
read_event = 1

abbrev pub write_event : ℕ
write_event = 4

-- events & w, events |= w and events &= ~w, for a bit w
unfoldable pub has_bit : ℕ → ℕ → Bool
has_bit w e = e / w % 2 == 1

unfoldable pub set_bit : ℕ → ℕ → ℕ
set_bit w e = if has_bit w e then e else e + w

unfoldable pub clear_bit : ℕ → ℕ → ℕ
clear_bit w e = if has_bit w e then e - w else e

-- channel::enable_read and channel::enable_write
unfoldable pub enable_read : Bool → Channel → Channel × List Request
enable_read enable c = (
  record c {
    events = if enable then set_bit read_event c.events else clear_bit read_event c.events;
  },
  update ∷ [],
)

unfoldable pub enable_write : Bool → Channel → Channel × List Request
enable_write enable c = (
  record c {
    events = if enable then set_bit write_event c.events else clear_bit write_event c.events;
  },
  update ∷ [],
)

-- channel::read_enabled and channel::write_enabled
unfoldable pub read_enabled : Channel → Bool
read_enabled c = has_bit read_event c.events

unfoldable pub write_enabled : Channel → Bool
write_enabled c = has_bit write_event c.events

-- channel::close
unfoldable pub close : Channel → Channel × List Request
close c = elim c.fd [
  | pos _ ↦ (record c { fd = negsuc 0 }, remove ∷ close_fd ∷ [])
  | negsuc _ ↦ (c, [])
]
