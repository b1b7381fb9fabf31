-- ===== src/Network/Channel/Flags.antt =====
-- The two flags of a channel.
use alphadb.Prelude.{◌≡◌, refl, Bool, true, false, [], arith}
use alphadb.Prelude.Int.{pos, negsuc}
use alphadb.Network.Channel.{
  Channel, has_bit, set_bit, clear_bit, enable_read, enable_write, read_enabled, write_enabled,
  close,
}

-- Each flag is what it was last set to, and setting one leaves the other.
pub enable-enabled :
    (b : Bool) (c : Channel)
    → (read_enabled (enable_read b c).0 ≡ b)
      × (write_enabled (enable_read b c).0 ≡ write_enabled c)
      × (write_enabled (enable_write b c).0 ≡ b)
      × (read_enabled (enable_write b c).0 ≡ read_enabled c)
unfolding read_enabled write_enabled enable_read enable_write has_bit set_bit clear_bit
enable-enabled true c = (ground arith, ground arith, ground arith, ground arith)
enable-enabled false c = (ground arith, ground arith, ground arith, ground arith)

-- A second close asks for nothing.
pub close-close : (c : Channel) → close (close c).0 ≡ ((close c).0, [])
unfolding close
close-close c =
    elim c.fd
      as (λ z. close (close (record c { fd = z })).0 ≡ ((close (record c { fd = z })).0, [])) [
        | pos n ↦ refl
        | negsuc n ↦ refl
      ]
