-- ===== src/Usb/Poll/Progress.antt =====
-- The progress of the enumeration in usb_poll of src/mcu/max3421e/max3421e_usb.c: from the settling of an
-- attached device to the request of its descriptor.
use microbridge.Base.{ℕ, ◌+◌, ◌<◌, ◌≡◌, some, u32}
use microbridge.Usb.Constants.{attached_get_descriptor_size}
use microbridge.Usb.Host.{Host}
use microbridge.Usb.Poll.{Client, usb_poll}
use microbridge.Usb.Poll.States.{IsCalm}

-- A later reading is more than 20 ms after the reading n.
abbrev pub Passed : (clock : ℕ → ℕ) (n : ℕ) → Type 0
Passed clock n = (k : ℕ) × (u32 (u32 (clock n) + 20) < u32 (clock (n + 1 + k)))

module _ {S : Type 0} (client : Client S) (calm : IsCalm client) (fuel : ℕ) where
  open client use {host}

  -- The states that polls lead to.
  pub data Reaches : S → S → Type 0 where
    here : (s : S) → Reaches s s
    poll_then : (s t u : S) → usb_poll client fuel s ≡ some (tt, t) → Reaches t u → Reaches s u

  -- A later state that polls lead to, in which the host waits for nothing before the descriptor.
  abbrev pub Arrives : S → Type 0
  Arrives s = (u : S) × Reaches s u × ((host u).task_state ≡ attached_get_descriptor_size)
