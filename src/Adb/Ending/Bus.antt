-- ===== src/Adb/Ending/Bus.antt =====
-- usb_poll below src/mcu/adb.c, on a board that does not stall.
use microbridge.Base.{ℕ, ◌+◌, ◌≤◌, ◌≡◌, refl, false, some, ◌==◌, Bool-cases, inl, inr}
use microbridge.Base.Ends.{IsEnding}
use microbridge.Max3421e.Ending.{IsLively}
use microbridge.Usb.Constants.{nak_limit, retry_limit, state_addressing}
use microbridge.Usb.Device.{disconnect}
use microbridge.Usb.Poll.{usb_poll}
use microbridge.Usb.Poll.Returning.{Running, IsResponsive, usb_poll-Ends}
use microbridge.Adb.Link.{Adb}
use microbridge.Adb.Discovery.{Configuration}
use microbridge.Adb.Poll.{client, usb_event_handler, is_device}
use microbridge.Adb.Teardown.{disconnect_teardown}

module _ (rounds fuel : ℕ) (handle : Configuration) where
  -- adb_usbEventHandler returns when a device has gone, whichever it is.
  gone-IsEnding :
      (i : ℕ)
      → IsEnding (Running (client fuel handle) rounds) (usb_event_handler fuel handle i disconnect)
  unfolding usb_event_handler
  gone-IsEnding i = record {
    ends = λ a p. elim (Bool-cases (is_device i a.device)) [
      | inl ours ↦ (_, _, disconnect_teardown fuel i handle a ours, p)
      | inr other ↦ (tt, a, rw other refl, p)
    ];
  }

  client-IsResponsive : IsResponsive (client fuel handle) rounds
  client-IsResponsive = record { host-with_host = λ a h. refl; returns = gone-IsEnding }

  -- On a board that does not stall, every call of usb_poll with the event handler of adb.c returns that is
  -- made in another task state than ADDRESSING, whatever the chip and the device answer, and whether the
  -- phone has gone or not, if the rounds are enough for the waits of the board and for the NAKs and timeouts
  -- that are let pass; the board then still does not stall. (In ADDRESSING the handler reads the
  -- descriptors of a new device.)
  pub usb_poll-Returns :
      (a : Adb)
      → rounds ≤ fuel
      → nak_limit + retry_limit ≤ fuel
      → IsLively rounds a.host.shield
      → (a.host.task_state == state_addressing) ≡ false
      → (b : Adb) × (usb_poll (client fuel handle) fuel a ≡ some (tt, b))
        × IsLively rounds b.host.shield
  usb_poll-Returns a enough tries lively other =
      usb_poll-Ends (client fuel handle) rounds fuel client-IsResponsive enough tries a
        (lively, other)
