-- ===== src/Arduino/Max3421e/Lines.antt =====
-- The interrupt lines that max3421e_poll of src/arduino/max3421e.cpp reads.
use microbridge.Base.{ℕ, ◌≡◌, refl, ◌==◌, if◌then◌else◌, Bool, true, false}
use microbridge.Base.Run.{Cmd, pure, ◌>>=◌, ◌>>◌}
use microbridge.Shield.{Shield}
use microbridge.Arduino.Core.{Core, pin_max_int, pin_max_gpx}
use microbridge.Arduino.Max3421e.{
  write, read, set_vbus, start_host, busprobe, interrupt_handler, gpx_interrupt_handler, poll,
}

-- The same board, where the GPX pin shows what `shown` reads.
abbrev pub with_gpx : Cmd Shield ℕ → Core → Core
with_gpx shown core = record core {
  digital_read = λ pin. if pin == pin_max_gpx then shown else core.digital_read pin;
}

-- What a poll does when the interrupt pin is low, and when it is high.
abbrev pub serviced : Core → (low : Bool) → Cmd Shield ℕ
serviced core false = pure 0
serviced core true = do
  rcode ← interrupt_handler core
  (do _ ← gpx_interrupt_handler core; pure tt)
  pure rcode

-- The tests of a poll, on one reading.
abbrev tested : Core → (low : Bool) → Cmd Shield ℕ
tested core low = do
  rcode ← if low then interrupt_handler core else pure 0
  if low then (do _ ← gpx_interrupt_handler core; pure tt) else pure tt
  pure rcode

tested-serviced : (core : Core) (low : Bool) → tested core low ≡ serviced core low
tested-serviced core false = refl
tested-serviced core true = refl

gpx_unread : (shown : Cmd Shield ℕ) (core : Core) → poll (with_gpx shown core) ≡ poll core
unfolding poll write read set_vbus start_host busprobe interrupt_handler gpx_interrupt_handler
gpx_unread shown core = refl

-- Polling does not see the GPX line: whatever its pin shows, the poll is the same. Where the interrupt
-- pin shows 1 it does nothing; where it shows 0 at both readings, the poll services the interrupt,
-- reads the GPX register as well, and returns the code of the interrupt.
pub poll_lines :
    (shown : Cmd Shield ℕ) (core : Core) (level : ℕ)
    → core.digital_read pin_max_int ≡ pure level
    → (poll (with_gpx shown core) ≡ poll core) × (poll core ≡ serviced core (level == 0))
unfolding poll
poll_lines shown core level shows =
    (gpx_unread shown core, rw shows (tested-serviced core (level == 0)))
