-- ===== src/Arduino/Core.antt =====
-- What src/arduino uses of the Arduino core library: pins, the SPI unit, the clock and the serial port.
use microbridge.Base.{ℕ, ◌≡◌}
use microbridge.Base.Run.{Cmd}
use microbridge.Shield
use microbridge.Shield.{Shield, Notice, select, release, put_wire}

-- INPUT, OUTPUT, SS, pinMode, digitalWrite, digitalRead, SPI.begin, millis, delay and Serial.print.
pub record Core : Type 0 where
  pub input : ℕ
  pub output : ℕ
  pub ss : ℕ
  pub pin_mode : (pin mode : ℕ) → Cmd Shield (Unit {0})
  pub digital_write : (pin value : ℕ) → Cmd Shield (Unit {0})
  pub digital_read : (pin : ℕ) → Cmd Shield ℕ
  pub spi_begin : Cmd Shield (Unit {0})
  pub millis : Cmd Shield ℕ
  pub delay : (fuel ms : ℕ) → Cmd Shield (Unit {0})
  pub print : Notice → Cmd Shield (Unit {0})

-- digitalWrite on SS drives the slave select of the chip, millis shows the count of the timer
-- interrupt, delay waits for it as avr_delay does, and Serial.print puts a message on the console.
pub record Agrees (core : Core) : Type 0 where
  pub selects : core.digital_write core.ss 0 ≡ put_wire select
  pub releases : core.digital_write core.ss 1 ≡ put_wire release
  pub shows : core.millis ≡ Shield.millis
  pub waits : core.delay ≡ Shield.delay
  pub prints : core.print ≡ Shield.print

abbrev pub pin_max_ss : ℕ
pin_max_ss = 10

abbrev pub pin_max_int : ℕ
pin_max_int = 9

abbrev pub pin_max_gpx : ℕ
pin_max_gpx = 8

abbrev pub pin_max_reset : ℕ
pin_max_reset = 7
