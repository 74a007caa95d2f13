-- ===== src/Shield.antt =====
-- The board as the firmware sees it: the SPI wire to the MAX3421E (src/mcu/spi.c and the transfer
-- lines of src/mcu/max3421e/max3421e.c), the port registers of the ATmega1280 (the MCU of
-- src/mcu/Makefile), the millisecond clock (avr_millis, avr_delay of src/mcu/avr.c) and the
-- static variable vbusState of max3421e.c. What the chip shifts back and what the clock shows are
-- streams that the environment chooses.
pub mod Clock
pub mod Console
use microbridge.Base.{
  ℕ, zero, suc, ◌+◌, ℤ, List, ◌∷◌, none, leb, u8, u32, sub32, bit_and, bit_or, if◌then◌else◌,
}
use microbridge.Base.Run.{Cmd, pure, ◌>>=◌, modify}

-- What the firmware does to the bus: pull slave select low, shift a byte out, pull it high.
pub data Wire : Type 0 where
  select : Wire
  send : ℕ → Wire
  release : Wire

-- Messages printed on the serial port.
pub data Notice : Type 0 where
  oscillator_failed : Notice
  read_mismatch : ℕ → ℤ → ℕ → Notice

-- The port registers that the firmware sets up.
pub record Ports : Type 0 where
  pub ddrb : ℕ
  pub portb : ℕ
  pub ddrh : ℕ
  pub porth : ℕ
  pub spcr : ℕ

pub record Shield : Type 0 where
  -- newest first
  pub wire : List Wire
  -- the byte that the chip shifts back in each exchange, and the number of exchanges so far
  pub replies : ℕ → ℕ
  pub exchanges : ℕ
  pub spdr : ℕ
  -- the value of timer0_millis at each call of avr_millis, and the number of calls so far
  pub clock : ℕ → ℕ
  pub readings : ℕ
  pub ports : Ports
  pub vbus_state : ℕ
  -- newest first
  pub console : List Notice

unfoldable pub put_wire : Wire → Cmd Shield (Unit {0})
put_wire w = modify λ s. record s { wire = w ∷ s.wire }

-- `SPDR = value; while (!(SPSR & (1 << SPIF)));`
unfoldable pub exchange : ℕ → Cmd Shield (Unit {0})
exchange value = modify λ s. record s {
  wire = send value ∷ s.wire;
  exchanges = s.exchanges + 1;
  spdr = u8 (s.replies s.exchanges);
}

unfoldable pub print : Notice → Cmd Shield (Unit {0})
print n = modify λ s. record s { console = n ∷ s.console }

unfoldable pub millis : Cmd Shield ℕ
millis s = pure (u32 (s.clock s.readings)) (record s { readings = s.readings + 1 })

delay_loop : ℕ → (start ms : ℕ) → Cmd Shield (Unit {0})
delay_loop zero start ms = λ _. none
delay_loop (suc fuel) start ms =
    let again = delay_loop fuel start ms in
    do now ← millis; if leb (sub32 now start) ms then again else pure tt

unfoldable pub delay : ℕ → ℕ → Cmd Shield (Unit {0})
unfolding delay_loop
delay fuel ms = do start ← millis; delay_loop fuel start ms

-- The SPI lines become outputs but MISO, slave select is pulled high, and the unit is made a
-- master (MSTR, bit 4) and enabled (SPE, bit 6).
unfoldable pub spi_begin : Ports → Ports
spi_begin p = record p {
  ddrb = bit_and (bit_or p.ddrb 0x7) 0xf7;
  portb = bit_or (bit_and p.portb 0xf9) 0x1;
  spcr = bit_or (bit_or p.spcr 0x10) 0x40;
}
