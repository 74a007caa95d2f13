-- ===== src/Avr/Serial.antt =====
-- Timer set-up, serial set-up and the serial port of src/mcu/avr.c, on the ATmega1280.
pub mod Sending
use microbridge.Base.{
  ℕ, zero, suc, ◌+◌, ◌/◌, ◌^◌, Bool, true, List, [], ◌∷◌, ◌++◌, bit_and, bit_or, none, take, u8,
  ◌==◌, if◌then◌else◌,
}
use microbridge.Base.Run.{Cmd, pure, ◌>>=◌, ◌>>◌, modify}
use microbridge.Avr.{baud_registers}

-- The registers that avr_timerInit and avr_serialInit set up, and the interrupt flag of SREG.
pub record Registers : Type 0 where
  pub tccr0b : ℕ
  pub timsk0 : ℕ
  pub tccr1b : ℕ
  pub timsk1 : ℕ
  pub ucsr0a : ℕ
  pub ucsr0b : ℕ
  pub ubrr0h : ℕ
  pub ubrr0l : ℕ
  pub interrupts : Bool

-- Bits 1 and 0 of TCCR1B are CS11 and CS10, also under the names CS01 and CS00; bit 0 of TIMSK1 is TOIE1.
unfoldable pub timer1_init : Registers → Registers
timer1_init r = record r {
  tccr1b = bit_or (bit_or r.tccr1b (2 ^ 1)) (2 ^ 0);
  timsk1 = bit_or r.timsk1 (2 ^ 0);
}

unfoldable pub timer_init : Registers → Registers
unfolding timer1_init
timer_init r =
    let s = timer1_init (record r { interrupts = true }) in
    record s { tccr0b = bit_or (bit_or s.tccr0b (2 ^ 1)) (2 ^ 0); timsk0 = bit_or s.timsk0 (2 ^ 0) }

-- RXEN0, TXEN0 and RXCIE0 are the bits 4, 3 and 7 of UCSR0B.
unfoldable pub serial_init : (baud : ℕ) → Registers → Registers
unfolding baud_registers
serial_init baud r =
    let (high, low) = baud_registers baud in
    record r {
      ucsr0a = 0;
      ubrr0h = high;
      ubrr0l = low;
      ucsr0b = bit_or (bit_or (bit_or r.ucsr0b (2 ^ 4)) (2 ^ 3)) (2 ^ 7);
    }

-- The serial port: what UCSR0A shows at each reading, the number of readings so far, and the bytes
-- put into UDR0, newest first.
pub record Port : Type 0 where
  pub status : ℕ → ℕ
  pub readings : ℕ
  pub sent : List ℕ

read_status : Cmd Port ℕ
read_status p = pure (p.status p.readings) (record p { readings = p.readings + 1 })

-- `while (!((UCSR0A) & (1 << UDRE0)));`, where UDRE0 is bit 5, and then the byte.
unfoldable pub serial_write : (fuel value : ℕ) → Cmd Port (Unit {0})
unfolding read_status
serial_write zero value = λ _. none
serial_write (suc fuel) value =
    let again = serial_write fuel value in
    do
      status ← read_status
      if bit_and status (2 ^ 5) == 0
          then again
          else (modify λ p. record p { sent = u8 value ∷ p.sent })

-- The string ends at its first zero.
unfoldable pub serial_print : (fuel : ℕ) → List ℕ → Cmd Port (Unit {0})
serial_print fuel [] = pure tt
serial_print fuel (c ∷ cs) =
    let rest = serial_print fuel cs in if c == 0 then pure tt else serial_write fuel c >> rest

-- `text` is the text that vsnprintf formats; it keeps 127 characters of it and a final zero.
unfoldable pub serial_printf : (fuel : ℕ) → (text : List ℕ) → Cmd Port (Unit {0})
serial_printf fuel text = serial_print fuel (take 127 text ++ 0 ∷ [])
