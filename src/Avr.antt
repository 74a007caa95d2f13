-- ===== src/Avr.antt =====
-- Timers and baud rate of src/mcu/avr.c, for F_CPU = 16 MHz (the default of src/mcu/avr.h).
pub mod Time
pub mod Serial
use microbridge.Base.{
  ℕ, zero, suc, ◌+◌, ◌-◌, ◌*◌, ◌/◌, ◌%◌, ◌^◌, List, [], ◌∷◌, leb, u8, u16, u32, sub32,
  if◌then◌else◌, ◌==◌,
}

-- MILLIS_INC, FRACT_INC and FRACT_MAX: a timer 0 overflow comes every 1024 microseconds.
abbrev pub millis_inc : ℕ
millis_inc = 64 * 256 / (16_000_000 / 1_000_000) / 1000

abbrev pub fract_inc : ℕ
fract_inc = 64 * 256 / (16_000_000 / 1_000_000) % 1000 / 8

abbrev pub fract_max : ℕ
fract_max = 1000 / 8

pub record Timers : Type 0 where
  pub timer0_overflow_count : ℕ
  pub timer0_millis : ℕ
  pub timer0_fract : ℕ
  pub timer1_overflow_count : ℕ

abbrev pub reset : Timers
reset = record {
  timer0_overflow_count = 0;
  timer0_millis = 0;
  timer0_fract = 0;
  timer1_overflow_count = 0;
}

-- SIGNAL(TIMER0_OVF_vect)
pub timer0_overflow : Timers → Timers
timer0_overflow t =
    let m = u32 (t.timer0_millis + millis_inc) in
    let f = u8 (t.timer0_fract + fract_inc) in
    let carry = leb fract_max f in
    record t {
      timer0_fract = if carry then f - fract_max else f;
      timer0_millis = if carry then u32 (m + 1) else m;
      timer0_overflow_count = u32 (t.timer0_overflow_count + 1);
    }

-- SIGNAL(TIMER1_OVF_vect)
pub timer1_overflow : Timers → Timers
timer1_overflow t = record t { timer1_overflow_count = u16 (t.timer1_overflow_count + 1) }

-- `tcnt0` and `tcnt1` are the counter registers. The products are 32-bit.
pub ticks : (tcnt0 : ℕ) → Timers → ℕ
ticks tcnt0 t = u32 (u32 (t.timer0_overflow_count * 256 + tcnt0) * 64)

pub micros : (tcnt1 : ℕ) → Timers → ℕ
micros tcnt1 t = u32 (u32 (tcnt1 + u32 (t.timer1_overflow_count * 2 ^ 16)) * 64) / 16

-- UBRR0H and UBRR0L for a baud rate.
pub baud_registers : ℕ → ℕ × ℕ
baud_registers baud =
    let setting = u16 (sub32 (16_000_000 / 8 / baud) 1 / 2) in (setting / 2 ^ 8, u8 setting)
