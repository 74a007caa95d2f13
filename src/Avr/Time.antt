-- ===== src/Avr/Time.antt =====
-- What the clocks of src/mcu/avr.c show.
use microbridge.Base.{ℕ, zero, suc, ◌+◌, ◌*◌, ◌/◌, ◌%◌, ◌^◌, ◌<◌, ◌≡◌, refl, arith, u32}
use microbridge.Avr.{Timers, reset, timer0_overflow, ticks, micros}

-- `n` overflows of timer 0 after reset.
unfoldable pub overflows : ℕ → Timers
overflows zero = reset
overflows (suc n) = timer0_overflow (overflows n)

-- The millisecond count never drifts: after n overflows of 1024 microseconds it is the whole number of
-- milliseconds passed, and timer0_fract the rest in units of 8 microseconds; both up to the
-- wrap of the 32-bit count.
pub overflows-millis :
    (n : ℕ)
    → ((overflows n).timer0_millis ≡ u32 (n * 1024 / 1000))
      × ((overflows n).timer0_fract * 8 ≡ n * 1024 % 1000)
      × ((overflows n).timer0_overflow_count ≡ u32 n)
unfolding overflows timer0_overflow
overflows-millis zero = (refl, refl, refl)
overflows-millis (suc n) = let ih = overflows-millis n in ground arith

-- Of the time passed, avr_ticks shows the low 32 bits of the clock cycles, and avr_micros the
-- microseconds up to a wrap at 2 ^ 28.
pub counters_wrap :
    (tcnt0 tcnt1 : ℕ) (t : Timers)
    → tcnt0 < 256
    → tcnt1 < 2 ^ 16
    → t.timer0_overflow_count < 2 ^ 32
    → t.timer1_overflow_count < 2 ^ 16
    → (ticks tcnt0 t ≡ (t.timer0_overflow_count * 256 + tcnt0) * 64 % 2 ^ 32)
      × (micros tcnt1 t ≡ (t.timer1_overflow_count * 2 ^ 16 + tcnt1) * 64 / 16 % 2 ^ 28)
unfolding ticks micros
counters_wrap tcnt0 tcnt1 t h0 h1 k0 k1 = (omega arith, omega arith)
