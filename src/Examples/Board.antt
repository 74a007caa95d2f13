-- ===== src/Examples/Board.antt =====
-- The clock, the register functions and the chip of src/mcu/avr.c and src/mcu/max3421e/max3421e.c.
use microbridge.Base.{
  ◌+◌, ◌*◌, ◌/◌, ◌%◌, ◌^◌, ◌≤◌, ◌≡◌, refl, ◌++◌, [], ◌∷◌, some, arith, u32, ◌==◌, if◌then◌else◌,
}
use microbridge.Shield.{Shield}
use microbridge.Avr.{Timers, ticks, micros}
use microbridge.Avr.Time.{overflows, overflows-millis, counters_wrap}
use microbridge.Max3421e.{write, write_multiple, read, read_multiple, reset, busprobe}
use microbridge.Max3421e.Access.{wrote, fetched, accesses}
use microbridge.Max3421e.Laws.{reply}
use microbridge.Max3421e.Laws.Multiple.{received}
use microbridge.Max3421e.Frames.{Performs, register_access}
use microbridge.Max3421e.Oscillator.{ready_within, reset-ready}
use microbridge.Max3421e.Probe.{probe_line, probe_accesses, busprobe_line}
use microbridge.Examples.{board, at_wrap}

-- After 1000 overflows 1024 ms have passed.
overflows-millis_example :
    ((overflows 1000).timer0_millis ≡ u32 (1000 * 1024 / 1000))
    × ((overflows 1000).timer0_fract * 8 ≡ 1000 * 1024 % 1000)
    × ((overflows 1000).timer0_overflow_count ≡ u32 1000)
overflows-millis_example = overflows-millis 1000

abbrev long_run : Timers
long_run = record {
  timer0_overflow_count = 0xffff_ffff;
  timer0_millis = 0;
  timer0_fract = 0;
  timer1_overflow_count = 0xffff;
}

counters_wrap_example :
    (ticks 255 long_run ≡ (0xffff_ffff * 256 + 255) * 64 % 2 ^ 32)
    × (micros 9 long_run ≡ (0xffff * 2 ^ 16 + 9) * 64 / 16 % 2 ^ 28)
counters_wrap_example =
    counters_wrap 255 9 long_run (omega arith) (omega arith) (omega arith) (omega arith)

-- A clock that moves 4 ms a reading.
abbrev steady : Shield
steady = board (λ i. if i == 9 then 1 else 0) (λ n. n * 4)

register_access_example :
    Performs (write 8 5) tt (wrote 8 (5 ∷ [])) steady
    × Performs (write_multiple 8 (1 ∷ 2 ∷ [])) tt (wrote 8 (1 ∷ 2 ∷ [])) steady
    × Performs (read 8) (reply steady) (fetched 8 1) steady
    × Performs (read_multiple 8 2) (received steady.replies 2 1) (fetched 8 2) steady
register_access_example = register_access 8 5 2 (1 ∷ 2 ∷ []) steady (omega arith, refl)

reset-ready_example :
    (t : Shield) × (reset 4 steady ≡ some (ready_within 256 steady.replies 4, t))
    × (t.exchanges ≤ 4 + 2 * 256)
reset-ready_example = reset-ready 2 4 steady (omega arith) (omega arith)

busprobe_line_example :
    (t : Shield) × (busprobe steady ≡ some (tt, t))
    × (t.vbus_state ≡ probe_line steady)
    × (accesses t ≡ probe_accesses (probe_line steady) ++ accesses steady)
busprobe_line_example = busprobe_line steady

abbrev changed : Shield
changed = board (λ _. 0x20) at_wrap
