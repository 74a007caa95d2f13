-- ===== src/Shield/Clock.antt =====
-- When avr_delay (src/mcu/avr.c) comes back.
use microbridge.Base.{
  ℕ, zero, suc, ◌+◌, ◌<◌, ◌≡◌, inl, inr, some, arith, leb, u32, sub32, Bool-cases,
}
use microbridge.Shield.{Shield, millis, delay_loop, delay}

delay_loop-ends :
    (i fuel start ms : ℕ) (s : Shield)
    → i < fuel
    → ms < sub32 (u32 (s.clock (s.readings + i))) start
    → (k : ℕ) × (delay_loop fuel start ms s ≡ some (tt, record s { readings = k }))
unfolding delay_loop millis
delay_loop-ends i zero start ms s lt late = absurd (omega arith)
delay_loop-ends zero (suc fuel) start ms s lt late = (s.readings + 1, ground arith)
delay_loop-ends (suc i) (suc fuel) start ms s lt late =
    let e : s.readings + 1 + i ≡ s.readings + suc i = omega arith in
    let rest =
      delay_loop-ends i fuel start ms (record s { readings = s.readings + 1 }) (omega arith)
        (rw e late) in
    elim (Bool-cases (leb (sub32 (u32 (s.clock s.readings)) start) ms)) [
      | inl early ↦ (rest.0, rw early rest.1)
      | inr done ↦ (s.readings + 1, ground arith)
    ]

-- The clock of `s` has moved on by more than `ms` at the reading after `i` others.
abbrev pub Passes : (i ms : ℕ) → Shield → Type 0
Passes i ms s = ms < sub32 (u32 (s.clock (s.readings + 1 + i))) (u32 (s.clock s.readings))

-- A delay ends as soon as a reading is late enough, and changes nothing but the reading count.
pub delay-ends :
    (i fuel ms : ℕ) (s : Shield)
    → i < fuel
    → Passes i ms s
    → (k : ℕ) × (delay fuel ms s ≡ some (tt, record s { readings = k }))
unfolding delay millis
delay-ends i fuel ms s lt late =
    delay_loop-ends i fuel (u32 (s.clock s.readings)) ms (record s { readings = s.readings + 1 }) lt
      late
