-- ===== src/Max3421e/Ending.antt =====
-- The driver max3421e.c on a board that does not stall: every wait of it ends.
pub mod Startup
use microbridge.Base.{
  ℕ, zero, suc, ◌+◌, ◌*◌, ◌≤◌, ◌<◌, ◌≡◌, refl, inl, inr, Bool, true, false, List, [], ◌∷◌, some,
  arith, ◌==◌, u8, u32, sub32, bit_and, bit_or, if◌then◌else◌, Bool-cases,
}
use microbridge.Base.Run.{Cmd, pure}
use microbridge.Base.Ends.{
  IsEnding, pure-IsEnding, get-IsEnding, modify-IsEnding, bind-IsEnding, if_IsEnding,
}
use microbridge.Shield.{
  Shield, oscillator_failed, Wire, select, release, Notice, put_wire, exchange, print, millis,
  delay,
}
use microbridge.Shield.Clock.{delay-ends}
use microbridge.Max3421e.{
  write, write_values, write_multiple, read, read_values, read_multiple, init, reset,
  wait_oscillator, set_vbus, start_host, busprobe, wait_sample, power_on, interrupt_handler,
  gpx_interrupt_handler, poll, max_int, max_gpx, init_pins,
}
use microbridge.Max3421e.Constants.{
  bm_hxfrdnirq, bm_samplebus, hr_busy, reg_usbirq, bm_oscokirq, reg_hctl, reg_usbctl, bm_chipres,
  reg_mode, mode_fs_host, mode_ls_host, fs_host, ls_host, reg_hrsl, bm_jstatus, bm_kstatus,
  bm_lowspeed, bm_se1, bm_se0, se1, se0, reg_pinctl, reg_hien, reg_hirq, bm_condetirq, reg_cpuctl,
  bm_frameirq, reg_gpinirq,
}
use microbridge.Max3421e.Laws.{reply, after_read}

-- Within so many reads of one register, whichever it is, the chip shows that a transfer is done, a
-- result that is not BUSY, and that the bus has been sampled; within so many readings the clock moves
-- on by more than 500 ms.
pub record Lively (rounds : ℕ) (replies clock : ℕ → ℕ) : Type 0 where
  pub done :
      (n : ℕ)
      → (k : ℕ) × (k < rounds) × ((bit_and (u8 (replies (n + 2 * k))) bm_hxfrdnirq == 0) ≡ false)
  pub idle :
      (n : ℕ)
      → (k : ℕ) × (k < rounds) × ((bit_and (u8 (replies (n + 2 * k))) 0x0f == hr_busy) ≡ false)
  pub sampled :
      (n : ℕ)
      → (k : ℕ) × (k < rounds) × ((bit_and (u8 (replies (n + 2 * k))) bm_samplebus == 0) ≡ false)
  pub passes :
      (n : ℕ) → (k : ℕ) × (k < rounds) × (500 < sub32 (u32 (clock (n + 1 + k))) (u32 (clock n)))

-- The streams of a board.
abbrev pub IsLively : ℕ → Shield → Type 0
IsLively rounds s = Lively rounds s.replies s.clock

module _ (rounds : ℕ) where
  abbrev pub Ending : {A : Type 0} → Cmd Shield A → Type 0
  Ending m = IsEnding (IsLively rounds) m

  pub put_wire-Ending : (w : Wire) → Ending (put_wire w)
  unfolding put_wire
  put_wire-Ending w = modify-IsEnding λ s p. p

  exchange-Ending : (v : ℕ) → Ending (exchange v)
  unfolding exchange
  exchange-Ending v = modify-IsEnding λ s p. p

  pub print-Ending : (n : Notice) → Ending (print n)
  unfolding print
  print-Ending n = modify-IsEnding λ s p. p

  pub millis-Ending : Ending millis
  unfolding millis
  millis-Ending = record { ends = λ s p. (_, _, refl, p) }

  pub write-Ending : (reg value : ℕ) → Ending (write reg value)
  unfolding write
  write-Ending reg value = record { ends = λ s p. (_, _, refl, p) }

  pub read-Ending : (reg : ℕ) → Ending (read reg)
  unfolding read
  read-Ending reg = record { ends = λ s p. (_, _, refl, p) }

  write_values-Ending : (vs : List ℕ) → Ending (write_values vs)
  unfolding write_values
  write_values-Ending [] = pure-IsEnding
  write_values-Ending (v ∷ vs) = bind-IsEnding (exchange-Ending v) λ _. write_values-Ending vs

  pub write_multiple-Ending : (reg : ℕ) (vs : List ℕ) → Ending (write_multiple reg vs)
  unfolding write_multiple
  write_multiple-Ending reg vs = bind-IsEnding (put_wire-Ending select) λ _.
      bind-IsEnding (exchange-Ending (bit_or reg 0x02))
        λ _. bind-IsEnding (write_values-Ending vs) λ _. put_wire-Ending release

  read_values-Ending : (count : ℕ) → Ending (read_values count)
  unfolding read_values
  read_values-Ending zero = pure-IsEnding
  read_values-Ending (suc count) = bind-IsEnding (exchange-Ending 0) λ _.
      bind-IsEnding get-IsEnding
        λ s. bind-IsEnding (read_values-Ending count) λ rest. pure-IsEnding {a = s.spdr ∷ rest}

  pub read_multiple-Ending : (reg count : ℕ) → Ending (read_multiple reg count)
  unfolding read_multiple
  read_multiple-Ending reg count = bind-IsEnding (put_wire-Ending select) λ _.
      bind-IsEnding (exchange-Ending reg) λ _.
        bind-IsEnding (read_values-Ending count)
          λ vs. bind-IsEnding (put_wire-Ending release) λ _. pure-IsEnding {a = vs}

  pub delay-Ending : (fuel ms : ℕ) → rounds ≤ fuel → ms ≤ 500 → Ending (delay fuel ms)
  delay-Ending fuel ms enough short = record {
    ends = λ s p.
        let (i, lt, late) = p.passes s.readings in
        let (k, e) = delay-ends i fuel ms s (omega arith) (omega arith) in
        (tt, record s { readings = k }, e, p);
  }
