-- ===== src/Max3421e/Ending/Startup.antt =====
-- Reset, power-on, the bus probe and the poll of max3421e.c on a board that does not stall.
use microbridge.Base.{
  ℕ, zero, suc, ◌+◌, ◌*◌, ◌≤◌, ◌<◌, ◌≡◌, inl, inr, Bool, true, false, some, arith, ◌==◌, u8,
  bit_and, bit_or, if◌then◌else◌, Bool-cases,
}
use microbridge.Base.Run.{pure}
use microbridge.Base.Ends.{pure-IsEnding, get-IsEnding, modify-IsEnding, bind-IsEnding, if_IsEnding}
use microbridge.Shield.{Shield, oscillator_failed, release}
use microbridge.Max3421e.{
  read, init, reset, wait_oscillator, set_vbus, start_host, busprobe, wait_sample, power_on,
  interrupt_handler, gpx_interrupt_handler, poll, max_int, max_gpx, init_pins,
}
use microbridge.Max3421e.Constants.{
  bm_samplebus, reg_usbirq, bm_oscokirq, reg_hctl, reg_usbctl, bm_chipres, reg_mode, mode_fs_host,
  mode_ls_host, fs_host, ls_host, reg_hrsl, bm_jstatus, bm_kstatus, bm_lowspeed, bm_se1, bm_se0,
  se1, se0, reg_pinctl, reg_hien, reg_hirq, bm_condetirq, reg_cpuctl, bm_frameirq, reg_gpinirq,
}
use microbridge.Max3421e.Laws.{reply, after_read}
use microbridge.Max3421e.Ending.{
  IsLively, Ending, put_wire-Ending, print-Ending, write-Ending, read-Ending, delay-Ending,
}

module _ (rounds : ℕ) where
  -- The rounds that are left cover the rest of the count to 256.
  wait_oscillator-Ending :
      (fuel tmp : ℕ) → tmp < 256 → 256 ≤ fuel + tmp → Ending rounds (wait_oscillator fuel tmp)
  unfolding wait_oscillator
  wait_oscillator-Ending zero tmp lt enough = absurd (omega arith)
  wait_oscillator-Ending (suc fuel) tmp lt enough =
      let next = u8 (tmp + 1) in
      let again : Ending rounds (if next == 0 then pure false else wait_oscillator fuel next) =
        elim (Bool-cases (next == 0)) [
          | inl last ↦ rw last pure-IsEnding
          | inr more ↦ rw more (wait_oscillator-Ending fuel next (ground arith) (ground arith))
        ] in
      bind-IsEnding (read-Ending rounds reg_usbirq)
        λ irq. if_IsEnding (bit_and irq bm_oscokirq == 0) again (pure-IsEnding {a = true})

  reset-Ending : (fuel : ℕ) → rounds ≤ fuel → Ending rounds (reset fuel)
  unfolding reset
  reset-Ending fuel enough = bind-IsEnding (write-Ending rounds reg_usbctl bm_chipres) λ _.
      bind-IsEnding (write-Ending rounds reg_usbctl 0) λ _.
        bind-IsEnding (delay-Ending rounds fuel 10 enough (omega arith))
          λ _. wait_oscillator-Ending 256 0 (omega arith) (omega arith)

  set_vbus-Ending : (v : ℕ) → Ending rounds (set_vbus v)
  unfolding set_vbus
  set_vbus-Ending v = modify-IsEnding λ s p. p

  start_host-Ending : (full : Bool) → Ending rounds (start_host full)
  unfolding start_host
  start_host-Ending full =
      if_IsEnding full
        (bind-IsEnding (write-Ending rounds reg_mode mode_fs_host) λ _. set_vbus-Ending fs_host)
        (bind-IsEnding (write-Ending rounds reg_mode mode_ls_host) λ _. set_vbus-Ending ls_host)

  busprobe-Ending : Ending rounds busprobe
  unfolding busprobe
  busprobe-Ending = bind-IsEnding (read-Ending rounds reg_hrsl) λ hrsl.
      let sample = bit_and hrsl (bit_or bm_jstatus bm_kstatus) in
      if_IsEnding (sample == bm_jstatus)
        (bind-IsEnding (read-Ending rounds reg_mode)
          λ mode. start_host-Ending (bit_and mode bm_lowspeed == 0))
        (if_IsEnding (sample == bm_kstatus)
          (bind-IsEnding (read-Ending rounds reg_mode)
            λ mode. start_host-Ending (if bit_and mode bm_lowspeed == 0 then false else true))
          (if_IsEnding (sample == bm_se1) (set_vbus-Ending se1)
            (if_IsEnding (sample == bm_se0) (set_vbus-Ending se0) pure-IsEnding)))

  -- The wait ends with the read after `k` others.
  wait_sample_at :
      (k fuel : ℕ) (s : Shield)
      → k < fuel
      → (bit_and (u8 (s.replies (s.exchanges + 1 + 2 * k))) bm_samplebus == 0) ≡ false
      → IsLively rounds s
      → (t : Shield) × (wait_sample fuel s ≡ some (tt, t)) × IsLively rounds t
  unfolding wait_sample read
  wait_sample_at k zero s lt set p = absurd (omega arith)
  wait_sample_at zero (suc fuel) s lt set p = (after_read reg_hctl s, ground arith, p)
  wait_sample_at (suc k) (suc fuel) s lt set p =
      let e : s.exchanges + 1 + 1 + 1 + 2 * k ≡ s.exchanges + 1 + 2 * suc k = omega arith in
      let rest = wait_sample_at k fuel (after_read reg_hctl s) (omega arith) (rw e set) p in
      elim (Bool-cases (bit_and (reply s) bm_samplebus == 0)) [
        | inl clear ↦ (rest.0, rw clear rest.1, rest.2)
        | inr now ↦ (after_read reg_hctl s, ground arith, p)
      ]

  wait_sample-Ending : (fuel : ℕ) → rounds ≤ fuel → Ending rounds (wait_sample fuel)
  wait_sample-Ending fuel enough = record {
    ends = λ s p.
        let (k, lt, set) = p.sampled (s.exchanges + 1) in
        let (t, e, q) = wait_sample_at k fuel s (omega arith) set p in (tt, t, e, q);
  }

  pub power_on-Ending : (fuel : ℕ) → rounds ≤ fuel → Ending rounds (power_on fuel)
  unfolding power_on
  power_on-Ending fuel enough = bind-IsEnding (write-Ending rounds reg_pinctl 0x1a) λ _.
      bind-IsEnding (reset-Ending fuel enough) λ stable.
        bind-IsEnding (if_IsEnding stable pure-IsEnding (print-Ending rounds oscillator_failed))
          λ _. bind-IsEnding (write-Ending rounds reg_mode 0xd1) λ _.
            bind-IsEnding (write-Ending rounds reg_hien 0x60) λ _.
              bind-IsEnding (write-Ending rounds reg_hctl bm_samplebus) λ _.
                bind-IsEnding (wait_sample-Ending fuel enough) λ _.
                  bind-IsEnding busprobe-Ending λ _.
                    bind-IsEnding (write-Ending rounds reg_hirq bm_condetirq)
                      λ _. write-Ending rounds reg_cpuctl 0x01

  pub init-Ending : Ending rounds init
  unfolding init
  init-Ending =
      bind-IsEnding (put_wire-Ending rounds release)
        λ _. modify-IsEnding {f = λ s. record s { ports = init_pins s.ports }} λ s p. p

  interrupt_handler-Ending : Ending rounds interrupt_handler
  unfolding interrupt_handler
  interrupt_handler-Ending = bind-IsEnding (read-Ending rounds reg_hirq) λ status.
      let frame = if bit_and status bm_frameirq == 0 then 0 else bm_frameirq in
      let condet = if bit_and status bm_condetirq == 0 then false else true in
      let sendback = if condet then bit_or frame bm_condetirq else frame in
      bind-IsEnding (if_IsEnding condet busprobe-Ending pure-IsEnding)
        λ _. bind-IsEnding (write-Ending rounds reg_hirq sendback) λ _. pure-IsEnding {a = sendback}

  pub poll-Ending : Ending rounds poll
  unfolding poll gpx_interrupt_handler
  poll-Ending = bind-IsEnding get-IsEnding λ s.
      bind-IsEnding (if_IsEnding (max_int s == 0) interrupt_handler-Ending (pure-IsEnding {a = 0}))
        λ rcode. bind-IsEnding get-IsEnding λ t.
          bind-IsEnding
            (if_IsEnding (max_gpx t == 0)
              (bind-IsEnding (read-Ending rounds reg_gpinirq) λ _. pure-IsEnding {a = tt})
              (pure-IsEnding {a = tt}))
            λ _. pure-IsEnding {a = rcode}
