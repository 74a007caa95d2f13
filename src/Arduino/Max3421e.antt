-- ===== src/Arduino/Max3421e.antt =====
-- The driver of the MAX3421E, src/arduino/max3421e.cpp, without ADK_REF_BOARD.
pub mod Agreement
pub mod Lines
use microbridge.Base.{
  ℕ, zero, suc, ◌+◌, ◌-◌, ◌*◌, ◌/◌, ◌^◌, Bool, true, false, not, List, [], ◌∷◌, ◌++◌, Option, none,
  some, ◌==◌, ltb, leb, u8, u16, u32, sub32, bit_and, bit_or, if◌then◌else◌, ◌||◌, ◌&&◌, ℤ, pos,
  negsuc, int16, take, drop, get_or, length, is_neg, is_zero, to_word, equals,
}
use microbridge.Base.Run.{Cmd, pure, ◌>>=◌, ◌>>◌, get, modify}
use microbridge.Arduino.Core.{Core}
use microbridge.Max3421e.Constants.{
  reg_usbirq, reg_usbctl, reg_cpuctl, reg_pinctl, reg_gpinirq, reg_hirq, reg_hien, reg_mode,
  reg_hctl, reg_hrsl, se0, se1, fs_host, ls_host, bm_oscokirq, bm_chipres, bm_condetirq,
  bm_frameirq, bm_lowspeed, bm_samplebus, bm_jstatus, bm_kstatus, bm_se0, bm_se1, mode_fs_host,
  mode_ls_host,
}
use microbridge.Shield.{Shield, oscillator_failed, exchange}
use microbridge.Arduino.Core.{pin_max_ss, pin_max_int, pin_max_gpx, pin_max_reset}

module _ (core : Core) where
  unfoldable pub write : (reg value : ℕ) → Cmd Shield (Unit {0})
  unfolding exchange
  write reg value = do
    core.digital_write core.ss 0
    exchange (bit_or reg 0x02)
    exchange value
    core.digital_write core.ss 1

  write_values : List ℕ → Cmd Shield (Unit {0})
  unfolding exchange
  write_values [] = pure tt
  write_values (v ∷ vs) = exchange v >> write_values vs

  -- `values` are the `count` bytes at the pointer.
  unfoldable pub write_multiple : ℕ → List ℕ → Cmd Shield (Unit {0})
  unfolding exchange write_values
  write_multiple reg values = do
    core.digital_write core.ss 0
    exchange (bit_or reg 0x02)
    write_values values
    core.digital_write core.ss 1

  unfoldable pub read : ℕ → Cmd Shield ℕ
  unfolding exchange
  read reg = do
    core.digital_write core.ss 0
    exchange reg
    exchange 0
    core.digital_write core.ss 1
    s ← get
    pure s.spdr

  read_values : ℕ → Cmd Shield (List ℕ)
  unfolding exchange
  read_values zero = pure []
  read_values (suc count) = do exchange 0; s ← get; rest ← read_values count; pure (s.spdr ∷ rest)

  -- The bytes that are stored at the pointer.
  unfoldable pub read_multiple : (reg count : ℕ) → Cmd Shield (List ℕ)
  unfolding exchange read_values
  read_multiple reg count = do
    core.digital_write core.ss 0
    exchange reg
    values ← read_values count
    core.digital_write core.ss 1
    pure values

  -- `while (!(USBIRQ & OSCOKIRQ)) { tmp++; if (tmp == 0) return false; } return true;`
  wait_oscillator : (fuel tmp : ℕ) → Cmd Shield Bool
  wait_oscillator zero tmp = λ _. none
  wait_oscillator (suc fuel) tmp =
      let next = u8 (tmp + 1) in
      let again = wait_oscillator fuel next in
      do
        irq ← read reg_usbirq
        if bit_and irq bm_oscokirq == 0 then if next == 0 then pure false else again else pure true

  unfoldable pub reset : ℕ → Cmd Shield Bool
  unfolding wait_oscillator
  reset fuel = do
    write reg_usbctl bm_chipres
    write reg_usbctl 0
    core.delay fuel 10
    wait_oscillator 256 0

  set_vbus : ℕ → Cmd Shield (Unit {0})
  set_vbus v = modify λ s. record s { vbus_state = v }

  -- Full speed in mode MODE_FS_HOST, low speed in MODE_LS_HOST.
  start_host : Bool → Cmd Shield (Unit {0})
  unfolding set_vbus
  start_host full =
      if full
      then write reg_mode mode_fs_host >> set_vbus fs_host
      else write reg_mode mode_ls_host >> set_vbus ls_host

  unfoldable pub busprobe : Cmd Shield (Unit {0})
  unfolding start_host set_vbus
  busprobe = do
    hrsl ← read reg_hrsl
    let sample = bit_and hrsl (bit_or bm_jstatus bm_kstatus)
    if sample == bm_jstatus
        then (do mode ← read reg_mode; start_host (bit_and mode bm_lowspeed == 0))
        else if sample == bm_kstatus
        then (do
          mode ← read reg_mode
          start_host (if bit_and mode bm_lowspeed == 0 then false else true))
        else if sample == bm_se1
        then set_vbus se1
        else if sample == bm_se0
        then set_vbus se0
        else pure tt

  wait_sample : ℕ → Cmd Shield (Unit {0})
  wait_sample zero = λ _. none
  wait_sample (suc fuel) =
      let again = wait_sample fuel in
      do hctl ← read reg_hctl; if bit_and hctl bm_samplebus == 0 then again else pure tt

  unfoldable pub power_on : ℕ → Cmd Shield (Unit {0})
  unfolding wait_sample
  power_on fuel = do
    write reg_pinctl 0x1a
    stable ← reset fuel
    if stable then pure tt else core.print oscillator_failed
    write reg_mode 0xd1
    write reg_hien 0x60
    write reg_hctl bm_samplebus
    wait_sample fuel
    busprobe
    write reg_hirq bm_condetirq
    write reg_cpuctl 0x01

  unfoldable pub interrupt_handler : Cmd Shield ℕ
  interrupt_handler = do
    status ← read reg_hirq
    let frame = if bit_and status bm_frameirq == 0 then 0 else bm_frameirq
    let condet = if bit_and status bm_condetirq == 0 then false else true
    let sendback = if condet then bit_or frame bm_condetirq else frame
    if condet then busprobe else pure tt
    write reg_hirq sendback
    pure sendback

  unfoldable pub gpx_interrupt_handler : Cmd Shield ℕ
  gpx_interrupt_handler = read reg_gpinirq

  -- The pins become inputs and outputs, and !SS and RESET are pulled high.
  unfoldable pub init : Cmd Shield (Unit {0})
  init = do
    core.spi_begin
    core.pin_mode pin_max_int core.input
    core.pin_mode pin_max_gpx core.input
    core.pin_mode pin_max_ss core.output
    core.pin_mode pin_max_reset core.output
    core.digital_write core.ss 1
    core.digital_write pin_max_reset 1

  -- MAX_GPX() reads the pin of MAX_INT().
  unfoldable pub poll : Cmd Shield ℕ
  poll = do
    interrupt ← core.digital_read pin_max_int
    rcode ← if interrupt == 0 then interrupt_handler else pure 0
    gpx ← core.digital_read pin_max_int
    if gpx == 0 then (do _ ← gpx_interrupt_handler; pure tt) else pure tt
    pure rcode
