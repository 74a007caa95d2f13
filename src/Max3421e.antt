-- ===== src/Max3421e.antt =====
-- The driver of the MAX3421E USB host controller, src/mcu/max3421e/max3421e.c: register access over
-- SPI, chip reset and power-on, the bus probe and the interrupt poll. The busy waits take `fuel`
-- rounds; pin and port numbers are those of the ATmega1280.
pub mod Ending
pub mod Constants
pub mod Access
pub mod Frames
pub mod Laws
pub mod Oscillator
pub mod Probe
use Constants.{
  reg_usbirq, reg_usbctl, reg_cpuctl, reg_pinctl, reg_gpinirq, reg_hirq, reg_hien, reg_mode,
  reg_hctl, reg_hrsl, se0, se1, fs_host, ls_host, bm_oscokirq, bm_chipres, bm_condetirq,
  bm_frameirq, bm_lowspeed, bm_samplebus, bm_jstatus, bm_kstatus, bm_se0, bm_se1, mode_fs_host,
  mode_ls_host,
}
use microbridge.Base.{
  ℕ, zero, suc, ◌+◌, ◌/◌, ◌^◌, Bool, true, false, List, [], ◌∷◌, none, some, ◌==◌, u8, bit_and,
  bit_or, if◌then◌else◌,
}
use microbridge.Base.Run.{Cmd, pure, ◌>>=◌, ◌>>◌, get, modify}
use microbridge.Shield.{
  Shield, Ports, select, release, oscillator_failed, put_wire, exchange, print, delay, spi_begin,
}

-- Register access

unfoldable pub write : (reg value : ℕ) → Cmd Shield (Unit {0})
unfolding put_wire exchange
write reg value = do put_wire select; exchange (bit_or reg 0x02); exchange value; put_wire release

unfoldable pub write_values : List ℕ → Cmd Shield (Unit {0})
unfolding exchange
write_values [] = pure tt
write_values (v ∷ vs) = exchange v >> write_values vs

-- `values` are the `count` bytes at the pointer.
unfoldable pub write_multiple : ℕ → List ℕ → Cmd Shield (Unit {0})
unfolding put_wire exchange write_values
write_multiple reg values = do
  put_wire select
  exchange (bit_or reg 0x02)
  write_values values
  put_wire release

unfoldable pub read : ℕ → Cmd Shield ℕ
unfolding put_wire exchange
read reg = do put_wire select; exchange reg; exchange 0; put_wire release; s ← get; pure s.spdr

unfoldable pub read_values : ℕ → Cmd Shield (List ℕ)
unfolding exchange
read_values zero = pure []
read_values (suc count) = do exchange 0; s ← get; rest ← read_values count; pure (s.spdr ∷ rest)

-- The bytes that are stored at the pointer.
unfoldable pub read_multiple : (reg count : ℕ) → Cmd Shield (List ℕ)
unfolding put_wire exchange read_values
read_multiple reg count = do
  put_wire select
  exchange reg
  values ← read_values count
  put_wire release
  pure values

-- Start-up

-- MAX_INT and MAX_GPX become inputs, !SS and RESET outputs, and RESET is pulled high.
unfoldable pub init_pins : Ports → Ports
unfolding spi_begin
init_pins p =
    let q = spi_begin p in
    record q {
      ddrh = bit_or (bit_and q.ddrh 0x9f) 0x10;
      ddrb = bit_or q.ddrb 0x10;
      porth = bit_or q.porth 0x10;
    }

unfoldable pub init : Cmd Shield (Unit {0})
unfolding init_pins put_wire
init = do put_wire release; modify λ s. record s { ports = init_pins s.ports }

-- `while (!(USBIRQ & OSCOKIRQ)) { tmp++; if (tmp == 0) return false; } return true;`
unfoldable pub wait_oscillator : (fuel tmp : ℕ) → Cmd Shield Bool
wait_oscillator zero tmp = λ _. none
wait_oscillator (suc fuel) tmp =
    let next = u8 (tmp + 1) in
    let again = wait_oscillator fuel next in
    do
      irq ← read reg_usbirq
      if bit_and irq bm_oscokirq == 0 then if next == 0 then pure false else again else pure true

unfoldable pub reset : ℕ → Cmd Shield Bool
unfolding wait_oscillator
reset fuel = do
  write reg_usbctl bm_chipres
  write reg_usbctl 0
  delay fuel 10
  wait_oscillator 256 0

unfoldable pub set_vbus : ℕ → Cmd Shield (Unit {0})
set_vbus v = modify λ s. record s { vbus_state = v }

-- Full speed in mode MODE_FS_HOST, low speed in MODE_LS_HOST.
unfoldable pub start_host : Bool → Cmd Shield (Unit {0})
unfolding set_vbus
start_host full =
    if full
    then write reg_mode mode_fs_host >> set_vbus fs_host
    else write reg_mode mode_ls_host >> set_vbus ls_host

unfoldable pub busprobe : Cmd Shield (Unit {0})
unfolding start_host set_vbus
busprobe = do
  hrsl ← read reg_hrsl
  let sample = bit_and hrsl (bit_or bm_jstatus bm_kstatus)
  if sample == bm_jstatus
      then (do mode ← read reg_mode; start_host (bit_and mode bm_lowspeed == 0))
      else if sample == bm_kstatus
      then (do
        mode ← read reg_mode
        start_host (if bit_and mode bm_lowspeed == 0 then false else true))
      else if sample == bm_se1
      then set_vbus se1
      else if sample == bm_se0
      then set_vbus se0
      else pure tt

unfoldable pub wait_sample : ℕ → Cmd Shield (Unit {0})
wait_sample zero = λ _. none
wait_sample (suc fuel) =
    let again = wait_sample fuel in
    do hctl ← read reg_hctl; if bit_and hctl bm_samplebus == 0 then again else pure tt

unfoldable pub power_on : ℕ → Cmd Shield (Unit {0})
unfolding wait_sample
power_on fuel = do
  write reg_pinctl 0x1a
  stable ← reset fuel
  if stable then pure tt else print oscillator_failed
  write reg_mode 0xd1
  write reg_hien 0x60
  write reg_hctl bm_samplebus
  wait_sample fuel
  busprobe
  write reg_hirq bm_condetirq
  write reg_cpuctl 0x01

-- Polling

unfoldable pub interrupt_handler : Cmd Shield ℕ
interrupt_handler = do
  status ← read reg_hirq
  let frame = if bit_and status bm_frameirq == 0 then 0 else bm_frameirq
  let condet = if bit_and status bm_condetirq == 0 then false else true
  let sendback = if condet then bit_or frame bm_condetirq else frame
  if condet then busprobe else pure tt
  write reg_hirq sendback
  pure sendback

unfoldable pub gpx_interrupt_handler : Cmd Shield ℕ
gpx_interrupt_handler = read reg_gpinirq

-- MAX_INT() and MAX_GPX() read the latch PORTH.
abbrev pub max_int : Shield → ℕ
max_int s = bit_and s.ports.porth 0x40 / 2 ^ 6

abbrev pub max_gpx : Shield → ℕ
max_gpx s = bit_and s.ports.porth 0x20 / 2 ^ 5

unfoldable pub poll : Cmd Shield ℕ
poll = do
  s ← get
  rcode ← if max_int s == 0 then interrupt_handler else pure 0
  t ← get
  if max_gpx t == 0 then (do _ ← gpx_interrupt_handler; pure tt) else pure tt
  pure rcode
