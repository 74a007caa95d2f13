-- ===== src/Usb/Host.antt =====
-- The static state of src/mcu/max3421e/max3421e_usb.c, usb_init, usb_getDevice, the bus changes and
-- the enumeration steps of usb_poll that fire no event.
use microbridge.Base.{
  ℕ, ◌+◌, false, Option, none, some, ◌==◌, ltb, u32, bit_and, bit_or, if◌then◌else◌, ◌||◌, is_zero,
}
use microbridge.Base.Run.{Cmd, pure, ◌>>=◌, ◌>>◌, get, modify}
use microbridge.Shield.{Shield, millis}
use microbridge.Max3421e
use microbridge.Max3421e.{write, read}
use microbridge.Max3421e.Constants.{
  reg_hirq, reg_mode, reg_hctl, se0, se1, fs_host, ls_host, bm_frameirq, bm_sofkaenab, bm_busrst,
}
use microbridge.Usb.Constants.{
  settle_delay, num_devices, state_mask, state_detached, detached_initialize, detached_illegal,
  attached_settle, attached_reset_device, attached_wait_reset_complete, attached_wait_sof,
  attached_get_descriptor_size, state_addressing, state_error,
}
use microbridge.Usb.Device.{Device, init_end_point, Memory}
use microbridge.Usb.Control.{get_device_descriptor}

pub record Host : Type 0 where
  pub shield : Shield
  pub usb_error : ℕ
  pub task_state : ℕ
  -- the static local of usb_poll
  pub settle : ℕ
  -- deviceTable, which has the entries 0 to 2
  pub table : ℕ → Device
  -- what lies in memory where a function has its uninitialised locals
  pub stack : Memory

-- A command of the board, on the state of the host.
abbrev pub on_shield : {A : Type 0} → Cmd Shield A → Cmd Host A
on_shield m h = elim (m h.shield) [ none ↦ none | some (a, s) ↦ some (a, record h { shield = s }) ]

-- deviceTable[i] = d
abbrev pub set_device : Host → ℕ → Device → Host
set_device h i d = record h { table = λ j. if j == i then d else h.table j }

unfoldable pub set_task_state : ℕ → Cmd Host (Unit {0})
set_task_state state = modify λ h. record h { task_state = state }

unfoldable pub fail_with : (error : ℕ) → Cmd Host (Unit {0})
fail_with error = modify λ h. record h { usb_error = error; task_state = state_error }

-- `for (i = 0; i < (USB_NUMDEVICES + 1); i++) deviceTable[i].active = false;`
unfoldable pub deactivate : (ℕ → Device) → ℕ → Device
deactivate table i =
    if ltb i (num_devices + 1) then record (table i) { active = false } else table i

-- usb_init: the controller is started, every entry becomes inactive, and entry 0 gets address 0.
unfoldable pub init : (fuel : ℕ) → Cmd Host (Unit {0})
unfolding deactivate
init fuel = do
  on_shield Max3421e.init
  on_shield (Max3421e.power_on fuel)
  h ← get
  let zeroth = deactivate h.table 0
  modify λ h.
      record (set_device (record h { table = deactivate h.table }) 0
        (record zeroth { address = 0; control = init_end_point zeroth.control 0 })) {
          task_state = detached_initialize;
        }

-- usb_getDevice: the entry, or NULL.
unfoldable pub get_device : (address : ℕ) → Option ℕ
get_device address = if ltb (num_devices + 1) address then none else some address

-- The first switch of usb_poll.
unfoldable pub vbus_changed : Cmd Host (Unit {0})
unfolding set_task_state
vbus_changed = do
  h ← get
  let vbus = h.shield.vbus_state
  let detached = bit_and h.task_state state_mask == state_detached
  if vbus == se1
      then set_task_state detached_illegal
      else if vbus == se0
      then if detached then pure tt else set_task_state detached_initialize
      else if vbus == fs_host || vbus == ls_host
      then if detached
        then (do
          now ← on_shield millis
          modify λ h. record h { settle = u32 (now + settle_delay); task_state = attached_settle })
        else pure tt
      else pure tt

-- The states of an attached device before it has an address.
unfoldable pub settle_step : Cmd Host (Unit {0})
unfolding set_task_state
settle_step = do
  h ← get
  now ← on_shield millis
  if ltb h.settle now then set_task_state attached_reset_device else pure tt

unfoldable pub reset_step : Cmd Host (Unit {0})
unfolding set_task_state
reset_step = do on_shield (write reg_hctl bm_busrst); set_task_state attached_wait_reset_complete

unfoldable pub wait_reset_step : Cmd Host (Unit {0})
wait_reset_step = do
  hctl ← on_shield (read reg_hctl)
  if bit_and hctl bm_busrst == 0
      then (do
        mode ← on_shield (read reg_mode)
        on_shield (write reg_mode (bit_or mode bm_sofkaenab))
        now ← on_shield millis
        modify λ h. record h { settle = u32 (now + 20); task_state = attached_wait_sof })
      else pure tt

unfoldable pub wait_sof_step : Cmd Host (Unit {0})
unfolding set_task_state
wait_sof_step = do
  hirq ← on_shield (read reg_hirq)
  if bit_and hirq bm_frameirq == 0 then pure tt else do
    h ← get
    now ← on_shield millis
    if ltb h.settle now then set_task_state attached_get_descriptor_size else pure tt

-- `deviceTable[i].control.maxPacketSize = size`
unfoldable pub with_packet_size : Device → ℕ → Device
with_packet_size d size =
    let c = d.control in record d { control = record c { max_packet_size = size } }

-- bMaxPacketSize0 is the byte 7 of the descriptor.
unfoldable pub descriptor_size_step : (fuel : ℕ) → Cmd Host (Unit {0})
unfolding fail_with with_packet_size
descriptor_size_step fuel = do
  h ← get
  (rcode, device, descriptor) ←
      on_shield (get_device_descriptor fuel (with_packet_size (h.table 0) 8) h.stack)
  modify λ h. set_device h 0 device
  if is_zero rcode
      then (modify λ h. record (set_device h 0 (with_packet_size device (descriptor 7))) {
        task_state = state_addressing;
      })
      else fail_with attached_get_descriptor_size
