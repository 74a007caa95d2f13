-- ===== src/Arduino/Host.antt =====
-- USB::init and the steps of USB::poll (src/arduino/usb.cpp) that fire no event.
pub mod Agreement
use microbridge.Base.{
  ℕ, zero, suc, ◌+◌, ◌-◌, ◌*◌, ◌/◌, ◌^◌, Bool, true, false, not, List, [], ◌∷◌, ◌++◌, Option, none,
  some, ◌==◌, ltb, leb, u8, u16, u32, sub32, bit_and, bit_or, if◌then◌else◌, ◌||◌, ◌&&◌, ℤ, pos,
  negsuc, int16, take, drop, get_or, length, is_neg, is_zero, to_word, equals,
}
use microbridge.Base.Run.{Cmd, pure, ◌>>=◌, ◌>>◌, get, modify}
use microbridge.Arduino.Core.{Core}
use microbridge.Max3421e.Constants.{
  reg_hirq, reg_mode, reg_hctl, se0, se1, fs_host, ls_host, bm_frameirq, bm_sofkaenab, bm_busrst,
}
use microbridge.Usb.Constants.{
  settle_delay, num_devices, state_mask, state_detached, detached_initialize, detached_illegal,
  attached_settle, attached_reset_device, attached_wait_reset_complete, attached_wait_sof,
  attached_get_descriptor_size, state_addressing, state_error,
}
use microbridge.Usb.Device.{Device, Memory, init_end_point}
use microbridge.Usb.Host.{
  Host, on_shield, set_device, set_task_state, fail_with, deactivate, with_packet_size,
}
use microbridge.Arduino.Max3421e
use microbridge.Arduino.Max3421e.{write, read}
use microbridge.Arduino.Control.{get_device_descriptor}

module _ (core : Core) where
  -- usb_init: the controller is started, every entry becomes inactive, and entry 0 gets address 0.
  unfoldable pub init : (fuel : ℕ) → Cmd Host (Unit {0})
  unfolding deactivate
  init fuel = do
    on_shield (Max3421e.init core)
    on_shield (Max3421e.power_on core fuel)
    h ← get
    let zeroth = deactivate h.table 0
    modify λ h.
        record (set_device (record h { table = deactivate h.table }) 0
          (record zeroth { address = 0; control = init_end_point zeroth.control 0 })) {
            task_state = detached_initialize;
          }

  -- The first switch of usb_poll.
  unfoldable pub vbus_changed : Cmd Host (Unit {0})
  unfolding set_task_state
  vbus_changed = do
    h ← get
    let vbus = h.shield.vbus_state
    let detached = bit_and h.task_state state_mask == state_detached
    if vbus == se1
        then set_task_state detached_illegal
        else if vbus == se0
        then if detached then pure tt else set_task_state detached_initialize
        else if vbus == fs_host || vbus == ls_host
        then if detached
          then (do
            now ← on_shield core.millis
            modify
                λ h. record h { settle = u32 (now + settle_delay); task_state = attached_settle })
          else pure tt
        else pure tt

  -- The states of an attached device before it has an address.
  unfoldable pub settle_step : Cmd Host (Unit {0})
  unfolding set_task_state
  settle_step = do
    h ← get
    now ← on_shield core.millis
    if ltb h.settle now then set_task_state attached_reset_device else pure tt

  unfoldable pub reset_step : Cmd Host (Unit {0})
  unfolding set_task_state
  reset_step = do
    on_shield (write core reg_hctl bm_busrst)
    set_task_state attached_wait_reset_complete

  unfoldable pub wait_reset_step : Cmd Host (Unit {0})
  wait_reset_step = do
    hctl ← on_shield (read core reg_hctl)
    if bit_and hctl bm_busrst == 0
        then (do
          mode ← on_shield (read core reg_mode)
          on_shield (write core reg_mode (bit_or mode bm_sofkaenab))
          now ← on_shield core.millis
          modify λ h. record h { settle = u32 (now + 20); task_state = attached_wait_sof })
        else pure tt

  unfoldable pub wait_sof_step : Cmd Host (Unit {0})
  unfolding set_task_state
  wait_sof_step = do
    hirq ← on_shield (read core reg_hirq)
    if bit_and hirq bm_frameirq == 0 then pure tt else do
      h ← get
      now ← on_shield core.millis
      if ltb h.settle now then set_task_state attached_get_descriptor_size else pure tt

  -- bMaxPacketSize0 is the byte 7 of the descriptor.
  unfoldable pub descriptor_size_step : (fuel : ℕ) → Cmd Host (Unit {0})
  unfolding fail_with with_packet_size
  descriptor_size_step fuel = do
    h ← get
    (rcode, device, descriptor) ←
        on_shield (get_device_descriptor core fuel (with_packet_size (h.table 0) 8) h.stack)
    modify λ h. set_device h 0 device
    if is_zero rcode
        then (modify λ h. record (set_device h 0 (with_packet_size device (descriptor 7))) {
          task_state = state_addressing;
        })
        else fail_with attached_get_descriptor_size
