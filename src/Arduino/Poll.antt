-- ===== src/Arduino/Poll.antt =====
-- USB::poll and USB::fireEvent of src/arduino/usb.cpp.
pub mod Agreement
use microbridge.Base.{
  ℕ, zero, suc, ◌+◌, ◌-◌, ◌*◌, ◌/◌, ◌^◌, Bool, true, false, not, List, [], ◌∷◌, ◌++◌, Option, none,
  some, ◌==◌, ltb, leb, u8, u16, u32, sub32, bit_and, bit_or, if◌then◌else◌, ◌||◌, ◌&&◌, ℤ, pos,
  negsuc, int16, take, drop, get_or, length, is_neg, is_zero, to_word, equals,
}
use microbridge.Base.Run.{Cmd, pure, ◌>>=◌, ◌>>◌, get, modify}
use microbridge.Arduino.Core.{Core}
use microbridge.Usb.Constants.{
  detached_initialize, detached_wait_for_device, attached_settle, attached_reset_device,
  attached_wait_reset_complete, attached_wait_sof, attached_get_descriptor_size, state_addressing,
  state_running,
}
use microbridge.Usb.Device.{EventType, connect, disconnect, addressing_error, init_end_point}
use microbridge.Usb.Host.{Host, on_shield, set_device, set_task_state, fail_with}
use microbridge.Usb.Poll.{Client, on_host}
use microbridge.Arduino.Max3421e
use microbridge.Arduino.Control.{set_address}
use microbridge.Arduino.Host.{
  init, vbus_changed, settle_step, reset_step, wait_reset_step, wait_sof_step, descriptor_size_step,
}

module _ (core : Core) {S : Type 0} (client : Client S) where
  open client use {handler}

  -- USB::fireEvent
  unfoldable pub fire_event : ℕ → EventType → Cmd S (Unit {0})
  fire_event i e = handler i e

  -- `for (; i < USB_NUMDEVICES; i++) if (deviceTable[i].active) usb_fireEvent(..)`
  disconnect_loop : (count i : ℕ) → Cmd S (Unit {0})
  disconnect_loop zero i = pure tt
  disconnect_loop (suc count) i = do
    h ← on_host client get
    if (h.table i).active then fire_event i disconnect else pure tt
    disconnect_loop count (i + 1)

  initialize_step : (fuel : ℕ) → Cmd S (Unit {0})
  unfolding disconnect_loop
  initialize_step fuel = do
    disconnect_loop 1 1
    on_host client (init core fuel)
    on_host client (set_task_state detached_wait_for_device)

  -- The body of the search loop for the free entry i.
  assign : (fuel i : ℕ) → Cmd S (Unit {0})
  assign fuel i = do
    on_host client (
        modify λ h.
          let d = h.table i in
          set_device h i
            (record d { address = i; active = true; control = init_end_point d.control 0 }))
    h ← on_host client get
    (rcode, zeroth) ← on_host client (on_shield (set_address core fuel (h.table 0) i))
    on_host client (modify λ h. set_device h 0 zeroth)
    if is_zero rcode
        then fire_event i connect >> on_host client (set_task_state state_running)
        else fire_event i addressing_error >> on_host client (fail_with state_addressing)

  -- `for (; i < USB_NUMDEVICES; i++) if (!deviceTable[i].active) { ..; break; }`, and the value of i.
  search_loop : (fuel : ℕ) → (count i : ℕ) → Cmd S ℕ
  search_loop fuel zero i = pure i
  search_loop fuel (suc count) i =
      let next = search_loop fuel count (i + 1) in
      do h ← on_host client get; if (h.table i).active then next else (do assign fuel i; pure i)

  addressing_step : (fuel : ℕ) → Cmd S (Unit {0})
  unfolding search_loop assign
  addressing_step fuel = do
    i ← search_loop fuel 1 1
    h ← on_host client get
    if h.task_state == state_addressing
        then fire_event i addressing_error >> on_host client (fail_with 0xfe)
        else pure tt

  -- The second switch of usb_poll.
  unfoldable pub task_step : (fuel : ℕ) → Cmd S (Unit {0})
  unfolding initialize_step addressing_step
  task_step fuel = do
    h ← on_host client get
    let state = h.task_state
    if state == detached_initialize
        then initialize_step fuel
        else if state == attached_settle
        then on_host client (settle_step core)
        else if state == attached_reset_device
        then on_host client (reset_step core)
        else if state == attached_wait_reset_complete
        then on_host client (wait_reset_step core)
        else if state == attached_wait_sof
        then on_host client (wait_sof_step core)
        else if state == attached_get_descriptor_size
        then on_host client (descriptor_size_step core fuel)
        else if state == state_addressing
        then addressing_step fuel
        else pure tt

  unfoldable pub usb_poll : (fuel : ℕ) → Cmd S (Unit {0})
  usb_poll fuel = do
    _ ← on_host client (on_shield (Max3421e.poll core))
    on_host client (vbus_changed core)
    task_step fuel
