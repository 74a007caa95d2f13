-- ===== src/Usb/Poll.antt =====
-- usb_poll of src/mcu/max3421e/max3421e_usb.c and usb_fireEvent of src/mcu/usb.c. The event handler
-- that usb_setEventHandler stores is a parameter: usb_poll works on the state of that handler.
pub mod Ending
pub mod Keeping
pub mod Returning
pub mod Moves
pub mod States
pub mod Attached
pub mod Progress
pub mod Quiet
pub mod Table
use microbridge.Base.{ℕ, zero, suc, ◌+◌, true, none, some, ◌==◌, if◌then◌else◌, is_zero}
use microbridge.Base.Run.{Cmd, pure, ◌>>=◌, ◌>>◌, get, modify}
use microbridge.Max3421e
use microbridge.Usb.Constants.{
  detached_initialize, detached_wait_for_device, attached_settle, attached_reset_device,
  attached_wait_reset_complete, attached_wait_sof, attached_get_descriptor_size, state_addressing,
  state_running,
}
use microbridge.Usb.Device.{EventType, connect, disconnect, addressing_error, init_end_point}
use microbridge.Usb.Control.{set_address}
use microbridge.Usb.Host.{
  Host, on_shield, set_device, set_task_state, fail_with, init, vbus_changed, settle_step,
  reset_step, wait_reset_step, wait_sof_step, descriptor_size_step,
}

-- The program above the USB layer: the host state in its own state, and its event handler.
pub record Client (S : Type 0) : Type 0 where
  pub host : S → Host
  pub with_host : S → Host → S
  pub handler : ℕ → EventType → Cmd S (Unit {0})

module _ {S : Type 0} (client : Client S) where
  open client use {host, with_host, handler}

  -- A command of the host, on the state of the client.
  unfoldable pub on_host : {A : Type 0} → Cmd Host A → Cmd S A
  on_host m s = elim (m (host s)) [ none ↦ none | some (a, h) ↦ some (a, with_host s h) ]

  -- usb_fireEvent
  unfoldable pub fire_event : ℕ → EventType → Cmd S (Unit {0})
  fire_event i e = handler i e

  -- `for (; i < USB_NUMDEVICES; i++) if (deviceTable[i].active) usb_fireEvent(..)`
  unfoldable pub disconnect_loop : (count i : ℕ) → Cmd S (Unit {0})
  disconnect_loop zero i = pure tt
  disconnect_loop (suc count) i = do
    h ← on_host get
    if (h.table i).active then fire_event i disconnect else pure tt
    disconnect_loop count (i + 1)

  unfoldable pub initialize_step : (fuel : ℕ) → Cmd S (Unit {0})
  unfolding disconnect_loop
  initialize_step fuel = do
    disconnect_loop 1 1
    on_host (init fuel)
    on_host (set_task_state detached_wait_for_device)

  -- The body of the search loop for the free entry i.
  unfoldable pub assign : (fuel i : ℕ) → Cmd S (Unit {0})
  assign fuel i = do
    on_host (
        modify λ h.
          let d = h.table i in
          set_device h i
            (record d { address = i; active = true; control = init_end_point d.control 0 }))
    h ← on_host get
    (rcode, zeroth) ← on_host (on_shield (set_address fuel (h.table 0) i))
    on_host (modify λ h. set_device h 0 zeroth)
    if is_zero rcode
        then fire_event i connect >> on_host (set_task_state state_running)
        else fire_event i addressing_error >> on_host (fail_with state_addressing)

  -- `for (; i < USB_NUMDEVICES; i++) if (!deviceTable[i].active) { ..; break; }`, and the value of i.
  unfoldable pub search_loop : (fuel : ℕ) → (count i : ℕ) → Cmd S ℕ
  search_loop fuel zero i = pure i
  search_loop fuel (suc count) i =
      let next = search_loop fuel count (i + 1) in
      do h ← on_host get; if (h.table i).active then next else (do assign fuel i; pure i)

  unfoldable pub addressing_step : (fuel : ℕ) → Cmd S (Unit {0})
  unfolding search_loop assign
  addressing_step fuel = do
    i ← search_loop fuel 1 1
    h ← on_host get
    if h.task_state == state_addressing
        then fire_event i addressing_error >> on_host (fail_with 0xfe)
        else pure tt

  -- The second switch of usb_poll.
  unfoldable pub task_step : (fuel : ℕ) → Cmd S (Unit {0})
  unfolding initialize_step addressing_step
  task_step fuel = do
    h ← on_host get
    let state = h.task_state
    if state == detached_initialize
        then initialize_step fuel
        else if state == attached_settle
        then on_host settle_step
        else if state == attached_reset_device
        then on_host reset_step
        else if state == attached_wait_reset_complete
        then on_host wait_reset_step
        else if state == attached_wait_sof
        then on_host wait_sof_step
        else if state == attached_get_descriptor_size
        then on_host (descriptor_size_step fuel)
        else if state == state_addressing
        then addressing_step fuel
        else pure tt

  unfoldable pub usb_poll : (fuel : ℕ) → Cmd S (Unit {0})
  usb_poll fuel = do _ ← on_host (on_shield Max3421e.poll); on_host vbus_changed; task_step fuel
