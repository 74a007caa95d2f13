-- ===== src/Usb/Poll/Keeping.antt =====
-- Properties that usb_poll of src/mcu/max3421e/max3421e_usb.c keeps over the state of the layer above,
-- if its steps and the event handler keep them.
use microbridge.Base.{ℕ, zero, suc, ◌+◌, ◌==◌, true}
use microbridge.Base.Run.{get, modify}
use microbridge.Base.Keeps.{IsKeeping, pure-IsKeeping, bind-IsKeeping, if_IsKeeping}
use microbridge.Max3421e
use microbridge.Usb.Constants.{
  detached_initialize, attached_settle, attached_reset_device, attached_wait_reset_complete,
  attached_wait_sof, attached_get_descriptor_size, state_addressing,
}
use microbridge.Usb.Device.{
  Device, EventType, connect, disconnect, addressing_error, init_end_point,
}
use microbridge.Usb.Control.{set_address}
use microbridge.Usb.Host.{
  Host, on_shield, init, vbus_changed, set_task_state, fail_with, settle_step, reset_step,
  wait_reset_step, wait_sof_step, descriptor_size_step, set_device,
}
use microbridge.Usb.Poll.{
  Client, usb_poll, task_step, initialize_step, addressing_step, disconnect_loop, search_loop,
  assign, on_host, fire_event,
}

-- Entry i, from the search for a free one on.
abbrev pub occupied : ℕ → Host → Host
occupied i h =
    let d = h.table i in
    set_device h i (record d { address = i; active = true; control = init_end_point d.control 0 })

-- The steps keep the property, and so does the event handler.
pub record Steps {S : Type 0} (client : Client S) (P : S → Type 0) : Type 0 where
  pub read : IsKeeping P (on_host client get)
  pub poll : IsKeeping P (on_host client (on_shield Max3421e.poll))
  pub address :
      (fuel i : ℕ) (d : Device) → IsKeeping P (on_host client (on_shield (set_address fuel d i)))
  pub start : (fuel : ℕ) → IsKeeping P (on_host client (init fuel))
  pub move : (state : ℕ) → IsKeeping P (on_host client (set_task_state state))
  pub fail : (error : ℕ) → IsKeeping P (on_host client (fail_with error))
  pub follow : IsKeeping P (on_host client vbus_changed)
  pub settle : IsKeeping P (on_host client settle_step)
  pub reset : IsKeeping P (on_host client reset_step)
  pub wait_reset : IsKeeping P (on_host client wait_reset_step)
  pub wait_sof : IsKeeping P (on_host client wait_sof_step)
  pub descriptor_size : (fuel : ℕ) → IsKeeping P (on_host client (descriptor_size_step fuel))
  pub occupy : (i : ℕ) → IsKeeping P (on_host client (modify (occupied i)))
  pub put_back : (d : Device) → IsKeeping P (on_host client (modify λ h. set_device h 0 d))
  pub event : (i : ℕ) (e : EventType) → IsKeeping P (client.handler i e)

module _ {S : Type 0} (client : Client S) (P : S → Type 0) (steps : Steps client P) where
  open steps use {
    read, poll, address, start, move, fail, follow, settle, reset, wait_reset, wait_sof,
    descriptor_size, occupy, put_back, event,
  }

  disconnect_loop-IsKeeping : (count i : ℕ) → IsKeeping P (disconnect_loop client count i)
  unfolding disconnect_loop fire_event
  disconnect_loop-IsKeeping zero i = pure-IsKeeping
  disconnect_loop-IsKeeping (suc count) i = bind-IsKeeping read λ h.
      bind-IsKeeping (if_IsKeeping _ (event i disconnect) pure-IsKeeping)
        λ _. disconnect_loop-IsKeeping count (i + 1)

  initialize-IsKeeping : (fuel : ℕ) → IsKeeping P (initialize_step client fuel)
  unfolding initialize_step
  initialize-IsKeeping fuel =
      bind-IsKeeping (disconnect_loop-IsKeeping 1 1) λ _. bind-IsKeeping (start fuel) λ _. move _

  assign-IsKeeping : (fuel i : ℕ) → IsKeeping P (assign client fuel i)
  unfolding assign fire_event
  assign-IsKeeping fuel i = bind-IsKeeping (occupy i) λ _. bind-IsKeeping read λ h.
      bind-IsKeeping (address fuel i (h.table 0)) λ (rcode, zeroth).
        bind-IsKeeping (put_back zeroth) λ _.
          if_IsKeeping _ (bind-IsKeeping (event i connect) λ _. move _)
            (bind-IsKeeping (event i addressing_error) λ _. fail _)

  search-IsKeeping : (fuel count i : ℕ) → IsKeeping P (search_loop client fuel count i)
  unfolding search_loop
  search-IsKeeping fuel zero i = pure-IsKeeping
  search-IsKeeping fuel (suc count) i = bind-IsKeeping read λ h.
      if_IsKeeping _ (search-IsKeeping fuel count (i + 1))
        (bind-IsKeeping (assign-IsKeeping fuel i) λ _. pure-IsKeeping)

  addressing-IsKeeping : (fuel : ℕ) → IsKeeping P (addressing_step client fuel)
  unfolding addressing_step fire_event
  addressing-IsKeeping fuel = bind-IsKeeping (search-IsKeeping fuel 1 1) λ i.
      bind-IsKeeping read
        λ h. if_IsKeeping _ (bind-IsKeeping (event i addressing_error) λ _. fail _) pure-IsKeeping

  task_step-IsKeeping : (fuel : ℕ) → IsKeeping P (task_step client fuel)
  unfolding task_step
  task_step-IsKeeping fuel = bind-IsKeeping read λ h.
      if_IsKeeping (h.task_state == detached_initialize) (initialize-IsKeeping fuel) (
        if_IsKeeping (h.task_state == attached_settle) (settle) (
          if_IsKeeping (h.task_state == attached_reset_device) (reset) (
            if_IsKeeping (h.task_state == attached_wait_reset_complete) (wait_reset) (
              if_IsKeeping (h.task_state == attached_wait_sof) (wait_sof) (
                if_IsKeeping (h.task_state == attached_get_descriptor_size) (descriptor_size fuel) (
                  if_IsKeeping (h.task_state == state_addressing) (addressing-IsKeeping fuel)
                    pure-IsKeeping))))))

  -- A call of usb_poll that returns keeps the property.
  pub usb_poll-IsKeeping : (fuel : ℕ) → IsKeeping P (usb_poll client fuel)
  unfolding usb_poll
  usb_poll-IsKeeping fuel =
      bind-IsKeeping poll λ _. bind-IsKeeping (follow) λ _. task_step-IsKeeping fuel
