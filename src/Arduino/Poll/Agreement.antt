-- ===== src/Arduino/Poll/Agreement.antt =====
-- USB::poll of src/arduino/usb.cpp, beside usb_poll of src/mcu/max3421e/max3421e_usb.c.
use microbridge.Base.{==-false, ℕ, zero, suc, ◌+◌, ◌≡◌, ◌≢◌, refl, if◌then◌else◌}
use mathlib.Core.Path.{fun_ext}
use microbridge.Base.Run.{pure, get, ◌>>=◌, ◌>>◌}
use microbridge.Usb.Constants.{detached_initialize}
use microbridge.Usb.Host
use microbridge.Usb.Poll
use microbridge.Usb.Poll.{Client, on_host}
use microbridge.Arduino.Core.{Core, Agrees}
use microbridge.Arduino.Control.Agreement.{set_address-agrees}
use microbridge.Arduino.Host.Agreement.{
  vbus_changed-agrees, settle_step-agrees, reset_step-agrees, wait_reset_step-agrees,
  wait_sof_step-agrees, descriptor_size_step-agrees,
}
use microbridge.Arduino.Host.{vbus_changed}
use microbridge.Arduino.Poll.{fire_event, assign, search_loop, addressing_step, task_step}

module _ {core : Core} (agrees : Agrees core) {S : Type 0} (client : Client S) (fuel : ℕ) where
  open client use {host}

  assign-agrees : assign core client fuel ≡ Poll.assign client fuel
  unfolding assign Poll.assign fire_event Poll.fire_event
  assign-agrees = fun_ext λ i. rw (set_address-agrees agrees fuel)

  search_loop-agrees :
      (count i : ℕ) → search_loop core client fuel count i ≡ Poll.search_loop client fuel count i
  unfolding search_loop Poll.search_loop
  search_loop-agrees zero i = refl
  search_loop-agrees (suc count) i = λ j. do
    h ← on_host client get
    if (h.table i).active
        then search_loop-agrees count (i + 1) j
        else (do assign-agrees j i; pure i)

  addressing_step-agrees : addressing_step core client fuel ≡ Poll.addressing_step client fuel
  unfolding addressing_step Poll.addressing_step fire_event Poll.fire_event
  addressing_step-agrees = rw (search_loop-agrees 1 1)

  -- USB::poll follows the bus as usb_poll does, and in every task state but the one that starts the
  -- controller its step is the step of usb_poll, under any event handler, where the Arduino core
  -- agrees with avr.
  pub task_step-agrees :
      (s : S)
      → (host s).task_state ≢ detached_initialize
      → (vbus_changed core ≡ Host.vbus_changed)
        × (task_step core client fuel s ≡ Poll.task_step client fuel s)
  unfolding task_step Poll.task_step on_host
  task_step-agrees s other = (
    vbus_changed-agrees agrees,
    rw (
      ==-false (host s).task_state detached_initialize other,
      settle_step-agrees agrees,
      reset_step-agrees agrees,
      wait_reset_step-agrees agrees,
      wait_sof_step-agrees agrees,
      descriptor_size_step-agrees agrees fuel,
      addressing_step-agrees,
    ),
  )
