-- ===== src/Usb/Poll/Moves.antt =====
-- The moves of usb_task_state in src/mcu/max3421e/max3421e_usb.c, and the steps of usb_poll that fire no
-- event.
use microbridge.Base.{
  ℕ, ◌≡◌, Bool, true, ◌||◌, ◌&&◌, not, bit_and, some, arith, ◌==◌, if◌then◌else◌,
}
use microbridge.Base.Run.{Cmd}
use microbridge.Shield.{Shield}
use microbridge.Max3421e.Constants.{se0, se1, fs_host, ls_host}
use microbridge.Usb.Constants.{
  state_mask, state_detached, detached_illegal, detached_initialize, detached_wait_for_device,
  attached_settle, attached_reset_device, attached_wait_reset_complete, attached_wait_sof,
  attached_get_descriptor_size, state_addressing, state_running, state_error,
}
use microbridge.Usb.Host.{
  Host, on_shield, set_task_state, fail_with, settle_step, reset_step, wait_reset_step,
  wait_sof_step, descriptor_size_step,
}

-- The moves of the enumeration.
unfoldable pub may_step : (from to : ℕ) → Bool
may_step a b =
    a == b
    || (a == detached_initialize && b == detached_wait_for_device)
    || (a == attached_settle && b == attached_reset_device)
    || (a == attached_reset_device && b == attached_wait_reset_complete)
    || (a == attached_wait_reset_complete && b == attached_wait_sof)
    || (a == attached_wait_sof && b == attached_get_descriptor_size)
    || (a == attached_get_descriptor_size && (b == state_addressing || b == state_error))
    || (a == state_addressing && (b == state_running || b == state_error))

-- The state that follows the bus: both lines high is illegal, both low is no device, and one high is a
-- device of full or of low speed.
unfoldable pub followed : (vbus from : ℕ) → ℕ
followed vbus a =
    let detached = bit_and a state_mask == state_detached in
    if vbus == se1
    then detached_illegal
    else if vbus == se0 && not detached
    then detached_initialize
    else if (vbus == fs_host || vbus == ls_host) && detached
    then attached_settle
    else a

-- The state after the second switch, when the first left `a`.
abbrev pub Moves : (h k : Host) → Type 0
Moves h k = may_step h.task_state k.task_state ≡ true

pub on_shield-same :
    {A : Type 0} (m : Cmd Shield A) (h k : Host) (a : A)
    → on_shield m h ≡ some (a, k)
    → k.task_state ≡ h.task_state
on_shield-same m h k a p = ground arith

pub on_shield-shield :
    {A : Type 0} (m : Cmd Shield A) (h k : Host) (a : A)
    → on_shield m h ≡ some (a, k)
    → m h.shield ≡ some (a, k.shield)
on_shield-shield m h k a p = ground arith

pub settle-Moves :
    (h k : Host) → h.task_state ≡ attached_settle → settle_step h ≡ some (tt, k) → Moves h k
unfolding settle_step set_task_state may_step
settle-Moves h k e p = ground arith

pub wait_reset-Moves :
    (h k : Host)
    → h.task_state ≡ attached_wait_reset_complete
    → wait_reset_step h ≡ some (tt, k)
    → Moves h k
unfolding wait_reset_step may_step
wait_reset-Moves h k e p = ground arith

pub wait_sof-Moves :
    (h k : Host) → h.task_state ≡ attached_wait_sof → wait_sof_step h ≡ some (tt, k) → Moves h k
unfolding wait_sof_step set_task_state may_step
wait_sof-Moves h k e p = ground arith

pub reset-Moves :
    (h k : Host) → h.task_state ≡ attached_reset_device → reset_step h ≡ some (tt, k) → Moves h k
unfolding reset_step set_task_state may_step
reset-Moves h k e p = ground arith

pub descriptor_size-Moves :
    (fuel : ℕ) (h k : Host)
    → h.task_state ≡ attached_get_descriptor_size
    → descriptor_size_step fuel h ≡ some (tt, k)
    → Moves h k
unfolding descriptor_size_step fail_with may_step
descriptor_size-Moves fuel h k e p = ground arith
