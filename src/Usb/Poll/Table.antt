-- ===== src/Usb/Poll/Table.antt =====
-- deviceTable of src/mcu/max3421e/max3421e_usb.c, over the steps of usb_poll that fire no event.
pub mod Polling
use microbridge.Base.{
  ltb, ◌∙◌, ℕ, zero, suc, ◌+◌, ◌≡◌, refl, true, false, ◌==◌, some, arith, subst, sym, Option-cases,
  inl, inr,
}
use microbridge.Base.Run.{Cmd, get}
use microbridge.Base.Keeps.{
  IsKeeping, pure-IsKeeping, modify-IsKeeping, bind-IsKeeping, if_IsKeeping,
}
use microbridge.Max3421e
use microbridge.Shield.{Shield}
use microbridge.Usb.Constants.{
  num_devices, detached_initialize, attached_settle, attached_reset_device,
  attached_wait_reset_complete, attached_wait_sof, attached_get_descriptor_size, state_addressing,
}
use microbridge.Usb.Device.{Device, EventType, connect, disconnect, addressing_error}
use microbridge.Usb.Host.{
  Host, on_shield, init, vbus_changed, set_task_state, fail_with, settle_step, reset_step,
  wait_reset_step, wait_sof_step, descriptor_size_step, set_device, deactivate,
}
use microbridge.Usb.Poll.{
  Client, usb_poll, task_step, initialize_step, addressing_step, disconnect_loop, search_loop,
  assign, on_host, fire_event,
}

-- Every active entry of the table, which has the entries 0 to 2, but entry 0 holds its index as its
-- address.
unfoldable pub IsAddressed : (ℕ → Device) → Type 0
IsAddressed table =
    (i : ℕ)
    → (i == 0) ≡ false
    → ltb i (num_devices + 1) ≡ true
    → (table i).active ≡ true
    → (table i).address ≡ i

abbrev pub Addressed : Host → Type 0
Addressed h = IsAddressed h.table

pub entry-IsAddressed :
    (h : Host) (i : ℕ) (d : Device)
    → (d.active ≡ true → d.address ≡ i)
    → Addressed h
    → Addressed (set_device h i d)
unfolding IsAddressed
entry-IsAddressed h i d q p j e l = ground (arith, q, p j e l)

-- A command that leaves the table alone.
pub table-IsKeeping :
    {A : Type 0} {m : Cmd Host A}
    → ((h k : Host) (a : A) → m h ≡ some (a, k) → k.table ≡ h.table)
    → IsKeeping Addressed m
table-IsKeeping same = record { after = λ h k a e p. subst IsAddressed (sym (same h k a e)) p }

-- A command that activates no entry from 1 on, and leaves the addresses alone there.
pub entries-IsKeeping :
    {A : Type 0} {m : Cmd Host A}
    → ((h k : Host) (a : A)
        → m h ≡ some (a, k)
        → (j : ℕ) → (j == 0) ≡ false
        → (k.table j).active ≡ true
        → ((h.table j).active ≡ true) × ((k.table j).address ≡ (h.table j).address))
    → IsKeeping Addressed m
unfolding IsAddressed
entries-IsKeeping same = record {
  after = λ h k a e p j n l t. let (u, q) = same h k a e j n t in q ∙ p j n l u;
}

pub on_shield-IsKeeping : {A : Type 0} (m : Cmd Shield A) → IsKeeping Addressed (on_shield m)
on_shield-IsKeeping m = table-IsKeeping λ h k a e. ground arith

pub state-IsKeeping : (n : ℕ) → IsKeeping Addressed (set_task_state n)
unfolding set_task_state
state-IsKeeping n = modify-IsKeeping λ h p. p

pub fail-IsKeeping : (n : ℕ) → IsKeeping Addressed (fail_with n)
unfolding fail_with
fail-IsKeeping n = modify-IsKeeping λ h p. p

pub vbus-IsKeeping : IsKeeping Addressed vbus_changed
unfolding vbus_changed set_task_state
vbus-IsKeeping = table-IsKeeping λ h k a e. ground arith

pub settle-IsKeeping : IsKeeping Addressed settle_step
unfolding settle_step set_task_state
settle-IsKeeping = table-IsKeeping λ h k a e. ground arith

pub reset-IsKeeping : IsKeeping Addressed reset_step
unfolding reset_step set_task_state
reset-IsKeeping = table-IsKeeping λ h k a e. ground arith

pub wait_reset-IsKeeping : IsKeeping Addressed wait_reset_step
unfolding wait_reset_step
wait_reset-IsKeeping = table-IsKeeping λ h k a e. ground arith

pub wait_sof-IsKeeping : IsKeeping Addressed wait_sof_step
unfolding wait_sof_step set_task_state
wait_sof-IsKeeping = table-IsKeeping λ h k a e. ground arith

pub descriptor_size-IsKeeping : (fuel : ℕ) → IsKeeping Addressed (descriptor_size_step fuel)
unfolding descriptor_size_step fail_with
descriptor_size-IsKeeping fuel = entries-IsKeeping λ h k a e j n t. ground arith

-- usb_init empties the table.
pub init-IsAddressed : (fuel : ℕ) (h k : Host) → init fuel h ≡ some (tt, k) → Addressed k
unfolding init deactivate IsAddressed
init-IsAddressed fuel h k e i n l t = ground arith

pub init-IsKeeping : (fuel : ℕ) → IsKeeping Addressed (init fuel)
unfolding init deactivate
init-IsKeeping fuel = bind-IsKeeping (on_shield-IsKeeping Max3421e.init) λ _.
    bind-IsKeeping (on_shield-IsKeeping (Max3421e.power_on fuel))
      λ _. entries-IsKeeping λ h k a e j n t. ground arith
