-- ===== src/Usb/Poll/Attached.antt =====
-- The polls of an attached device in usb_poll of src/mcu/max3421e/max3421e_usb.c, before it has an
-- address: each is the step of its task state.
use microbridge.Base.{
  ℕ, ◌+◌, ◌≡◌, refl, ap, none, ◌∙◌, true, false, bit_and, bit_or, some, ◌==◌, u32, ltb,
}
use microbridge.Base.Run.{Cmd, bind-at}
use microbridge.Shield.{Shield, millis}
use microbridge.Max3421e
use microbridge.Max3421e.{max_int, max_gpx, interrupt_handler, gpx_interrupt_handler}
use microbridge.Max3421e.Constants.{
  reg_hctl, reg_hirq, reg_mode, bm_busrst, bm_frameirq, bm_sofkaenab,
}
use microbridge.Max3421e.Laws.{reply, after_read, after_write}
use microbridge.Usb.Constants.{
  attached_settle, attached_reset_device, attached_wait_reset_complete, attached_wait_sof,
  attached_get_descriptor_size, state_mask, state_detached,
}
use microbridge.Usb.Host.{
  Host, on_shield, vbus_changed, set_task_state, settle_step, reset_step, wait_reset_step,
  wait_sof_step,
}
use microbridge.Usb.Poll.{Client, usb_poll, task_step, on_host}
use microbridge.Usb.Poll.States.{IsCalm}
use microbridge.Usb.Poll.Quiet.{Ready, Ready-Onward, Quiet, poll-Quiet, vbus-stays, on_shield-at}

-- The steps of the enumeration, on the host.
pub settle-stays :
    (h : Host)
    → ltb h.settle (u32 (h.shield.clock h.shield.readings)) ≡ false
    → settle_step h
      ≡ some (tt, record h { shield = record (h.shield) { readings = h.shield.readings + 1 } })
unfolding settle_step set_task_state millis
settle-stays h e = rw e

pub settle-passes :
    (h : Host)
    → ltb h.settle (u32 (h.shield.clock h.shield.readings)) ≡ true
    → settle_step h
      ≡ some (
        tt,
        record h {
          shield = record (h.shield) { readings = h.shield.readings + 1 };
          task_state = attached_reset_device;
        },
      )
unfolding settle_step set_task_state millis
settle-passes h e = rw e

pub reset-passes :
    (h : Host)
    → reset_step h
      ≡ some (
        tt,
        record h {
          shield = after_write reg_hctl bm_busrst h.shield;
          task_state = attached_wait_reset_complete;
        },
      )
unfolding reset_step set_task_state Max3421e.write
reset-passes h = refl

-- The board after HCTL and MODE have been read, MODE written and the clock read.
abbrev pub restarted : Shield → Shield
restarted s =
    let t = after_read reg_mode (after_read reg_hctl s) in
    let u = after_write reg_mode (bit_or (reply (after_read reg_hctl s)) bm_sofkaenab) t in
    record u { readings = u.readings + 1 }

pub wait_reset-passes :
    (h : Host)
    → (bit_and (reply h.shield) bm_busrst == 0) ≡ true
    → wait_reset_step h
      ≡ some (
        tt,
        record h {
          shield = restarted h.shield;
          settle = u32 (u32 (h.shield.clock h.shield.readings) + 20);
          task_state = attached_wait_sof;
        },
      )
unfolding wait_reset_step Max3421e.read Max3421e.write millis
wait_reset-passes h e = rw e

abbrev pub framed_at : Shield → Shield
framed_at s = let t = after_read reg_hirq s in record t { readings = t.readings + 1 }

pub wait_sof-stays :
    (h : Host)
    → (bit_and (reply h.shield) bm_frameirq == 0) ≡ false
    → ltb h.settle (u32 (h.shield.clock h.shield.readings)) ≡ false
    → wait_sof_step h ≡ some (tt, record h { shield = framed_at h.shield })
unfolding wait_sof_step set_task_state Max3421e.read millis
wait_sof-stays h f e = rw (f, e)

pub wait_sof-passes :
    (h : Host)
    → (bit_and (reply h.shield) bm_frameirq == 0) ≡ false
    → ltb h.settle (u32 (h.shield.clock h.shield.readings)) ≡ true
    → wait_sof_step h
      ≡ some
          (tt, record h { shield = framed_at h.shield; task_state = attached_get_descriptor_size })
unfolding wait_sof_step set_task_state Max3421e.read millis
wait_sof-passes h f e = rw (f, e)

module _ {S : Type 0} (client : Client S) (calm : IsCalm client) (fuel : ℕ) where
  open client use {host, with_host}
  open calm use {host-with_host}

  on_host-at :
      {A : Type 0} (m : Cmd Host A) (s : S) (h k : Host) (a : A)
      → host s ≡ h
      → m h ≡ some (a, k)
      → on_host client m s ≡ some (a, with_host s k)
  unfolding on_host
  on_host-at m s h k a e p =
      ap (λ o. elim o [ none ↦ none | some (x, l) ↦ some (x, with_host s l) ]) (ap m e ∙ p)

  -- A step is the one of a state.
  pub IsStepOf : Cmd Host (Unit {0}) → (state : ℕ) → Type 0
  IsStepOf step state =
      (s : S)
      → (host s).task_state ≡ state
      → task_step client fuel s ≡ on_host client step (with_host s (host s))

  pub settle-IsStepOf : IsStepOf settle_step attached_settle
  unfolding IsStepOf task_step on_host
  settle-IsStepOf s e = rw e

  pub reset-IsStepOf : IsStepOf reset_step attached_reset_device
  unfolding IsStepOf task_step on_host
  reset-IsStepOf s e = rw e

  pub wait_reset-IsStepOf : IsStepOf wait_reset_step attached_wait_reset_complete
  unfolding IsStepOf task_step on_host
  wait_reset-IsStepOf s e = rw e

  pub wait_sof-IsStepOf : IsStepOf wait_sof_step attached_wait_sof
  unfolding IsStepOf task_step on_host
  wait_sof-IsStepOf s e = rw e

  -- In the states of an attached device a poll is the step of its state, once the interrupt has been
  -- serviced.
  pub usb_poll-step :
      (step : Cmd Host (Unit {0})) (state : ℕ)
      → IsStepOf step state
      → (bit_and state state_mask == state_detached) ≡ false
      → (s : S) (h : Host) (after : Shield → Host) → host s ≡ h
      → Ready h.shield
      → h.task_state ≡ state
      → ((b : Shield)
          → Quiet h.shield b
          → Ready b
          → step (record h { shield = b }) ≡ some (tt, after b))
      → (b : Shield) × Quiet h.shield b
        × Ready b
        × ((t : S) × (usb_poll client fuel s ≡ some (tt, t)) × (host t ≡ after b))
  unfolding usb_poll IsStepOf
  usb_poll-step step state steps attached s h after e ready at p =
      let (r, b, serviced, quiet) = poll-Quiet h.shield ready in
      let ready_b = Ready-Onward h.shield b (quiet.replies, quiet.vbus_state) ready in
      let g = record h { shield = b } in
      let k = after b in
      let u1 = with_host s g in
      let u = with_host u1 g in
      let same = host-with_host u1 g in
      let v = with_host u (host u) in
      let idle = on_shield-at Max3421e.poll h b r serviced in
      let polled = on_host-at (on_shield Max3421e.poll) s h g r e idle in
      let stays = vbus-stays g ready_b (rw at attached) in
      let followed = on_host-at vbus_changed u1 g g tt (host-with_host s g) stays in
      let stepped =
        on_host-at step v g k tt (host-with_host u (host u) ∙ same) (p b quiet ready_b) in
      (
        b,
        quiet,
        ready_b,
        (
          with_host v k,
          bind-at (on_host client (on_shield Max3421e.poll)) _ s polled
              ∙ bind-at (on_host client vbus_changed) _ u1 followed
              ∙ steps u (ap (λ (h : Host). h.task_state) same ∙ at)
              ∙ stepped,
          host-with_host v k,
        ),
      )
