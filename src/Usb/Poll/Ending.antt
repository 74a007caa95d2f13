-- ===== src/Usb/Poll/Ending.antt =====
-- usb_poll of src/mcu/max3421e/max3421e_usb.c on a board that does not stall: every call returns.
use microbridge.Base.{
  ℕ, ◌+◌, ◌≤◌, ◌≡◌, refl, false, ap, Option, none, some, arith, ◌==◌, ◌||◌, ltb, u32, bit_and,
  bit_or, is_zero,
}
use microbridge.Base.Run.{Cmd}
use microbridge.Base.Ends.{
  IsEnding, pure-IsEnding, get-IsEnding, modify-IsEnding, bind-IsEnding, if_IsEnding,
}
use microbridge.Shield.{Shield}
use microbridge.Max3421e.Constants.{
  reg_hctl, reg_mode, reg_hirq, bm_busrst, bm_sofkaenab, bm_frameirq, se0, se1, fs_host, ls_host,
}
use microbridge.Max3421e.Ending.{IsLively, Ending, millis-Ending, write-Ending, read-Ending}
use microbridge.Max3421e.Ending.Startup.{init-Ending, power_on-Ending}
use microbridge.Usb.Constants.{
  nak_limit, retry_limit, settle_delay, state_mask, state_detached, detached_initialize,
  detached_illegal, attached_settle, attached_reset_device, attached_wait_reset_complete,
  attached_wait_sof, attached_get_descriptor_size, state_addressing,
}
use microbridge.Usb.Device.{init_end_point}
use microbridge.Usb.Control.Ending.{get_device_descriptor-Ending}
use microbridge.Usb.Host.{
  Host, on_shield, init, vbus_changed, set_task_state, fail_with, settle_step, reset_step,
  wait_reset_step, wait_sof_step, descriptor_size_step, set_device, with_packet_size, deactivate,
}

module _ (rounds : ℕ) where
  abbrev pub HostLively : Host → Type 0
  HostLively h = IsLively rounds h.shield

  pub shield-IsEnding :
      {A : Type 0} {m : Cmd Shield A} → Ending rounds m → IsEnding HostLively (on_shield m)
  shield-IsEnding {A} {m} ending = record {
    ends = λ h p.
        let (a, s, e, q) = ending.ends h.shield p in
        (a, record h { shield = s }, ap (lifted h) e, q);
  }
    where
      lifted : Host → Option (A × Shield) → Option (A × Host)
      lifted h o = elim o [ none ↦ none | some (a, s) ↦ some (a, record h { shield = s }) ]

  pub set_task_state-IsEnding : (state : ℕ) → IsEnding HostLively (set_task_state state)
  unfolding set_task_state
  set_task_state-IsEnding state = modify-IsEnding λ h p. p

  pub fail_with-IsEnding : (error : ℕ) → IsEnding HostLively (fail_with error)
  unfolding fail_with
  fail_with-IsEnding error = modify-IsEnding λ h p. p

  -- The board does not stall, and no device waits for its address.
  abbrev pub HostAway : Host → Type 0
  HostAway h = IsLively rounds h.shield × ((h.task_state == state_addressing) ≡ false)

  pub shield-Away :
      {A : Type 0} {m : Cmd Shield A} → Ending rounds m → IsEnding HostAway (on_shield m)
  shield-Away {A} {m} ending = record {
    ends = λ h (p, other).
        let (a, s, e, q) = ending.ends h.shield p in
        (a, record h { shield = s }, ap (lifted h) e, (q, other));
  }
    where
      lifted : Host → Option (A × Shield) → Option (A × Host)
      lifted h o = elim o [ none ↦ none | some (a, s) ↦ some (a, record h { shield = s }) ]

  set_task_state-Away :
      (state : ℕ) → (state == state_addressing) ≡ false → IsEnding HostAway (set_task_state state)
  unfolding set_task_state
  set_task_state-Away state other = modify-IsEnding λ h p. (p.0, other)

  pub vbus_changed-Away : IsEnding HostAway vbus_changed
  unfolding vbus_changed
  vbus_changed-Away = bind-IsEnding get-IsEnding λ h.
      let vbus = h.shield.vbus_state in
      let detached = bit_and h.task_state state_mask == state_detached in
      if_IsEnding (vbus == se1) (set_task_state-Away detached_illegal refl) (
        if_IsEnding (vbus == se0)
          (if_IsEnding detached (pure-IsEnding {a = tt})
            (set_task_state-Away detached_initialize refl))
          (if_IsEnding (vbus == fs_host || vbus == ls_host)
            (if_IsEnding detached
              (bind-IsEnding (shield-Away (millis-Ending rounds)) λ now.
                modify-IsEnding
                  {f = λ h. record h {
                    settle = u32 (now + settle_delay);
                    task_state = attached_settle;
                  }}
                  λ h p. (p.0, refl))
              (pure-IsEnding {a = tt}))
            (pure-IsEnding {a = tt})))

  pub settle_step-IsEnding : IsEnding HostLively settle_step
  unfolding settle_step
  settle_step-IsEnding = bind-IsEnding get-IsEnding λ h.
      bind-IsEnding (shield-IsEnding (millis-Ending rounds)) λ now.
        if_IsEnding (ltb h.settle now) (set_task_state-IsEnding attached_reset_device)
          (pure-IsEnding {a = tt})

  pub reset_step-IsEnding : IsEnding HostLively reset_step
  unfolding reset_step
  reset_step-IsEnding =
      bind-IsEnding (shield-IsEnding (write-Ending rounds reg_hctl bm_busrst))
        λ _. set_task_state-IsEnding attached_wait_reset_complete

  pub wait_reset_step-IsEnding : IsEnding HostLively wait_reset_step
  unfolding wait_reset_step
  wait_reset_step-IsEnding = bind-IsEnding (shield-IsEnding (read-Ending rounds reg_hctl)) λ hctl.
      if_IsEnding (bit_and hctl bm_busrst == 0)
        (bind-IsEnding (shield-IsEnding (read-Ending rounds reg_mode)) λ mode.
          bind-IsEnding (shield-IsEnding (write-Ending rounds reg_mode (bit_or mode bm_sofkaenab)))
            λ _. bind-IsEnding (shield-IsEnding (millis-Ending rounds)) λ now.
              modify-IsEnding
                {f = λ h. record h { settle = u32 (now + 20); task_state = attached_wait_sof }}
                λ h p. p)
        (pure-IsEnding {a = tt})

  pub wait_sof_step-IsEnding : IsEnding HostLively wait_sof_step
  unfolding wait_sof_step
  wait_sof_step-IsEnding = bind-IsEnding (shield-IsEnding (read-Ending rounds reg_hirq)) λ hirq.
      if_IsEnding (bit_and hirq bm_frameirq == 0) (pure-IsEnding {a = tt}) (
        bind-IsEnding get-IsEnding λ h.
          bind-IsEnding (shield-IsEnding (millis-Ending rounds)) λ now.
            if_IsEnding (ltb h.settle now) (set_task_state-IsEnding attached_get_descriptor_size)
              (pure-IsEnding {a = tt}))

  -- The rounds given are enough for the waits, and for every NAK and timeout that is let pass.
  module _ (fuel : ℕ) (enough : rounds ≤ fuel) (tries : nak_limit + retry_limit ≤ fuel) where
    pub init-IsEnding : IsEnding HostLively (init fuel)
    unfolding init
    init-IsEnding = bind-IsEnding (shield-IsEnding (init-Ending rounds)) λ _.
        bind-IsEnding (shield-IsEnding (power_on-Ending rounds fuel enough)) λ _.
          bind-IsEnding get-IsEnding λ h.
            let zeroth = deactivate h.table 0 in
            modify-IsEnding
              {f = λ h.
                record (set_device (record h { table = deactivate h.table }) 0
                  (record zeroth { address = 0; control = init_end_point zeroth.control 0 })) {
                    task_state = detached_initialize;
                  }}
              λ h p. p

    pub descriptor_size_step-IsEnding : IsEnding HostLively (descriptor_size_step fuel)
    unfolding descriptor_size_step with_packet_size
    descriptor_size_step-IsEnding = bind-IsEnding get-IsEnding λ h.
        bind-IsEnding
          (shield-IsEnding (
            get_device_descriptor-Ending rounds fuel enough tries (with_packet_size (h.table 0) 8)
              h.stack (omega arith, omega arith, omega arith)))
          λ (rcode, device, descriptor).
            bind-IsEnding (modify-IsEnding {f = λ h. set_device h 0 device} λ h p. p) λ _.
              if_IsEnding (is_zero rcode)
                (modify-IsEnding
                  {f = λ h. record (set_device h 0 (with_packet_size device (descriptor 7))) {
                    task_state = state_addressing;
                  }}
                  λ h p. p)
                (fail_with-IsEnding attached_get_descriptor_size)
