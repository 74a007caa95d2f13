-- ===== src/Usb/Poll/Returning.antt =====
-- usb_poll of src/mcu/max3421e/max3421e_usb.c on a board that does not stall: every call returns that does
-- not give a device its address, if the event handler returns when a device has gone.
use microbridge.Base.{
  ℕ, zero, suc, ◌+◌, ◌≤◌, ◌≡◌, ap, sym, subst, false, if◌then◌else◌, Option, none, some, ◌==◌,
}
use microbridge.Base.Run.{Cmd, get, pure}
use microbridge.Base.Ends.{
  IsEnding, pure-IsEnding, get-IsEnding, bind-IsEnding, if_IsEnding, IsReaching, bind-IsReaching,
}
use microbridge.Max3421e.Ending.{IsLively}
use microbridge.Max3421e.Ending.Startup.{poll-Ending}
use microbridge.Usb.Constants.{
  nak_limit, retry_limit, detached_initialize, detached_wait_for_device, attached_settle,
  attached_reset_device, attached_wait_reset_complete, attached_wait_sof,
  attached_get_descriptor_size, state_addressing,
}
use microbridge.Usb.Device.{disconnect}
use microbridge.Usb.Host.{Host}
use microbridge.Usb.Poll.{
  Client, usb_poll, task_step, initialize_step, addressing_step, disconnect_loop, on_host,
  fire_event,
}
use microbridge.Usb.Poll.Ending.{
  HostLively, set_task_state-IsEnding, HostAway, shield-Away, vbus_changed-Away,
  settle_step-IsEnding, reset_step-IsEnding, wait_reset_step-IsEnding, wait_sof_step-IsEnding,
  init-IsEnding, descriptor_size_step-IsEnding,
}

module _ {S : Type 0} (client : Client S) (rounds : ℕ) where
  open client use {host, with_host, handler}

  -- The board below does not stall.
  abbrev pub Running : S → Type 0
  Running s = IsLively rounds (host s).shield

  -- The layer above: its host is the one that was put there, and its event handler returns when it is told
  -- that a device has gone.
  pub record IsResponsive : Type 0 where
    pub host-with_host : (s : S) (h : Host) → host (with_host s h) ≡ h
    pub returns : (i : ℕ) → IsEnding Running (handler i disconnect)

module _ {S : Type 0} (client : Client S) (rounds fuel : ℕ)
    (responsive : IsResponsive client rounds) (enough : rounds ≤ fuel)
    (tries : nak_limit + retry_limit ≤ fuel) where
  open client use {host, with_host, handler}
  open responsive use {host-with_host, returns}

  abbrev Returning : {A : Type 0} → Cmd S A → Type 0
  Returning m = IsEnding (Running client rounds) m

  lift :
      {A : Type 0} {m : Cmd Host A} → IsEnding (HostLively rounds) m → Returning (on_host client m)
  unfolding on_host
  lift {A} {m} ending = record {
    ends = λ s p.
        let (a, h, e, q) = ending.ends (host s) p in
        (a, with_host s h, ap (lifted s) e, subst (HostLively rounds) (sym (host-with_host s h)) q);
  }
    where
      lifted : S → Option (A × Host) → Option (A × S)
      lifted s o = elim o [ none ↦ none | some (a, h) ↦ some (a, with_host s h) ]

  read-Returning : Returning (on_host client get)
  read-Returning = lift get-IsEnding

  disconnect_loop-Returning : (count i : ℕ) → Returning (disconnect_loop client count i)
  unfolding disconnect_loop fire_event
  disconnect_loop-Returning zero i = pure-IsEnding
  disconnect_loop-Returning (suc count) i = bind-IsEnding read-Returning λ h.
      bind-IsEnding (if_IsEnding (h.table i).active (returns i) (pure-IsEnding {a = tt}))
        λ _. disconnect_loop-Returning count (i + 1)

  initialize_step-Returning : Returning (initialize_step client fuel)
  unfolding initialize_step
  initialize_step-Returning = bind-IsEnding (disconnect_loop-Returning 1 1) λ _.
      bind-IsEnding (lift (init-IsEnding rounds fuel enough tries))
        λ _. lift (set_task_state-IsEnding rounds detached_wait_for_device)

  -- The board does not stall, and the next step of the enumeration does not give an address.
  abbrev pub Away : S → Type 0
  Away s = HostAway rounds (host s)

  away :
      {A : Type 0} {m : Cmd Host A}
      → IsEnding (HostAway rounds) m
      → IsEnding Away (on_host client m)
  unfolding on_host
  away {A} {m} ending = record {
    ends = λ s p.
        let (a, h, e, q) = ending.ends (host s) p in
        (a, with_host s h, ap (lifted s) e, subst (HostAway rounds) (sym (host-with_host s h)) q);
  }
    where
      lifted : S → Option (A × Host) → Option (A × S)
      lifted s o = elim o [ none ↦ none | some (a, h) ↦ some (a, with_host s h) ]

  task_step-Returns :
      (s : S)
      → Away s
      → (t : S) × (task_step client fuel s ≡ some (tt, t)) × Running client rounds t
  unfolding task_step on_host
  task_step-Returns s (p, other) =
      let state = (host s).task_state in
      let next = with_host s (host s) in
      let kept = subst (HostLively rounds) (sym (host-with_host s (host s))) p in
      let step = if_IsEnding (state == detached_initialize) initialize_step-Returning (
        if_IsEnding (state == attached_settle) (lift (settle_step-IsEnding rounds)) (
          if_IsEnding (state == attached_reset_device) (lift (reset_step-IsEnding rounds)) (
            if_IsEnding (state == attached_wait_reset_complete)
              (lift (wait_reset_step-IsEnding rounds))
              (if_IsEnding (state == attached_wait_sof) (lift (wait_sof_step-IsEnding rounds)) (
                if_IsEnding (state == attached_get_descriptor_size)
                  (lift (descriptor_size_step-IsEnding rounds fuel enough tries))
                  (else_addressing state other)))))) in
      let (_, t, e, q) = step.ends next kept in (t, e, q)
    where
      else_addressing :
          (state : ℕ)
          → (state == state_addressing) ≡ false
          → Returning (if state == state_addressing then addressing_step client fuel else pure tt)
      else_addressing state other = rw other (pure-IsEnding {a = tt})

  -- On a board that does not stall, every call of usb_poll returns that is made in another task state than
  -- ADDRESSING, whatever the chip and the device answer, if the event handler returns when it is told
  -- that a device has gone; the board then still does not stall.
  pub usb_poll-Ends :
      (s : S) → Away s → (t : S) × (usb_poll client fuel s ≡ some (tt, t)) × Running client rounds t
  unfolding usb_poll
  usb_poll-Ends s p =
      let whole : IsReaching Away (λ o. (t : S) × (o ≡ some (tt, t)) × Running client rounds t)
          (usb_poll client fuel) =
        bind-IsReaching (away (shield-Away rounds (poll-Ending rounds))) λ _.
          bind-IsReaching (away (vbus_changed-Away rounds))
            λ _. record { reaches = task_step-Returns } in
      whole.reaches s p
