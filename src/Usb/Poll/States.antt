-- ===== src/Usb/Poll/States.antt =====
-- The enumeration of a device by usb_poll of src/mcu/max3421e/max3421e_usb.c, as moves of its task
-- state.
use microbridge.Base.{
  ℕ, zero, suc, ◌≡◌, ap, ◌∙◌, subst, inl, inr, ◌⊎◌, Bool, true, false, some, arith, ◌==◌, ◌+◌,
  if◌then◌else◌, is_zero, Option-cases, Bool-cases,
}
use microbridge.Base.Run.{Cmd, pure, get, modify, ◌>>◌, bind-inv}
use microbridge.Shield.{Shield}
use microbridge.Max3421e
use microbridge.Usb.Constants.{
  detached_initialize, detached_wait_for_device, state_addressing, state_running, state_error,
}
use microbridge.Usb.Device.{EventType, connect, disconnect, addressing_error}
use microbridge.Usb.Host.{
  Host, on_shield, init, vbus_changed, set_task_state, fail_with, settle_step, reset_step,
  wait_reset_step, wait_sof_step, descriptor_size_step,
}
use microbridge.Usb.Control.{set_address}
use microbridge.Usb.Poll.{
  Client, usb_poll, task_step, initialize_step, addressing_step, disconnect_loop, search_loop,
  assign, on_host, fire_event,
}
use microbridge.Usb.Poll.Moves.{
  may_step, followed, Moves, on_shield-same, on_shield-shield, settle-Moves, wait_reset-Moves,
  wait_sof-Moves, reset-Moves, descriptor_size-Moves,
}

module _ {S : Type 0} (client : Client S) where
  open client use {host, with_host, handler}

  -- What the layer above promises: its host is the one that was put there, and its event handler leaves
  -- the task state alone.
  pub record IsCalm : Type 0 where
    pub host-with_host : (s : S) (h : Host) → host (with_host s h) ≡ h
    pub same :
        (i : ℕ) (e : EventType) (s t : S)
        → handler i e s ≡ some (tt, t)
        → (host t).task_state ≡ (host s).task_state

module _ {S : Type 0} (client : Client S) (calm : IsCalm client) where
  open client use {host, with_host, handler}
  open calm use {host-with_host, same}

  on_host-host :
      {A : Type 0} (m : Cmd Host A) (s t : S) (a : A)
      → on_host client m s ≡ some (a, t)
      → m (host s) ≡ some (a, host t)
  unfolding on_host
  on_host-host m s t a p = elim (Option-cases (m (host s))) [
    | inl e ↦ ground arith
    | inr ((b, h), e) ↦ ground (arith, host-with_host s h)
  ]

  -- An event that is fired or not leaves the task state alone.
  fire-same :
      (b : Bool) (i : ℕ) (e : EventType) (s t : S)
      → (if b then fire_event client i e else pure tt) s ≡ some (tt, t)
      → (host t).task_state ≡ (host s).task_state
  unfolding fire_event
  fire-same true i e s t p = same i e s t p
  fire-same false i e s t p = ground arith

  disconnect_loop-same :
      (count i : ℕ) (s t : S)
      → disconnect_loop client count i s ≡ some (tt, t)
      → (host t).task_state ≡ (host s).task_state
  unfolding disconnect_loop
  disconnect_loop-same zero i s t p = ground arith
  disconnect_loop-same (suc count) i s t p =
      let (h, s1, e1, p1) = bind-inv (on_host client get) _ s p in
      let (_, s2, e2, p2) =
        bind-inv (if (h.table i).active then fire_event client i disconnect else pure tt) _ s1 p1 in
      ground (
        arith,
        on_host-host get s s1 h e1,
        fire-same (h.table i).active i disconnect s1 s2 e2,
        disconnect_loop-same count (i + 1) s2 t p2,
      )

  initialize-Moves :
      (fuel : ℕ) (s t : S)
      → (host s).task_state ≡ detached_initialize
      → initialize_step client fuel s ≡ some (tt, t)
      → Moves (host s) (host t)
  unfolding initialize_step may_step set_task_state
  initialize-Moves fuel s t e p =
      let (_, s1, e1, p1) = bind-inv (disconnect_loop client 1 1) _ s p in
      let (_, s2, e2, p2) = bind-inv (on_host client (init fuel)) _ s1 p1 in
      ground (arith, on_host-host (set_task_state detached_wait_for_device) s2 t tt p2)

  -- The two ends of the enumeration of the entry i.
  report-moves :
      (b : Bool) (i error : ℕ) (s t : S)
      → (if b
            then fire_event client i connect >> on_host client (set_task_state state_running)
            else fire_event client i addressing_error >> on_host client (fail_with error))
          s
        ≡ some (tt, t)
      → ((host t).task_state ≡ state_running) ⊎ ((host t).task_state ≡ state_error)
  unfolding set_task_state fail_with
  report-moves true i error s t p =
      let (_, s1, e1, p1) = bind-inv (fire_event client i connect) _ s p in
      ground (arith, on_host-host (set_task_state state_running) s1 t tt p1)
  report-moves false i error s t p =
      let (_, s1, e1, p1) = bind-inv (fire_event client i addressing_error) _ s p in
      ground (arith, on_host-host (fail_with error) s1 t tt p1)

  assign-moves :
      (fuel i : ℕ) (s t : S)
      → assign client fuel i s ≡ some (tt, t)
      → ((host t).task_state ≡ state_running) ⊎ ((host t).task_state ≡ state_error)
  unfolding assign
  assign-moves fuel i s t p =
      let (_, s1, e1, p1) = bind-inv (on_host client (modify _)) _ s p in
      let (h, s2, e2, p2) = bind-inv (on_host client get) _ s1 p1 in
      let ((rcode, d), s3, e3, p3) =
        bind-inv (on_host client (on_shield (set_address fuel (h.table 0) i))) _ s2 p2 in
      let (_, s4, e4, p4) = bind-inv (on_host client (modify _)) _ s3 p3 in
      report-moves (is_zero rcode) i state_addressing s4 t p4

  -- The search changes no task state, or ends the enumeration.
  search-moves :
      (fuel count i j : ℕ) (s t : S)
      → search_loop client fuel count i s ≡ some (j, t)
      → ((host t).task_state ≡ (host s).task_state)
        ⊎ ((host t).task_state ≡ state_running)
        ⊎ ((host t).task_state ≡ state_error)
  unfolding search_loop
  search-moves fuel zero i j s t p = ground arith
  search-moves fuel (suc count) i j s t p =
      let (h, s1, e1, p1) = bind-inv (on_host client get) _ s p in
      elim (Bool-cases (h.table i).active) [
        | inl a ↦ ground (arith, on_host-host get s s1 h e1, search-moves fuel count (i + 1) j s1 t)
        | inr a ↦ elim (Option-cases (assign client fuel i s1)) [
          | inl e ↦ ground arith
          | inr ((_, s2), e) ↦ ground (arith, assign-moves fuel i s1 s2)
        ]
      ]

  addressing-Moves :
      (fuel : ℕ) (s t : S)
      → (host s).task_state ≡ state_addressing
      → addressing_step client fuel s ≡ some (tt, t)
      → Moves (host s) (host t)
  unfolding addressing_step may_step fail_with
  addressing-Moves fuel s t e p =
      let (i, s1, e1, p1) = bind-inv (search_loop client fuel 1 1) _ s p in
      let (h, s2, e2, p2) = bind-inv (on_host client get) _ s1 p1 in
      elim (Bool-cases (h.task_state == state_addressing)) [
        | inl a ↦ elim (Option-cases (fire_event client i addressing_error s2)) [
          | inl q ↦ ground arith
          | inr ((_, s3), q) ↦ ground (arith, on_host-host (fail_with 0xfe) s3 t tt)
        ]
        | inr a ↦ ground (arith, search-moves fuel 1 1 i s s1 e1, on_host-host get s1 s2 h e2)
      ]

  task_step-Moves :
      (fuel : ℕ) (s t : S) → task_step client fuel s ≡ some (tt, t) → Moves (host s) (host t)
  unfolding task_step may_step
  task_step-Moves fuel s t p =
      let (h, s1, e1, p1) = bind-inv (on_host client get) _ s p in
      ground (
        arith,
        on_host-host get s s1 h e1,
        initialize-Moves fuel s1 t,
        on_host-host settle_step s1 t tt,
        settle-Moves (host s1) (host t),
        on_host-host reset_step s1 t tt,
        reset-Moves (host s1) (host t),
        on_host-host wait_reset_step s1 t tt,
        wait_reset-Moves (host s1) (host t),
        on_host-host wait_sof_step s1 t tt,
        wait_sof-Moves (host s1) (host t),
        on_host-host (descriptor_size_step fuel) s1 t tt,
        descriptor_size-Moves fuel (host s1) (host t),
        addressing-Moves fuel s1 t,
      )

  poll_attach :
      (s t : S)
      → on_host client vbus_changed s ≡ some (tt, t)
      → (host t).task_state ≡ followed (host s).shield.vbus_state (host s).task_state
  unfolding vbus_changed set_task_state followed
  poll_attach s t p = ground (arith, on_host-host vbus_changed s t tt p)

  -- A call of usb_poll that returns has serviced the controller, has then moved the task state as the bus
  -- that this left in vbusState says, and has then taken at most one step of the enumeration: initialize,
  -- settle, reset, wait for the reset and for frames, fetch the size of the packets, give an address. The
  -- event handler is supposed to leave the task state alone.
  pub usb_poll-moves :
      (fuel : ℕ) (s t : S)
      → usb_poll client fuel s ≡ some (tt, t)
      → (r : ℕ) × (board : Shield) × (Max3421e.poll (host s).shield ≡ some (r, board))
        × (may_step (followed board.vbus_state (host s).task_state) (host t).task_state ≡ true)
  unfolding usb_poll
  usb_poll-moves fuel s t p =
      let (r, s1, e1, p1) = bind-inv (on_host client (on_shield Max3421e.poll)) _ s p in
      let (_, s2, e2, p2) = bind-inv (on_host client vbus_changed) _ s1 p1 in
      let polled = on_host-host (on_shield Max3421e.poll) s s1 r e1 in
      let same = on_shield-same Max3421e.poll (host s) (host s1) r polled in
      let attached : (host s2).task_state
          ≡ followed (host s1).shield.vbus_state (host s).task_state =
        poll_attach s1 s2 e2 ∙ ap (followed (host s1).shield.vbus_state) same in
      (
        r,
        (host s1).shield,
        on_shield-shield Max3421e.poll (host s) (host s1) r polled,
        subst (λ m. may_step m (host t).task_state ≡ true) attached (task_step-Moves fuel s2 t p2),
      )
