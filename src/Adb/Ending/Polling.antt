-- ===== src/Adb/Ending/Polling.antt =====
-- adb_poll of src/mcu/adb.c on a board that does not stall: what becomes of a poll for a device.
use microbridge.Base.{
  ◌∙◌, sym, subst, ℕ, ◌+◌, ◌≤◌, ◌≡◌, refl, inl, inr, true, false, not, ◌&&◌, List, [], ◌∷◌, Option,
  none, some, arith, ◌==◌, u16, ltb, if◌then◌else◌, Bool-cases,
}
use microbridge.Base.Run.{bind-inv, bind-at, get, ◌>>=◌, ◌>>◌, Cmd, pure}
use microbridge.Base.Ends.{
  IsEnding, pure-IsEnding, get-IsEnding, modify-IsEnding, bind-IsEnding, if_IsEnding,
}
use microbridge.Shield.{millis, delay}
use microbridge.Max3421e.Ending.{millis-Ending}
use microbridge.Usb.Constants.{nak_limit, retry_limit}
use microbridge.Usb.Device.{fill, bytes_from}
use microbridge.Adb.Link.{Adb, Connection, on_board, unused, opening, writing}
use microbridge.Adb.Link
use microbridge.Adb.Message.{
  write_string_message, poll_message, Message, a_cnxn, a_okay, a_clse, a_wrte,
}
use microbridge.Adb.Connection.{
  is, call_handler, fire_event, fire_global_event, open_closed, handle_okay, handle_close, visit,
  for_each,
}
use microbridge.Adb.Discovery.{Configuration}
use microbridge.Adb.Poll.{banner, handle_connect, dispatch, handle_message, device_poll}
use microbridge.Adb.Ending.{
  Ready, adb_read-Returning, write_string_message-Returning, pause-Returning,
  poll_message-Returning, on_board-Returning,
}

module _ (rounds fuel i : ℕ) (enough : rounds ≤ fuel) (tries : nak_limit + retry_limit ≤ fuel) where
  abbrev Returning : {A : Type 0} → Cmd Adb A → Type 0
  Returning m = IsEnding (Ready rounds i) m

  call_handler-Returning :
      (handler connection : Option ℕ) (event : Link.EventType) (bytes : List ℕ)
      → Returning (call_handler handler connection event bytes)
  unfolding call_handler
  call_handler-Returning none connection event bytes = pure-IsEnding
  call_handler-Returning (some h) connection event bytes = modify-IsEnding λ a p. p

  fire_event-Returning :
      (c : Connection) (event : Link.EventType) (bytes : List ℕ)
      → Returning (fire_event c event bytes)
  unfolding fire_event
  fire_event-Returning c event bytes = bind-IsEnding get-IsEnding λ a.
      bind-IsEnding (call_handler-Returning a.event_handler _ event bytes)
        λ _. call_handler-Returning c.event_handler _ event bytes

  pub handle_connect-Returning : (m : Message) → Returning (handle_connect fuel m)
  unfolding handle_connect fire_global_event
  handle_connect-Returning m =
      let len = u16 (if ltb m.data_length 256 then m.data_length else 256) in
      bind-IsEnding get-IsEnding λ a.
        bind-IsEnding
          (adb_read-Returning rounds fuel i enough tries len false (ground arith) (ground arith))
          λ input.
            bind-IsEnding (modify-IsEnding {f = λ a. record a { connected = true }} λ a p. p) λ _.
              bind-IsEnding get-IsEnding λ b.
                call_handler-Returning b.event_handler none Link.EventType.connect
                  (bytes_from len 0 (fill input.bytes a.host.stack))

  millis-Returning : Returning (on_board millis)
  millis-Returning = on_board-Returning rounds fuel i enough tries (millis-Ending rounds)

  open_closed-Returning : (c : Connection) → Returning (open_closed fuel c)
  unfolding open_closed
  open_closed-Returning c = bind-IsEnding millis-Returning λ now.
      if_IsEnding _
        (bind-IsEnding (write_string_message-Returning rounds fuel i enough tries _ _ _ _)
          λ _. bind-IsEnding millis-Returning λ attempt. pure-IsEnding)
        pure-IsEnding

  visit-Returning :
      (body : Connection → Cmd Adb Connection)
      → ((c : Connection) → Returning (body c))
      → (cs : List Connection) → Returning (visit body cs)
  unfolding visit
  visit-Returning body each [] = pure-IsEnding
  visit-Returning body each (c ∷ cs) =
      bind-IsEnding (each c)
        λ d. bind-IsEnding (visit-Returning body each cs) λ ds. pure-IsEnding {a = d ∷ ds}

  for_each-Returning :
      (body : Connection → Cmd Adb Connection)
      → ((c : Connection) → Returning (body c))
      → Returning (for_each body)
  unfolding for_each
  for_each-Returning body each = bind-IsEnding get-IsEnding λ a.
      bind-IsEnding (visit-Returning body each a.connections)
        λ cs. modify-IsEnding {f = λ a. record a { connections = cs }} λ a p. p

  module _ (handle : Configuration) where
    handle_close-Returning : (c : Connection) → Returning (handle_close c)
    unfolding handle_close
    handle_close-Returning c = bind-IsEnding (fire_event-Returning c _ _) λ _. pure-IsEnding

    handle_okay-Returning : (c : Connection) (m : Message) → Returning (handle_okay c m)
    unfolding handle_okay
    handle_okay-Returning c m =
        bind-IsEnding
          (if_IsEnding (is c.status opening)
            (bind-IsEnding (fire_event-Returning _ _ _) λ _. pure-IsEnding) (pure-IsEnding {a = c}))
          λ c'. pure-IsEnding

    dispatch-Returning :
        (m : Message) (c : Connection)
        → (m.command == a_wrte) ≡ false
        → Returning (dispatch fuel handle m c)
    unfolding dispatch
    dispatch-Returning m c other =
        if_IsEnding (not (is c.status unused) && c.local_id == m.arg1)
          (if_IsEnding (m.command == a_okay) (handle_okay-Returning c m) (
            if_IsEnding (m.command == a_clse) (handle_close-Returning c)
              (rw other (pure-IsEnding {a = c}))))
          (pure-IsEnding {a = c})

    handle_message-Returning :
        (m : Message)
        → (m.command == a_wrte) ≡ false
        → Returning (handle_message fuel handle (some m))
    unfolding handle_message
    handle_message-Returning m other =
        bind-IsEnding
          (if_IsEnding (m.command == a_cnxn) (handle_connect-Returning m) (pure-IsEnding {a = tt}))
          λ _. for_each-Returning (dispatch fuel handle m) λ c. dispatch-Returning m c other

    -- A poll up to the message: the greeting of a device that is not connected, OPEN for the connections
    -- that are due, and the look for a message.
    abbrev pub before_message : Cmd Adb (Option Message)
    before_message = do
      a ← get
      if a.connected then pure tt else (do
        _ ← write_string_message fuel a_cnxn 0x0100_0000 4096 banner
        on_board (delay fuel 500))
      b ← get
      if b.connected then for_each (open_closed fuel) else pure tt
      poll_message fuel true

    -- What is left of a poll `o` once `m` has come in, at `b`: nothing, the loop for a WRTE message, or a
    -- message that is handled and leaves the board as one that does not stall.
    abbrev pub Rest : Option (Unit {0} × Adb) → Option Message → Adb → Type 0
    Rest o none b = o ≡ some (tt, b)
    Rest o (some m) b =
        if m.command == a_wrte
        then o ≡ for_each (dispatch fuel handle m) b
        else (c : Adb) × (o ≡ some (tt, c)) × Ready rounds i c

    before_message-Returning : Returning before_message
    before_message-Returning = bind-IsEnding get-IsEnding λ a.
        bind-IsEnding
          (if_IsEnding a.connected (pure-IsEnding {a = tt}) (
            bind-IsEnding
              (write_string_message-Returning rounds fuel i enough tries a_cnxn 0x0100_0000 4096
                banner)
              λ _. pause-Returning rounds fuel i enough tries))
          λ _. bind-IsEnding get-IsEnding λ b.
            bind-IsEnding
              (if_IsEnding b.connected (for_each-Returning (open_closed fuel) open_closed-Returning)
                (pure-IsEnding {a = tt}))
              λ _. poll_message-Returning rounds fuel i enough tries true

    device_poll-before :
        (o : Option Message) (a b : Adb)
        → before_message a ≡ some (o, b)
        → device_poll fuel handle a ≡ handle_message fuel handle o b
    unfolding device_poll
    device_poll-before o a b h =
        let greet : Cmd Adb (Unit {0}) = if a.connected then pure tt else (do
          _ ← write_string_message fuel a_cnxn 0x0100_0000 4096 banner
          on_board (delay fuel 500)) in
        let (_, c, e, f) = bind-inv greet _ a h in
        let opens : Cmd Adb (Unit {0}) =
          if c.connected then for_each (open_closed fuel) else pure tt in
        let (_, d, e', g) = bind-inv opens _ c f in
        bind-at greet _ a e ∙ bind-at opens _ c e' ∙ bind-at (poll_message fuel true) _ d g

    message-Rest :
        (o : Option Message) (b : Adb)
        → Ready rounds i b
        → Rest (handle_message fuel handle o b) o b
    unfolding handle_message
    message-Rest none b p = refl
    message-Rest (some m) b p = elim (Bool-cases (m.command == a_wrte)) [
      | inl wrte ↦ rw wrte (ground (arith, wrte))
      | inr other ↦
          let (_, c, e, q) = (handle_message-Returning m other).ends b p in rw other (c, e, q)
    ]

    -- On a board that does not stall, a poll for a device whose IN endpoint has a packet size always gets
    -- past the greeting, the OPEN messages and the look for a message, whatever the chip reports. If it has
    -- let in no message the poll is over there; if a WRTE message, what is left is the loop that hands that
    -- message to the connections; and with any other message the poll comes back, and the board still does
    -- not stall.
    pub device_poll-Returns :
        (a : Adb)
        → Ready rounds i a
        → (o : Option Message) × (b : Adb) × (before_message a ≡ some (o, b))
          × Ready rounds i b
          × Rest (device_poll fuel handle a) o b
    device_poll-Returns a p =
        let (o, b, e, q) = before_message-Returning.ends a p in
        (
          o,
          b,
          e,
          q,
          subst (λ x. Rest x o b) (sym (device_poll-before o a b e)) (message-Rest o b q),
        )
