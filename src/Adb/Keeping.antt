-- ===== src/Adb/Keeping.antt =====
-- Properties of the state that the functions of src/mcu/adb.c keep, if the commands that they are made of
-- keep them.
pub mod Lists
pub mod Polling
use microbridge.Base.{
  ◌||◌, not, ℕ, zero, suc, ◌+◌, ◌∷◌, Bool, true, false, u16, ltb, equals, is_neg, sub32, to_word,
  if◌then◌else◌, List, Option, none, some,
}
use microbridge.Base.Run.{modify, ◌>>◌}
use microbridge.Base.Keeps.{
  IsKeeping, pure-IsKeeping, bind-IsKeeping, get-IsKeeping, stuck-IsKeeping, if_IsKeeping,
}
use microbridge.Shield.{Notice, delay, millis, print, read_mismatch}
use microbridge.Usb.Device.{Memory, fill, bytes_from}
use microbridge.Adb.Link.{Connection, Call, Adb, on_board, adb_read, adb_bulk_write}
use microbridge.Adb.Link
use microbridge.Adb.Link.{opened}
use microbridge.Adb.Program.{written, written_string}
use microbridge.Adb.Message.{
  a_wrte, Message, decode, write_empty_message, write_message, write_string_message, poll_message,
}
use microbridge.Adb.Connection.{
  is, is_null, write, write_string, packet_length, is_error, call_handler, fire_event,
  fire_global_event, open_closed, handle_okay, handle_close, receive_packet, receive_loop,
  handle_write, close_if_open,
}
use microbridge.Adb.Discovery.{Configuration}
use microbridge.Adb.Poll.{dispatch, handle_connect}

-- The commands that the functions of adb.c are made of keep the property.
pub record Calm (P : Adb → Type 0) : Type 0 where
  pub read : (fuel length : ℕ) (poll : Bool) → IsKeeping P (adb_read fuel length poll)
  pub bulk_write : (fuel : ℕ) (bytes : List ℕ) → IsKeeping P (adb_bulk_write fuel bytes)
  pub clock : IsKeeping P (on_board millis)
  pub wait : (fuel ms : ℕ) → IsKeeping P (on_board (delay fuel ms))
  pub notice : (n : Notice) → IsKeeping P (on_board (print n))
  pub call : (c : Call) → IsKeeping P (modify λ a. record a { calls = c ∷ a.calls })
  pub greeted : IsKeeping P (modify λ a. record a { connected = true })

module _ (P : Adb → Type 0) (calm : Calm P) where
  open calm use {read, bulk_write, clock, notice, call, greeted}

  pub write_empty_message-IsKeeping :
      (fuel command arg0 arg1 : ℕ) → IsKeeping P (write_empty_message fuel command arg0 arg1)
  unfolding write_empty_message
  write_empty_message-IsKeeping fuel command arg0 arg1 = bulk_write fuel _

  write_message-IsKeeping :
      (fuel command arg0 arg1 : ℕ) (bytes : List ℕ)
      → IsKeeping P (write_message fuel command arg0 arg1 bytes)
  unfolding write_message
  write_message-IsKeeping fuel command arg0 arg1 bytes =
      bind-IsKeeping (bulk_write fuel _) λ rcode. if_IsKeeping _ (bulk_write fuel _) pure-IsKeeping

  pub write_string_message-IsKeeping :
      (fuel command arg0 arg1 : ℕ) (str : List ℕ)
      → IsKeeping P (write_string_message fuel command arg0 arg1 str)
  unfolding write_string_message
  write_string_message-IsKeeping fuel command arg0 arg1 str =
      write_message-IsKeeping fuel command arg0 arg1 _

  pub poll_message-IsKeeping : (fuel : ℕ) (poll : Bool) → IsKeeping P (poll_message fuel poll)
  unfolding poll_message
  poll_message-IsKeeping fuel poll = bind-IsKeeping get-IsKeeping λ a.
      bind-IsKeeping (read fuel _ poll) λ input.
        if_IsKeeping (is_neg input.result) (pure-IsKeeping {a = none}) (
          if_IsKeeping (equals input.result 24)
            (pure-IsKeeping {a = some (decode (fill input.bytes a.host.stack))})
            (pure-IsKeeping {a = none}))

  pub call_handler-IsKeeping :
      (handler connection : Option ℕ) (event : Link.EventType) (bytes : List ℕ)
      → IsKeeping P (call_handler handler connection event bytes)
  unfolding call_handler
  call_handler-IsKeeping none connection event bytes = pure-IsKeeping
  call_handler-IsKeeping (some h) connection event bytes =
      call (record { handler = h; connection = connection; event = event; bytes = bytes })

  pub fire_event-IsKeeping :
      (c : Connection) (event : Link.EventType) (bytes : List ℕ)
      → IsKeeping P (fire_event c event bytes)
  unfolding fire_event
  fire_event-IsKeeping c event bytes = bind-IsKeeping get-IsKeeping λ a.
      bind-IsKeeping (call_handler-IsKeeping a.event_handler _ event bytes)
        λ _. call_handler-IsKeeping c.event_handler _ event bytes

  pub open_closed-IsKeeping : (fuel : ℕ) (c : Connection) → IsKeeping P (open_closed fuel c)
  unfolding open_closed
  open_closed-IsKeeping fuel c = bind-IsKeeping clock λ now.
      if_IsKeeping _
        (bind-IsKeeping (write_string_message-IsKeeping fuel _ _ _ _)
          λ _. bind-IsKeeping clock λ attempt. pure-IsKeeping)
        pure-IsKeeping

  pub handle_okay-IsKeeping : (c : Connection) (m : Message) → IsKeeping P (handle_okay c m)
  unfolding handle_okay
  handle_okay-IsKeeping c m =
      bind-IsKeeping
        (if_IsKeeping _ (bind-IsKeeping (fire_event-IsKeeping _ _ _) λ _. pure-IsKeeping)
          pure-IsKeeping)
        λ c'. pure-IsKeeping

  pub handle_close-IsKeeping : (c : Connection) → IsKeeping P (handle_close c)
  unfolding handle_close
  handle_close-IsKeeping c = bind-IsKeeping (fire_event-IsKeeping c _ _) λ _. pure-IsKeeping

  pub receive_packet-IsKeeping :
      (fuel left : ℕ) (buf : Memory) (c : Connection) → IsKeeping P (receive_packet fuel left buf c)
  unfolding receive_packet
  receive_packet-IsKeeping fuel left buf c =
      let len = packet_length left in
      let c' : Connection = record c { data_read = u16 (c.data_read + len) } in
      bind-IsKeeping (read fuel len false) λ input.
        let buf' : Memory = fill input.bytes buf in
        let left' = sub32 left (to_word 4294967296 input.result) in
        bind-IsKeeping
          (if_IsKeeping (equals input.result len) (pure-IsKeeping {a = tt})
            (notice (read_mismatch len input.result left)))
          λ _. if_IsKeeping (is_error input.result) (pure-IsKeeping {a = (true, left, buf', c)}) (
            bind-IsKeeping (fire_event-IsKeeping c' Link.connection_receive (bytes_from len 0 buf'))
              λ _. pure-IsKeeping {a = (false, left', buf', c')})

  pub receive_loop-IsKeeping :
      (fuel rounds left : ℕ) (buf : Memory) (c : Connection)
      → IsKeeping P (receive_loop fuel rounds left buf c)
  unfolding receive_loop
  receive_loop-IsKeeping fuel zero left buf c = stuck-IsKeeping
  receive_loop-IsKeeping fuel (suc rounds) left buf c = if_IsKeeping _ pure-IsKeeping (
      bind-IsKeeping (receive_packet-IsKeeping fuel left buf c) λ (stop, left', buf', c').
        if_IsKeeping _ pure-IsKeeping (receive_loop-IsKeeping fuel rounds left' buf' c'))

  pub handle_write-IsKeeping :
      (fuel : ℕ) (c : Connection) (m : Message) → IsKeeping P (handle_write fuel c m)
  unfolding handle_write
  handle_write-IsKeeping fuel c m = bind-IsKeeping get-IsKeeping λ a.
      bind-IsKeeping (receive_loop-IsKeeping fuel fuel m.data_length a.host.stack _) λ c'.
        bind-IsKeeping (write_empty_message-IsKeeping fuel _ m.arg1 m.arg0) λ _. pure-IsKeeping

  pub dispatch-IsKeeping :
      (fuel : ℕ) (handle : Configuration) (m : Message) (c : Connection)
      → IsKeeping P (dispatch fuel handle m c)
  unfolding dispatch
  dispatch-IsKeeping fuel handle m c =
      if_IsKeeping _
        (if_IsKeeping _ (handle_okay-IsKeeping c m) (
          if_IsKeeping _ (handle_close-IsKeeping c)
            (if_IsKeeping _ (handle_write-IsKeeping fuel c m) pure-IsKeeping)))
        pure-IsKeeping

  pub fire_global_event-IsKeeping :
      (event : Link.EventType) (bytes : List ℕ) → IsKeeping P (fire_global_event event bytes)
  unfolding fire_global_event
  fire_global_event-IsKeeping event bytes =
      bind-IsKeeping get-IsKeeping λ a. call_handler-IsKeeping a.event_handler none event bytes

  pub handle_connect-IsKeeping : (fuel : ℕ) (m : Message) → IsKeeping P (handle_connect fuel m)
  unfolding handle_connect
  handle_connect-IsKeeping fuel m =
      let len = u16 (if ltb m.data_length 256 then m.data_length else 256) in
      bind-IsKeeping get-IsKeeping λ a. bind-IsKeeping (read fuel len false) λ input.
        bind-IsKeeping (greeted) λ _.
          fire_global_event-IsKeeping Link.EventType.connect
            (bytes_from len 0 (fill input.bytes a.host.stack))

  pub close_if_open-IsKeeping : (c : Connection) → IsKeeping P (close_if_open c)
  unfolding close_if_open
  close_if_open-IsKeeping c = if_IsKeeping _ pure-IsKeeping (handle_close-IsKeeping c)

  pub written-IsKeeping :
      (fuel : ℕ) (bytes : List ℕ) (c : Connection) → IsKeeping P (written fuel bytes c)
  unfolding written write
  written-IsKeeping fuel bytes c =
      bind-IsKeeping
        (bind-IsKeeping get-IsKeeping λ a.
          if_IsKeeping (is_null a.device || not a.connected) pure-IsKeeping (
            if_IsKeeping (is c.status opened)
              (bind-IsKeeping (write_message-IsKeeping fuel a_wrte c.local_id c.remote_id bytes)
                λ ret. pure-IsKeeping)
              pure-IsKeeping))
        λ (_, c'). pure-IsKeeping

  pub written_string-IsKeeping :
      (fuel : ℕ) (str : List ℕ) (c : Connection) → IsKeeping P (written_string fuel str c)
  unfolding written_string write_string
  written_string-IsKeeping fuel str c =
      bind-IsKeeping
        (bind-IsKeeping get-IsKeeping λ a.
          if_IsKeeping (is_null a.device || not a.connected) pure-IsKeeping (
            if_IsKeeping (is c.status opened)
              (bind-IsKeeping
                (write_string_message-IsKeeping fuel a_wrte c.local_id c.remote_id str)
                λ ret. pure-IsKeeping)
              pure-IsKeeping))
        λ (_, c'). pure-IsKeeping
