-- ===== src/Adb/Connection.antt =====
-- Connections of src/mcu/adb.c: events, the connection list, and what each message does to a
-- connection. A connection is passed in and handed back; the list is written back by `for_each`.
use microbridge.Base.{
  ℕ, zero, suc, ◌+◌, Bool, true, false, not, List, [], ◌∷◌, Option, none, some, ◌==◌, ltb, u16, u32,
  sub32, if◌then◌else◌, ◌&&◌, ◌||◌, ℤ, pos, negsuc, equals, to_word,
}
use microbridge.Base.Run.{Cmd, pure, ◌>>=◌, ◌>>◌, get, modify}
use microbridge.Shield.{millis, print, read_mismatch}
use microbridge.Usb.Device.{Memory, fill, bytes_from}
use microbridge.Adb.Link.{
  Status, unused, closed, opened, opening, receiving, writing, EventType, connection_open,
  connection_close, connection_failed, connection_receive, Connection, Adb, on_board, adb_read,
}
use microbridge.Adb.Message.{
  Message, a_open, a_okay, a_wrte, packet_size, write_empty_message, write_message,
  write_string_message,
}

-- connection->status == s
abbrev pub is : Status → Status → Bool
is unused unused = true
is closed closed = true
is opened opened = true
is opening opening = true
is receiving receiving = true
is writing writing = true
is _ _ = false

-- p == NULL
abbrev pub is_null : Option ℕ → Bool
is_null none = true
is_null (some _) = false

-- bytesRead == -1
abbrev pub is_error : ℤ → Bool
is_error (pos n) = false
is_error (negsuc n) = n == 0

-- A call of the handler, if it is set.
unfoldable pub call_handler :
    Option ℕ → (connection : Option ℕ) → EventType → List ℕ → Cmd Adb (Unit {0})
call_handler none connection event bytes = pure tt
call_handler (some handler) connection event bytes = modify λ a. record a {
  calls =
      record { handler = handler; connection = connection; event = event; bytes = bytes } ∷ a.calls;
}

-- adb_fireEvent for a connection, and for NULL
unfoldable pub fire_event : Connection → EventType → List ℕ → Cmd Adb (Unit {0})
unfolding call_handler
fire_event c event bytes = do
  a ← get
  call_handler a.event_handler (some c.local_id) event bytes
  call_handler c.event_handler (some c.local_id) event bytes

unfoldable pub fire_global_event : EventType → List ℕ → Cmd Adb (Unit {0})
unfolding call_handler
fire_global_event event bytes = do a ← get; call_handler a.event_handler none event bytes

unfoldable pub set_event_handler : Option ℕ → Cmd Adb (Unit {0})
set_event_handler handler = modify λ a. record a { event_handler = handler }

-- `block` is what malloc returns, with whatever it holds; `copied` says that strdup succeeds. The
-- result says that the new connection is returned, and not NULL. connectionLocalId is a 16-bit int,
-- whose increment at 0x7fff is undefined: below that value it counts as here.
unfoldable pub add_connection :
    (block : Option Connection)
    → (copied : Bool) → (string : List ℕ) → (reconnect : Bool) → (handler : Option ℕ) → Cmd Adb Bool
add_connection none copied string reconnect handler = pure false
add_connection (some block) copied string reconnect handler = if not copied then pure false else do
  a ← get
  let connection = record block {
    connection_string = string;
    local_id = u32 a.connection_local_id;
    last_connection_attempt = 0;
    status = closed;
    reconnect = reconnect;
    event_handler = handler;
  }
  modify λ a. record a {
    connection_local_id = a.connection_local_id + 1;
    connections = connection ∷ a.connections;
  }
  pure true

-- A loop along the list.
unfoldable pub visit :
    (Connection → Cmd Adb Connection) → List Connection → Cmd Adb (List Connection)
visit body [] = pure []
visit body (c ∷ cs) = do c' ← body c; cs' ← visit body cs; pure (c' ∷ cs')

unfoldable pub for_each : (Connection → Cmd Adb Connection) → Cmd Adb (Unit {0})
unfolding visit
for_each body = do a ← get; cs ← visit body a.connections; modify λ a. record a { connections = cs }

-- The body of adb_openClosedConnections. The retry time is 1000 ms.
unfoldable pub open_closed : (fuel : ℕ) → Connection → Cmd Adb Connection
open_closed fuel c = do
  now ← on_board millis
  if is c.status closed && ltb 1000 (sub32 now c.last_connection_attempt)
      then (do
        _ ← write_string_message fuel a_open c.local_id 0 c.connection_string
        attempt ← on_board millis
        pure (record c { last_connection_attempt = attempt; status = opening }))
      else pure c

unfoldable pub handle_okay : Connection → Message → Cmd Adb Connection
handle_okay c m = do
  c ←
      (if is c.status opening
        then (do
          let c' = record c { status = opened; remote_id = m.arg0 }
          fire_event c' connection_open []
          pure c')
        else pure c)
  pure (if is c.status writing then record c { status = opened } else c)

unfoldable pub handle_close : Connection → Cmd Adb Connection
handle_close c = do
  fire_event c (if is c.status opening then connection_failed else connection_close) []
  pure (record c { status = if c.reconnect then closed else unused })

-- bytesLeft < ADB_USB_PACKETSIZE ? bytesLeft : ADB_USB_PACKETSIZE
abbrev pub packet_length : ℕ → ℕ
packet_length left = if ltb left packet_size then left else packet_size

-- The body of `while (bytesLeft>0)` in adb_handleWrite: whether it breaks, and the variables after
-- it. `buf` is the buffer.
unfoldable pub receive_packet :
    (fuel left : ℕ) → Memory → Connection → Cmd Adb (Bool × ℕ × Memory × Connection)
receive_packet fuel left buf c = do
  let len = packet_length left
  input ← adb_read fuel len false
  let buf' = fill input.bytes buf
  if equals input.result len
      then pure tt
      else on_board (print (read_mismatch len input.result left))
  if is_error input.result then pure (true, left, buf', c) else do
    let c' = record c { data_read = u16 (c.data_read + len) }
    fire_event c' connection_receive (bytes_from len 0 buf')
    pure (false, sub32 left (to_word 4294967296 input.result), buf', c')

unfoldable pub receive_loop : (fuel rounds left : ℕ) → Memory → Connection → Cmd Adb Connection
receive_loop fuel zero left buf c = λ _. none
receive_loop fuel (suc rounds) left buf c =
    let again = receive_loop fuel rounds in
    if left == 0 then pure c else do
      (stop, left', buf', c') ← receive_packet fuel left buf c
      if stop then pure c' else again left' buf' c'

unfoldable pub handle_write : (fuel : ℕ) → Connection → Message → Cmd Adb Connection
unfolding receive_loop
handle_write fuel c m = do
  a ← get
  c' ←
      receive_loop fuel fuel m.data_length a.host.stack
        (record c { status = receiving; data_read = 0; data_size = u16 m.data_length })
  _ ← write_empty_message fuel a_okay m.arg1 m.arg0
  pure (record c' { status = c.status })

-- adb_closeAll
unfoldable pub close_if_open : Connection → Cmd Adb Connection
close_if_open c = if is c.status unused || is c.status closed then pure c else handle_close c

unfoldable pub close_all : Cmd Adb (Unit {0})
close_all = for_each close_if_open

-- adb_write: 0 is success.
unfoldable pub write : (fuel : ℕ) → Connection → (bytes : List ℕ) → Cmd Adb (ℤ × Connection)
write fuel c bytes = do
  a ← get
  if is_null a.device || not a.connected
      then pure (negsuc 0, c)
      else if is c.status opened
      then (do
        ret ← write_message fuel a_wrte c.local_id c.remote_id bytes
        pure (pos ret, if ret == 0 then record c { status = writing } else c))
      else pure (negsuc 1, c)

-- adb_writeString
unfoldable pub write_string : (fuel : ℕ) → Connection → (str : List ℕ) → Cmd Adb (ℤ × Connection)
write_string fuel c str = do
  a ← get
  if is_null a.device || not a.connected
      then pure (negsuc 0, c)
      else if is c.status opened
      then (do
        ret ← write_string_message fuel a_wrte c.local_id c.remote_id str
        pure (pos ret, if ret == 0 then record c { status = writing } else c))
      else pure (negsuc 1, c)
