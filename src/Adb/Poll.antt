-- ===== src/Adb/Poll.antt =====
-- adb_poll, adb_handleConnect, adb_usbEventHandler and adb_init of src/mcu/adb.c.
use microbridge.Base.{
  ℕ, Bool, true, false, Option, none, some, List, [], ◌∷◌, ◌==◌, ltb, u16, if◌then◌else◌, ◌&&◌, not,
}
use microbridge.Base.Run.{Cmd, pure, ◌>>=◌, ◌>>◌, get, modify}
use microbridge.Shield.{delay}
use microbridge.Usb.Device.{EventType, connect, disconnect, addressing_error, fill, bytes_from}
use microbridge.Usb.Host.{init}
use microbridge.Usb.Poll.{Client, on_host, usb_poll}
use microbridge.Adb.Link.{Connection, Adb, on_board, adb_read, unused}
use microbridge.Adb.Link
use microbridge.Adb.Message.{
  Message, a_cnxn, a_okay, a_clse, a_wrte, write_string_message, poll_message,
}
use microbridge.Adb.Connection.{
  is, is_null, fire_global_event, for_each, open_closed, handle_okay, handle_close, handle_write,
  close_all,
}
use microbridge.Adb.Discovery.{Configuration, is_adb_device, init_usb}

-- "host::microbridge"
abbrev pub banner : List ℕ
banner =
    104 ∷ 111 ∷ 115 ∷ 116 ∷ 58 ∷ 58 ∷ 109 ∷ 105 ∷ 99 ∷ 114 ∷ 111 ∷ 98 ∷ 114 ∷ 105 ∷ 100 ∷ 103 ∷ 101
    ∷ []

unfoldable pub handle_connect : (fuel : ℕ) → Message → Cmd Adb (Unit {0})
handle_connect fuel m = do
  a ← get
  let len = u16 (if ltb m.data_length 256 then m.data_length else 256)
  input ← adb_read fuel len false
  modify λ a. record a { connected = true }
  fire_global_event Link.EventType.connect (bytes_from len 0 (fill input.bytes a.host.stack))

-- device == adbDevice
abbrev pub is_device : (index : ℕ) → Option ℕ → Bool
is_device index none = false
is_device index (some i) = index == i

-- `handle` is what the uninitialised record of adb_usbEventHandler holds.
module _ (fuel : ℕ) (handle : Configuration) where
  unfoldable pub usb_event_handler : (index : ℕ) → EventType → Cmd Adb (Unit {0})
  usb_event_handler index connect = do
    (adb, found) ← is_adb_device fuel index 0 handle
    if adb then init_usb fuel index found else pure tt
  usb_event_handler index disconnect = do
    a ← get
    if is_device index a.device
        then (do close_all; modify λ a. record a { device = none; connected = false })
        else pure tt
  usb_event_handler index addressing_error = pure tt

  abbrev pub client : Client Adb
  client = record {
    host = λ a. a.host;
    with_host = λ a h. record a { host = h };
    handler = usb_event_handler;
  }

  -- The switch of adb_poll, for a connection that the message is for.
  unfoldable pub dispatch : Message → Connection → Cmd Adb Connection
  dispatch m c =
      if not (is c.status unused) && c.local_id == m.arg1
      then if m.command == a_okay
        then handle_okay c m
        else if m.command == a_clse
        then handle_close c
        else if m.command == a_wrte
        then handle_write fuel c m
        else pure c
      else pure c

  -- adb_poll once a message has come in
  unfoldable pub handle_message : Option Message → Cmd Adb (Unit {0})
  handle_message none = pure tt
  handle_message (some m) = do
    if m.command == a_cnxn then handle_connect fuel m else pure tt
    for_each (dispatch m)

  -- adb_poll for a device
  unfoldable pub device_poll : Cmd Adb (Unit {0})
  device_poll = do
    a ← get
    if a.connected then pure tt else (do
      _ ← write_string_message fuel a_cnxn 0x0100_0000 4096 banner
      on_board (delay fuel 500))
    b ← get
    if b.connected then for_each (open_closed fuel) else pure tt
    m ← poll_message fuel true
    handle_message m

  unfoldable pub adb_poll : Cmd Adb (Unit {0})
  adb_poll = do usb_poll client fuel; a ← get; if is_null a.device then pure tt else device_poll

  unfoldable pub adb_init : Cmd Adb (Unit {0})
  adb_init = do
    modify λ a. record a { device = none; connected = false }
    on_host client (init fuel)
