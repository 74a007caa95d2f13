-- ===== src/Arduino/Adb/Poll.antt =====
-- ADB::poll, ADB::handleConnect, usbEventHandler and ADB::init of src/arduino/Adb.cpp.
pub mod Agreement
use microbridge.Base.{
  ℕ, zero, suc, ◌+◌, ◌-◌, ◌*◌, ◌/◌, ◌^◌, Bool, true, false, not, List, [], ◌∷◌, ◌++◌, Option, none,
  some, ◌==◌, ltb, leb, u8, u16, u32, sub32, bit_and, bit_or, if◌then◌else◌, ◌||◌, ◌&&◌, ℤ, pos,
  negsuc, int16, take, drop, get_or, length, is_neg, is_zero, to_word, equals,
}
use microbridge.Base.Run.{Cmd, pure, ◌>>=◌, ◌>>◌, get, modify}
use microbridge.Arduino.Core.{Core}
use microbridge.Usb.Device.{EventType, connect, disconnect, addressing_error, fill, bytes_from}
use microbridge.Usb.Poll.{Client, on_host}
use microbridge.Adb.Link.{Connection, Adb, on_board, unused}
use microbridge.Adb.Link
use microbridge.Adb.Message.{Message, a_cnxn, a_okay, a_clse, a_wrte}
use microbridge.Adb.Connection.{is, is_null, for_each}
use microbridge.Adb.Discovery.{Configuration}
use microbridge.Adb.Poll.{banner, is_device}
use microbridge.Arduino.Host.{init}
use microbridge.Arduino.Poll.{usb_poll}
use microbridge.Arduino.Adb.Message.{adb_read, write_string_message, poll_message}
use microbridge.Arduino.Adb.Connection.{
  fire_global_event, open_closed, handle_okay, handle_close, handle_write, close_all,
}
use microbridge.Arduino.Adb.Discovery.{is_adb_device, init_usb}

module _ (core : Core) where
  unfoldable pub handle_connect : (fuel : ℕ) → Message → Cmd Adb (Unit {0})
  handle_connect fuel m = do
    a ← get
    let len = u16 (if ltb m.data_length 256 then m.data_length else 256)
    input ← adb_read core fuel len false
    modify λ a. record a { connected = true }
    fire_global_event Link.EventType.connect (bytes_from len 0 (fill input.bytes a.host.stack))

-- `handle` is what the uninitialised record of usbEventHandler holds.
module _ (core : Core) (fuel : ℕ) (handle : Configuration) where
  unfoldable pub usb_event_handler : (index : ℕ) → EventType → Cmd Adb (Unit {0})
  usb_event_handler index connect = do
    (adb, found) ← is_adb_device core fuel index 0 handle
    if adb then init_usb core fuel index found else pure tt
  usb_event_handler index disconnect = do
    a ← get
    if is_device index a.device
        then (do close_all; modify λ a. record a { device = none; connected = false })
        else pure tt
  usb_event_handler index addressing_error = pure tt

  abbrev pub client : Client Adb
  client = record {
    host = λ a. a.host;
    with_host = λ a h. record a { host = h };
    handler = usb_event_handler;
  }

  -- The switch of ADB::poll, for a connection that the message is for.
  unfoldable pub dispatch : Message → Connection → Cmd Adb Connection
  dispatch m c =
      if not (is c.status unused) && c.local_id == m.arg1
      then if m.command == a_okay
        then handle_okay c m
        else if m.command == a_clse
        then handle_close c
        else if m.command == a_wrte
        then handle_write core fuel c m
        else pure c
      else pure c

  -- ADB::poll once a message has come in
  unfoldable pub handle_message : Option Message → Cmd Adb (Unit {0})
  handle_message none = pure tt
  handle_message (some m) = do
    if m.command == a_cnxn then handle_connect core fuel m else pure tt
    for_each (dispatch m)

  -- ADB::poll for a device
  unfoldable pub device_poll : Cmd Adb (Unit {0})
  device_poll = do
    a ← get
    if a.connected then pure tt else (do
      _ ← write_string_message core fuel a_cnxn 0x0100_0000 4096 banner
      on_board (core.delay fuel 500))
    b ← get
    if b.connected then for_each (open_closed core fuel) else pure tt
    m ← poll_message core fuel true
    handle_message m

  unfoldable pub adb_poll : Cmd Adb (Unit {0})
  adb_poll = do
    usb_poll core client fuel
    a ← get
    if is_null a.device then pure tt else device_poll

  unfoldable pub adb_init : Cmd Adb (Unit {0})
  adb_init = do
    modify λ a. record a { device = none; connected = false }
    on_host client (init core fuel)
