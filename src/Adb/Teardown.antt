-- ===== src/Adb/Teardown.antt =====
-- adb_usbEventHandler and adb_closeAll of src/mcu/adb.c on USB_DISCONNECT.
use microbridge.Base.{
  ℕ, ◌≡◌, refl, true, false, ◌||◌, List, [], ◌∷◌, Option, none, some, arith, if◌then◌else◌,
}
use microbridge.Usb.Device.{disconnect}
use microbridge.Adb.Link.{
  unused, closed, opening, EventType, connection_close, connection_failed, Connection, Call, Adb,
}
use microbridge.Adb.Connection.{
  is, fire_event, visit, for_each, handle_close, close_if_open, close_all,
}
use microbridge.Adb.Discovery.{Configuration}
use microbridge.Adb.Poll.{usb_event_handler, is_device}

-- A connection after the device is gone: a used one is closed if it is persistent, and else retired.
abbrev pub torn_down : Connection → Connection
torn_down c =
    if is c.status unused || is c.status closed
    then c
    else record c { status = if c.reconnect then closed else unused }

-- The list of torn-down connections.
abbrev pub all_torn_down : List Connection → List Connection
all_torn_down [] = []
all_torn_down (c ∷ cs) = torn_down c ∷ all_torn_down cs

-- The record of calls after a handler is told of an event of a connection, if it is set.
abbrev pub told : Option ℕ → Connection → EventType → List Call → List Call
told none c event calls = calls
told (some handler) c event calls =
    record { handler = handler; connection = some c.local_id; event = event; bytes = [] } ∷ calls

-- The calls for a connection that is torn down: the global handler's, then its own.
abbrev pub end_calls : Option ℕ → Connection → List Call → List Call
end_calls global c calls =
    if is c.status unused || is c.status closed
    then calls
    else let event = if is c.status opening then connection_failed else connection_close in
      told c.event_handler c event (told global c event calls)

abbrev pub all_end_calls : Option ℕ → List Connection → List Call → List Call
all_end_calls global [] calls = calls
all_end_calls global (c ∷ cs) calls = all_end_calls global cs (end_calls global c calls)

close_one :
    (c : Connection) (a : Adb)
    → close_if_open c a
      ≡ some (torn_down c, record a { calls = end_calls a.event_handler c a.calls })
unfolding close_if_open handle_close fire_event
close_one c a = ground arith

close_visit :
    (cs : List Connection) (a : Adb)
    → visit close_if_open cs a
      ≡ some (all_torn_down cs, record a { calls = all_end_calls a.event_handler cs a.calls })
unfolding visit
close_visit [] a = refl
close_visit (c ∷ cs) a = ground (
  arith,
  close_one c a,
  close_visit cs (record a { calls = end_calls a.event_handler c a.calls }),
)

-- When the device in use is unplugged, the handler ends with no device and not connected; every
-- connection in use is closed if it is persistent, and else unused. For each of these the handlers
-- that are set are called once, with CLOSE, or with FAILED if it was being opened; no other event is
-- fired.
pub disconnect_teardown :
    (fuel index : ℕ) (handle : Configuration) (a : Adb)
    → is_device index a.device ≡ true
    → usb_event_handler fuel handle index disconnect a
      ≡ some (
        tt,
        record a {
          calls = all_end_calls a.event_handler a.connections a.calls;
          connections = all_torn_down a.connections;
          device = none;
          connected = false;
        },
      )
unfolding usb_event_handler close_all for_each
disconnect_teardown fuel index handle a h = ground (arith, close_visit a.connections a)
