-- ===== src/Adb/Dialogue.antt =====
-- What a connection of src/mcu/adb.c sends from its opening to its first payload: adb_openClosedConnections,
-- adb_handleOkay and adb_write one after the other.
use microbridge.Base.{
  ℕ, ◌+◌, ◌<◌, ◌≡◌, refl, true, List, [], ◌∷◌, ◌++◌, some, arith, pos, u32, sub32,
}
use microbridge.Shield.{millis}
use microbridge.Max3421e.Access.{accesses}
use microbridge.Usb.Output.Loaded.{loaded}
use microbridge.Adb.Link.{Connection, Adb, closed, opened, opening, writing, on_board}
use microbridge.Adb.Flow.{open_calls}
use microbridge.Adb.Message.{Message, a_open, a_okay, a_wrte, write_string_message}
use microbridge.Adb.Connection.{open_closed, handle_okay, fire_event, write}
use microbridge.Adb.Discovery.{Configuration}
use microbridge.Adb.Poll.{dispatch}
use microbridge.Adb.Sending.{
  Receives, size_of, message_bytes, exchanges_with, write_message-Sent, write-sends,
}

-- More than 1000 ms have passed since the last attempt.
abbrev pub IsDue : Connection → Adb → Type 0
IsDue c a =
    1000 < sub32 (u32 (a.host.shield.clock a.host.shield.readings)) c.last_connection_attempt

-- The string with its final zero.
abbrev pub service : Connection → List ℕ
service c = c.connection_string ++ 0 ∷ []

-- From `a` to `b` the device has been sent the message, and only the state of the host has changed.
abbrev pub Says : (command arg0 arg1 : ℕ) → List ℕ → Adb → Adb → Type 0
Says command arg0 arg1 payload a b =
    (loaded b.host.shield ≡ loaded a.host.shield ++ message_bytes command arg0 arg1 payload)
    × (b ≡ record a { host = b.host })

open_closed-Says :
    (fuel i : ℕ) (c : Connection) (a : Adb)
    → 0 < fuel
    → c.status ≡ closed
    → IsDue c a
    → Receives (exchanges_with (size_of i a) a_open c.local_id 0 (service c)) i a
    → (now : ℕ) × (b : Adb) × (open_closed fuel c a
        ≡ some (record c { last_connection_attempt = now; status = opening }, b))
      × Says a_open c.local_id 0 (service c) a b
unfolding open_closed write_string_message on_board millis loaded accesses
open_closed-Says fuel i c a some_fuel shut due receives =
    let host = a.host in
    let board = a.host.shield in
    let read : Adb = record a {
      host = record host { shield = record board { readings = board.readings + 1 } };
    } in
    let (d, sent, (bytes_loaded, frame, _, _)) =
      write_message-Sent fuel i a_open c.local_id 0 (service c) read some_fuel receives in
    let host' = d.host in
    let board' = d.host.shield in
    (
      u32 (board'.clock board'.readings),
      record d {
        host = record host' { shield = record board' { readings = board'.readings + 1 } };
      },
      ground (arith, sent),
      (bytes_loaded, ground (arith, frame)),
    )

-- The OKAY for an attempt opens the connection, and tells the handlers.
dispatch-opens :
    (fuel : ℕ) (handle : Configuration) (m : Message) (c : Connection) (a : Adb)
    → c.status ≡ opening
    → m.command ≡ a_okay
    → m.arg1 ≡ c.local_id
    → dispatch fuel handle m c a
      ≡ some (
        record c { status = opened; remote_id = m.arg0 },
        record a { calls = open_calls a.event_handler c a.calls },
      )
unfolding dispatch handle_okay fire_event
dispatch-opens fuel handle m c a waiting okay own = ground arith

-- A closed connection whose last attempt is more than 1000 ms ago is opened with an OPEN message, with its
-- id and its string; the OKAY for that makes it open, remembers the id that the device has given it, and
-- tells both handlers once; and then adb_write sends a WRTE message with these two ids and the payload.
-- Each of the two messages goes out whole and alone, if the chip acknowledges every transfer for the
-- exchanges that it takes, whatever has come between the three steps.
pub write-open_closed :
    (fuel i : ℕ) (handle : Configuration) (c : Connection) (m : Message) (bytes : List ℕ)
    (a x y : Adb)
    → 0 < fuel
    → c.status ≡ closed
    → IsDue c a
    → Receives (exchanges_with (size_of i a) a_open c.local_id 0 (service c)) i a
    → m.command ≡ a_okay
    → m.arg1 ≡ c.local_id
    → y.connected ≡ true
    → Receives (exchanges_with (size_of i y) a_wrte c.local_id m.arg0 bytes) i y
    → (d : Connection) × (e : Connection) × (b : Adb) × (z : Adb) × (open_closed fuel c a
        ≡ some (d, b))
      × Says a_open c.local_id 0 (service c) a b
      × (d ≡ record c { last_connection_attempt = d.last_connection_attempt; status = opening })
      × (dispatch fuel handle m d x
          ≡ some (e, record x { calls = open_calls x.event_handler d x.calls }))
      × (e ≡ record d { status = opened; remote_id = m.arg0 })
      × (write fuel e bytes y ≡ some ((pos 0, record e { status = writing }), z))
      × Says a_wrte c.local_id m.arg0 bytes y z
write-open_closed fuel i handle c m bytes a x y some_fuel shut due receives okay own up receives' =
    let (now, b, sent, says) = open_closed-Says fuel i c a some_fuel shut due receives in
    let d = record c { last_connection_attempt = now; status = opening } in
    let e = record d { status = opened; remote_id = m.arg0 } in
    let (z, written, loaded', frame) = write-sends fuel i e bytes y some_fuel receives' up refl in
    (
      d,
      e,
      b,
      z,
      sent,
      says,
      refl,
      dispatch-opens fuel handle m d x refl okay own,
      refl,
      written,
      (loaded', frame),
    )
