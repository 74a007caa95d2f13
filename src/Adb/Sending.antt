-- ===== src/Adb/Sending.antt =====
-- What adb_write (src/mcu/adb.c) sends to the phone.
use microbridge.Base.{
  ℕ, ◌<◌, ◌≡◌, refl, true, List, ◌++◌, some, arith, ◌==◌, if◌then◌else◌, u8, pos, ◌∙◌, ◌+◌, sym,
  subst,
}
use microbridge.Usb.Output.{bulk_write}
use microbridge.Usb.Output.Loaded.{loaded}
use microbridge.Usb.Output.Sending.{
  Acknowledges, Later, Acknowledges-Later, exchanges_for, loaded-then, Later-trans,
  usb_write-loaded,
}
use microbridge.Adb.Link.{opened, writing, Connection, Adb, adb_bulk_write}
use microbridge.Adb.Message.{encode, header, write_message, a_wrte}
use microbridge.Adb.Connection.{write}

-- The packet size of the OUT endpoint of the device i.
abbrev pub size_of : ℕ → Adb → ℕ
size_of i a = u8 (a.host.table i).bulk_out.max_packet_size

-- The device i is in use, its OUT endpoint has a packet size, and in the next `count` exchanges the chip
-- acknowledges every transfer.
abbrev pub Receives : (count i : ℕ) → Adb → Type 0
Receives count i a = (a.device ≡ some i) × (0 < size_of i a) × Acknowledges count a.host.shield

-- From `a` to `b` the bytes have gone out, in `count` exchanges; only the state of the host has changed, and
-- not the packet size.
abbrev pub Sent : (count i : ℕ) → List ℕ → Adb → Adb → Type 0
Sent count i bytes a b =
    (loaded b.host.shield ≡ loaded a.host.shield ++ bytes)
    × (b ≡ record a { host = b.host })
    × (size_of i b ≡ size_of i a)
    × Later count a.host.shield b.host.shield

bulk_write-Sent :
    (fuel i : ℕ) (bytes : List ℕ) (a : Adb)
    → 0 < fuel
    → Receives (exchanges_for (size_of i a) bytes) i a
    → (b : Adb) × (adb_bulk_write fuel bytes a ≡ some (0, b))
      × Sent (exchanges_for (size_of i a) bytes) i bytes a b
unfolding adb_bulk_write bulk_write
bulk_write-Sent fuel i bytes a some_fuel (used, size, acks) =
    let d = a.host.table i in
    let (toggle, t, ends, bytes_loaded, later) =
      usb_write-loaded fuel d.address d.bulk_out bytes a.host.shield acks some_fuel size in
    let host = a.host in
    let after = record d { bulk_out = record (d.bulk_out) { send_toggle = toggle } } in
    (
      record a {
        host = record host { shield = t; table = λ j. if j == i then after else host.table j };
      },
      ground (arith, ends),
      (bytes_loaded, refl, ground arith, later),
    )

-- The bytes of a message.
unfoldable pub message_bytes : (command arg0 arg1 : ℕ) → (payload : List ℕ) → List ℕ
message_bytes command arg0 arg1 payload = encode (header command arg0 arg1 payload) ++ payload

-- The exchanges of a message that is sent with packets of `size` bytes.
abbrev pub exchanges_with : (size command arg0 arg1 : ℕ) → (payload : List ℕ) → ℕ
exchanges_with size command arg0 arg1 payload =
    exchanges_for size (encode (header command arg0 arg1 payload)) + exchanges_for size payload

-- A message with a payload is its header, then the payload.
pub write_message-Sent :
    (fuel i command arg0 arg1 : ℕ) (payload : List ℕ) (a : Adb)
    → 0 < fuel
    → Receives (exchanges_with (size_of i a) command arg0 arg1 payload) i a
    → (b : Adb) × (write_message fuel command arg0 arg1 payload a ≡ some (0, b))
      × Sent
          (exchanges_with (size_of i a) command arg0 arg1 payload)
          i
          (message_bytes command arg0 arg1 payload)
          a
          b
unfolding write_message message_bytes
write_message-Sent fuel i command arg0 arg1 payload a some_fuel (used, size, acks) =
    let head = encode (header command arg0 arg1 payload) in
    let first = exchanges_for (size_of i a) head in
    let second = exchanges_for (size_of i a) payload in
    let board = a.host.shield in
    let (b, ends1, (loaded1, frame1, same1, later1)) = bulk_write-Sent fuel i head a some_fuel (
      used,
      size,
      Acknowledges-Later 0 first (first + second) board board (refl, omega arith) (omega arith)
          acks,
    ) in
    let ready : Acknowledges (exchanges_for (size_of i b) payload) b.host.shield =
      subst (λ n. Acknowledges (exchanges_for n payload) b.host.shield) (sym same1)
        (Acknowledges-Later first second (first + second) board b.host.shield later1 (omega arith)
          acks) in
    let (c, ends2, (loaded2, frame2, same2, later2)) =
      bulk_write-Sent fuel i payload b some_fuel
        (ground (arith, frame1, used), ground (arith, same1, size), ready) in
    let later : Later second b.host.shield c.host.shield =
      subst (λ n. Later (exchanges_for n payload) b.host.shield c.host.shield) same1 later2 in
    (
      c,
      ground (arith, ends1, ends2),
      (
        loaded-then (loaded board) head payload (head ++ payload) (loaded b.host.shield)
            (loaded c.host.shield) loaded2 loaded1 refl,
        ground (arith, frame1, frame2),
        same2 ∙ same1,
        Later-trans first second board b.host.shield c.host.shield later1 later,
      ),
    )

-- Where the chip acknowledges every transfer for the exchanges that the message takes, adb_write on an open
-- connection of a connected device with an OUT endpoint that has a packet size returns 0. It has sent the
-- WRTE header for the payload, with the ids of the connection, and then the payload, and nothing else; the
-- connection is writing, and only the state of the host has changed besides.
pub write-sends :
    (fuel i : ℕ) (c : Connection) (bytes : List ℕ) (a : Adb)
    → 0 < fuel
    → Receives (exchanges_with (size_of i a) a_wrte c.local_id c.remote_id bytes) i a
    → a.connected ≡ true
    → c.status ≡ opened
    → (b : Adb) × (write fuel c bytes a ≡ some ((pos 0, record c { status = writing }), b))
      × (loaded b.host.shield
          ≡ loaded a.host.shield ++ message_bytes a_wrte c.local_id c.remote_id bytes)
      × (b ≡ record a { host = b.host })
unfolding write
write-sends fuel i c bytes a some_fuel ready up open_state =
    let (b, ends, (bytes_loaded, frame, _, _)) =
      write_message-Sent fuel i a_wrte c.local_id c.remote_id bytes a some_fuel ready in
    (b, ground (arith, ends, ready.0), bytes_loaded, frame)
