-- ===== src/Adb/Ending.antt =====
-- The functions of src/mcu/adb.c on a board that does not stall: what a poll does before a message comes
-- in always comes back.
pub mod Bus
pub mod Polling
use microbridge.Base.{
  ℕ, ◌+◌, ◌≤◌, ◌<◌, ◌≡◌, refl, ap, ◌∙◌, sym, subst, inl, inr, Bool, true, false, List, Option, none,
  some, arith, ◌==◌, equals, is_neg, is_zero, u16, ltb, if◌then◌else◌,
}
use microbridge.Base.Run.{Cmd, pure, ◌>>=◌}
use microbridge.Base.Ends.{
  IsEnding, pure-IsEnding, get-IsEnding, modify-IsEnding, bind-IsEnding, if_IsEnding,
}
use microbridge.Shield.{Shield, millis, delay}
use microbridge.Max3421e.Ending.{IsLively, Ending, millis-Ending, delay-Ending}
use microbridge.Usb.Constants.{nak_limit, retry_limit}
use microbridge.Usb.Device.{Device, Endpoint, Memory, fill, bytes_from}
use microbridge.Usb.Transfer.{Input, bulk_read, usb_read}
use microbridge.Usb.Transfer.Reading.{Read, usb_read-Read}
use microbridge.Usb.Transfer.Ending.Reading.{usb_read-Ending}
use microbridge.Usb.Output.{bulk_write}
use microbridge.Usb.Output.Ending.{usb_write-Ending}
use microbridge.Adb.Link.{
  Adb, Connection, on_board, transfer, adb_transfer, adb_read, adb_bulk_write,
}
use microbridge.Adb.Link
use microbridge.Adb.Message.{
  Message, decode, packet_size, write_message, write_string_message, poll_message,
}
use microbridge.Adb.Connection.{call_handler, fire_global_event, open_closed}
use microbridge.Adb.Poll.{handle_connect}

-- The IN endpoint has a packet size.
abbrev pub Usable : Device → Type 0
Usable d = 0 < d.bulk_in.max_packet_size

-- The device i is in use, and its board does not stall.
abbrev pub Ready : (rounds i : ℕ) → Adb → Type 0
Ready rounds i a = (a.device ≡ some i) × Usable (a.host.table i) × IsLively rounds a.host.shield

-- A transfer comes back, and the device stays usable.
abbrev Serving : (rounds : ℕ) → {A : Type 0} → (Device → Cmd Shield (A × Device)) → Type 0
Serving rounds {A} m =
    (d : Device)
    → Usable d
    → (s : Shield) → IsLively rounds s
    → (r : A) × (e : Device) × (t : Shield) × (m d s ≡ some ((r, e), t))
      × Usable e
      × IsLively rounds t

Read-size : (e : Endpoint) (i : Input) → Read e i → i.endpoint.max_packet_size ≡ e.max_packet_size
Read-size e i (inl (_, same)) = ap (λ e. e.max_packet_size) same
Read-size e i (inr (_, inl same)) = ap (λ e. e.max_packet_size) same
Read-size e i (inr (_, inr same)) = ap (λ e. e.max_packet_size) same

module _ (rounds fuel i : ℕ) (enough : rounds ≤ fuel) (tries : nak_limit + retry_limit ≤ fuel) where
  abbrev Returning : {A : Type 0} → Cmd Adb A → Type 0
  Returning m = IsEnding (Ready rounds i) m

  adb_transfer-Returning :
      {A : Type 0} {m : Device → Cmd Shield (A × Device)}
      → Serving rounds m
      → Returning (adb_transfer m)
  unfolding adb_transfer transfer
  adb_transfer-Returning {A} {m} serving = record {
    ends = λ a (used, size, p).
        let (r, e, t, same, size', q) = serving (a.host.table i) size a.host.shield p in
        let host = a.host in
        (
          r,
          record a {
            host = record host { shield = t; table = λ j. if j == i then e else host.table j };
          },
          ground (arith, used, same),
          (used, ground arith, q),
        );
  }

  on_board-Returning : {A : Type 0} {m : Cmd Shield A} → Ending rounds m → Returning (on_board m)
  unfolding on_board
  on_board-Returning {A} {m} ending = record {
    ends = λ a (used, size, p).
        let (r, t, same, q) = ending.ends a.host.shield p in
        let host = a.host in
        (r, record a { host = record host { shield = t } }, ground (arith, same), (used, size, q));
  }

  bulk_write-Serving : (bytes : List ℕ) → Serving rounds (λ d. bulk_write fuel d bytes)
  unfolding bulk_write
  bulk_write-Serving bytes d size s p =
      let ((rcode, endpoint), t, e, q) =
        (usb_write-Ending rounds fuel enough tries d.address d.bulk_out bytes).ends s p in
      (rcode, record d { bulk_out = endpoint }, t, ground (arith, e), size, q)

  pub adb_bulk_write-Returning : (bytes : List ℕ) → Returning (adb_bulk_write fuel bytes)
  unfolding adb_bulk_write
  adb_bulk_write-Returning bytes = adb_transfer-Returning (bulk_write-Serving bytes)

  usb_read-Usable :
      (limit length : ℕ)
      → 0 < limit
      → limit ≤ nak_limit
      → length ≤ 0xff00
      → length < fuel
      → (d : Device) (s : Shield) → Usable d
      → IsLively rounds s
      → (input : Input) × (t : Shield) × (usb_read fuel d.address d.bulk_in length limit s
          ≡ some (input, t))
        × Usable (record d { bulk_in = input.endpoint })
        × IsLively rounds t
  usb_read-Usable limit length pos small short more d s size p =
      let (input, t, e, q) =
        (usb_read-Ending rounds fuel enough d.address d.bulk_in length limit pos (omega arith)
            (omega arith) size short more).ends
          s p in
      let (way, _) =
        usb_read-Read fuel d.address length limit d.bulk_in input s t (omega arith) e in
      (input, t, e, omega (arith, Read-size d.bulk_in input way), q)

  bulk_read-Serving :
      (length : ℕ) (poll : Bool)
      → length ≤ 0xff00
      → length < fuel
      → Serving rounds (λ d. bulk_read fuel d length poll)
  unfolding bulk_read
  bulk_read-Serving length poll short more d size s p =
      let (input, t, e, size', q) =
        usb_read-Usable (if poll then 1 else nak_limit) length (ground arith) (ground arith) short
          more d s size p in
      (input, record d { bulk_in = input.endpoint }, t, ground (arith, e), size', q)

  pub adb_read-Returning :
      (length : ℕ) (poll : Bool)
      → length ≤ 0xff00
      → length < fuel
      → Returning (adb_read fuel length poll)
  unfolding adb_read
  adb_read-Returning length poll short more =
      adb_transfer-Returning (bulk_read-Serving length poll short more)

  write_message-Returning :
      (command arg0 arg1 : ℕ) (bytes : List ℕ)
      → Returning (write_message fuel command arg0 arg1 bytes)
  unfolding write_message
  write_message-Returning command arg0 arg1 bytes =
      bind-IsEnding (adb_bulk_write-Returning _) λ rcode.
        if_IsEnding (rcode == 0) (adb_bulk_write-Returning bytes) (pure-IsEnding {a = rcode})

  pub write_string_message-Returning :
      (command arg0 arg1 : ℕ) (str : List ℕ)
      → Returning (write_string_message fuel command arg0 arg1 str)
  unfolding write_string_message
  write_string_message-Returning command arg0 arg1 str = write_message-Returning command arg0 arg1 _

  pub pause-Returning : Returning (on_board (delay fuel 500))
  pause-Returning = on_board-Returning (delay-Ending rounds fuel 500 enough (omega arith))

  pub poll_message-Returning : (poll : Bool) → Returning (poll_message fuel poll)
  unfolding poll_message
  poll_message-Returning poll = bind-IsEnding get-IsEnding λ a.
      bind-IsEnding (adb_read-Returning packet_size poll (omega arith) (omega arith)) λ input.
        if_IsEnding (is_neg input.result) (pure-IsEnding {a = none}) (
          if_IsEnding (equals input.result 24)
            (pure-IsEnding {a = some (decode (fill input.bytes a.host.stack))})
            (pure-IsEnding {a = none}))
