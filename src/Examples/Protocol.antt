-- ===== src/Examples/Protocol.antt =====
-- The connections, messages and discovery of src/mcu/adb.c.
use microbridge.Base.{
  none, ◌++◌, equals, ℕ, ◌+◌, ◌-◌, ◌≡◌, refl, [], ◌∷◌, some, true, arith, ◌==◌, ℤ, pos, negsuc,
  if◌then◌else◌, length, get_or,
}
use microbridge.Shield.{millis}
use microbridge.Max3421e.{
  write, write_multiple, read, read_multiple, poll, interrupt_handler, gpx_interrupt_handler,
}
use microbridge.Usb.Constants.{attached_settle}
use microbridge.Usb.Device.{fill}
use microbridge.Usb.Host.{vbus_changed, settle_step}
use microbridge.Usb.Poll.{usb_poll, on_host, task_step}
use microbridge.Usb.Poll.Moves.{followed, may_step}
use microbridge.Usb.Poll.States.{usb_poll-moves}
use microbridge.Usb.Transfer.{Input, bulk_read, usb_read, dispatch_packet}
use microbridge.Usb.Output.{bulk_write, usb_write}
use microbridge.Adb.Link.{
  closed, opened, opening, writing, Connection, Adb, adb_read, adb_bulk_write,
}
use microbridge.Adb.Message.{Message, encode, decode, packet_size, poll_message, write_message}
use microbridge.Adb.Connection.{open_closed, handle_close, add_connection, close_if_open}
use microbridge.Adb.Connection
use microbridge.Adb.Poll.{client, dispatch}
use microbridge.Adb.Codec.{IsWord, decode-encode}
use microbridge.Adb.History.{Step, received, Lives, dropped, start, then_step, History-Lives}
use microbridge.Adb.Flow.{Waiting, sent, goes_on, okayed, open_calls, write-write}
use microbridge.Adb.Incoming.{poll_message-any_magic}
use microbridge.Adb.Enumeration.{client-IsCalm}
use microbridge.Shield.{Shield}
use microbridge.Max3421e
use microbridge.Examples.{board, at_wrap, outcome, pipe, shell, program, no_handle, okay}

-- A bus of full speed whose device has settled.
abbrev settled : Adb
settled = program closed (record (board (λ _. 0) (λ n. n + 1000)) { vbus_state = 3 })

abbrev polled : (Unit {0}) × Adb
polled = outcome (usb_poll (client 2 no_handle) 2 settled) (tt, settled)

polled_lem : usb_poll (client 2 no_handle) 2 settled ≡ some polled
unfolding usb_poll on_host poll interrupt_handler read write gpx_interrupt_handler vbus_changed
    task_step settle_step millis
polled_lem = refl

usb_poll-moves_example :
    (r : ℕ) × (board : Shield) × (Max3421e.poll settled.host.shield ≡ some (r, board))
    × (may_step (followed board.vbus_state attached_settle) polled.1.host.task_state ≡ true)
usb_poll-moves_example =
    usb_poll-moves (client 2 no_handle) (client-IsCalm 2 no_handle) 2 settled polled.1 polled_lem

okay-IsWord : IsWord okay
okay-IsWord = record {
  command = omega arith;
  arg0 = omega arith;
  arg1 = omega arith;
  data_length = omega arith;
  data_check = omega arith;
  magic = omega arith;
}

decode-encode_example : (length (encode okay) ≡ 24) × (decode (fill (encode okay) (λ i. i)) ≡ okay)
decode-encode_example = decode-encode okay (λ i. i) okay-IsWord

-- Unplugging closes the connection.
abbrev closing : Connection × Adb
closing = outcome (close_if_open (shell opened) settled) (shell opened, settled)

closing_lem : close_if_open (shell opened) settled ≡ some closing
unfolding close_if_open Connection.handle_close Connection.fire_event
closing_lem = refl

abbrev unplugged : Step 2 no_handle (shell opened) closing.0
unplugged = dropped settled closing.1 closing_lem

History-Lives_example : Lives 2 no_handle (shell opened) closing.0
History-Lives_example = History-Lives 2 no_handle (then_step start unplugged)

-- The chip ends every transfer at once, with success.
abbrev ready : Adb
ready = program opened (board (λ _. 0x80) (λ _. 0))

abbrev written : (ℤ × Connection) × Adb
written =
    outcome (Connection.write 9 (shell opened) (1 ∷ 2 ∷ []) ready) ((negsuc 9, shell opened), ready)

written_lem :
    Connection.write 9 (shell opened) (1 ∷ 2 ∷ []) ready ≡ some ((pos 0, written.0.1), written.1)
unfolding Connection.write write_message adb_bulk_write bulk_write usb_write write millis encode
    write_multiple read
written_lem = refl

-- An OKAY for another connection comes in, and does not count.
abbrev other_okay : Message
other_okay = record okay { arg1 = 9 }

other_lem : dispatch 9 no_handle other_okay written.0.1 written.1 ≡ some (written.0.1, written.1)
unfolding dispatch Connection.write write_message adb_bulk_write bulk_write usb_write encode write
    write_multiple read millis
other_lem = refl

own_lem : okay.arg1 ≡ written.0.1.local_id
unfolding Connection.write write_message adb_bulk_write bulk_write usb_write encode write
    write_multiple read millis
own_lem = refl

waited : Waiting 9 no_handle written.0.1 written.0.1
unfolding Connection.write write_message adb_bulk_write bulk_write usb_write encode write
    write_multiple read millis
waited = goes_on sent (received other_okay written.1 written.1 other_lem) refl

write-write_example :
    (Connection.write 9 written.0.1 (3 ∷ []) ready ≡ some ((negsuc 1, written.0.1), ready))
    × (Connection.write_string 9 written.0.1 (3 ∷ []) ready ≡ some ((negsuc 1, written.0.1), ready))
    × ((y : Adb) × (dispatch 9 no_handle okay written.0.1 ready ≡ some (okayed written.0.1 okay, y))
        × (y ≡ (
            if Connection.is written.0.1.status opening
            then record ready { calls = open_calls (some 4) written.0.1 [] }
            else ready)))
write-write_example =
    write-write 9 no_handle (shell opened) written.0.1 written.0.1 (1 ∷ 2 ∷ []) (3 ∷ []) ready
      written.1 ready okay written_lem waited refl own_lem

-- A header waits in the FIFO: its size is the fourth byte that the chip is asked for.
abbrev sending : Adb
sending = program writing (
    board (λ i. if i == 5 then 4 else if i == 7 then 24 else get_or (encode okay) (i - 9) 0)
      at_wrap)

abbrev no_input : Input
no_input = record { result = negsuc 9; bytes = []; endpoint = pipe }

abbrev incoming : Input × Adb
incoming = outcome (adb_read 1 packet_size true sending) (no_input, sending)

incoming_lem : adb_read 1 packet_size true sending ≡ some incoming
unfolding adb_read encode bulk_read usb_read write dispatch_packet millis read read_multiple
incoming_lem = refl

incoming-bytes : incoming.0.bytes ≡ encode okay ++ []
unfolding encode adb_read bulk_read usb_read write dispatch_packet millis read read_multiple
incoming-bytes = refl

-- The transfer has brought 24 bytes, so the message is let in.
incoming-result : incoming.0.result ≡ pos 24
unfolding adb_read encode bulk_read usb_read write dispatch_packet millis read read_multiple
incoming-result = refl

poll_message-any_magic_example :
    poll_message 1 true sending
    ≡ some (if equals incoming.0.result 24 then some okay else none, incoming.1)
poll_message-any_magic_example =
    poll_message-any_magic 1 true incoming.0 okay [] sending incoming.1 incoming_lem incoming-bytes
      okay-IsWord
