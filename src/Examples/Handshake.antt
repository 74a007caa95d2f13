-- ===== src/Examples/Handshake.antt =====
-- The handshake of src/mcu/adb.c with a device that answers it.
use microbridge.Base.{
  ℕ, ◌+◌, ◌-◌, ◌*◌, ◌≡◌, refl, false, true, List, [], ◌∷◌, Option, some, none, arith, ltb, ◌==◌,
  ◌&&◌, get_or, if◌then◌else◌,
}
use microbridge.Shield.{millis, delay}
use microbridge.Max3421e
use microbridge.Max3421e.{read_multiple}
use microbridge.Usb.Device.{fill, bytes_from}
use microbridge.Usb.Transfer.{
  bulk_read, usb_read, read_loop, read_packet, finish_read, dispatch_packet, dispatch_loop,
  dispatch_round, wait_interrupt, wait_result, verdict,
}
use microbridge.Usb.Output.{bulk_write, usb_write}
use microbridge.Adb.Connection.{fire_global_event, call_handler, for_each, visit}
use microbridge.Max3421e.Ending.{IsLively}
use microbridge.Adb.Link.{
  connect, closed, Adb, on_board, adb_bulk_write, adb_read, adb_transfer, transfer,
}
use microbridge.Adb.Message.{
  Message, a_cnxn, header, encode, decode, checksum, poll_message, write_message,
  write_string_message,
}
use microbridge.Adb.Poll.{device_poll, handle_message, handle_connect, dispatch}
use microbridge.Adb.Ending.{Ready}
use microbridge.Adb.Ending.Polling.{before_message, Rest, device_poll-Returns}
use microbridge.Examples.{board, program, no_handle, outcome}

-- The answer: a CNXN message with a payload of four bytes.
abbrev answer_header : List ℕ
answer_header = encode (header a_cnxn 0x0100_0000 4096 (1 ∷ 2 ∷ 3 ∷ 4 ∷ []))

-- 76 exchanges send the greeting. In those that follow the chip reports that the 24 bytes of the header
-- have come in, then the four bytes of the payload; then only that a transfer is done.
abbrev answering : ℕ → ℕ
answering n =
    if n == 89
    then 0x84
    else if n == 91
    then 24
    else if ltb 92 n && ltb n 117
    then get_or answer_header (n - 93) 0
    else if n == 134
    then 0x84
    else if n == 136
    then 4
    else if ltb 137 n && ltb n 142
    then n
    else if ltb n 150
    then 0x80
    else 0x84

-- A device is in use, and not connected.
abbrev meeting : Adb
meeting = record (program closed (board answering (λ n. n * 1000))) { connected = false }

abbrev met : Adb
met = (outcome (device_poll 40 no_handle meeting) (tt, meeting)).1

-- The answer has been taken in: the device is connected, and the program has been told.
met_lem :
    (device_poll 40 no_handle meeting ≡ some (tt, met))
    × (met.connected ≡ true)
    × (met.calls
        ≡ record {
          handler = 4;
          connection = none;
          event = connect;
          bytes = 138 ∷ 139 ∷ 140 ∷ 141 ∷ [];
        }
          ∷ [])
unfolding device_poll write_string_message write_message adb_bulk_write bulk_write usb_write
    Max3421e.write Max3421e.write_multiple Max3421e.read Max3421e.read_multiple millis delay encode
    on_board poll_message adb_read adb_transfer transfer bulk_read usb_read read_loop read_packet
    finish_read dispatch_packet dispatch_loop dispatch_round wait_interrupt wait_result verdict
    decode fill header checksum handle_message handle_connect fire_global_event call_handler
    for_each visit dispatch bytes_from
met_lem = (refl, refl, refl)

-- Beyond the answer every transfer is done.
answered : (n : ℕ) → answering (n + 400) ≡ 0x84
unfolding encode header checksum
answered n = ground arith

meeting-IsLively : IsLively 201 meeting.host.shield
meeting-IsLively = record {
  done = λ n. (200, omega arith, rw (answered n) refl);
  idle = λ n. (200, omega arith, rw (answered n) refl);
  sampled = λ n. (200, omega arith, rw (answered n) refl);
  passes = λ n. (0, omega arith, omega arith);
}

device_poll-Returns_example :
    (o : Option Message) × (b : Adb) × (before_message 201 40_000 1
        (omega arith)
        (omega arith)
        no_handle
        meeting
      ≡ some (o, b))
    × Ready 201 1 b
    × Rest 201 40_000 1
        (omega arith)
        (omega arith)
        no_handle
        (device_poll 40_000 no_handle meeting)
        o
        b
device_poll-Returns_example =
    device_poll-Returns 201 40_000 1 (omega arith) (omega arith) no_handle meeting
      (refl, omega arith, meeting-IsLively)
