-- ===== src/Examples/Receiving.antt =====
-- A payload that adb_handleWrite of src/mcu/adb.c takes in.
use microbridge.Base.{
  false, none, ◌||◌, ◌==◌, if◌then◌else◌, pos, negsuc, length, subst, ◌≡◌, ◌++◌, refl, some, u16,
  List, [], ◌∷◌, arith,
}
use microbridge.Shield.{millis, print}
use microbridge.Max3421e.{write, write_multiple, read, read_multiple}
use microbridge.Usb.Device.{bytes_from, fill}
use microbridge.Usb.Transfer.{Input, bulk_read, usb_read, dispatch_packet}
use microbridge.Usb.Output.{bulk_write, usb_write}
use microbridge.Adb.Link.{opened, Call, Connection, Adb, adb_read, adb_bulk_write, on_board}
use microbridge.Adb.Message.{Message, encode, empty_header, write_empty_message, a_wrte}
use microbridge.Adb.Connection.{handle_write, receive_packet, fire_event}
use microbridge.Adb.Receiving.{Receipts, handle_write-Receipts}
use microbridge.Avr.Serial.{Port}
use microbridge.Demo.{replay}
use microbridge.Adb.Delivery.{Delivers, over, brings}
use microbridge.Demo.Output.{Prints, logcat-Prints}
use microbridge.Examples.{board, at_wrap, outcome, shell, program, pipe}

-- Every register reads 0x84: a packet of 132 bytes is there.
abbrev sending : Adb
sending = program opened (board (λ _. 0x84) at_wrap)

abbrev payload : Message
payload = record {
  command = a_wrte;
  arg0 = 7;
  arg1 = 1;
  data_length = 132;
  data_check = 0;
  magic = 0;
}

abbrev taken : Connection × Adb
taken = outcome (handle_write 3 (shell opened) payload sending) (shell opened, sending)

taken_lem : handle_write 3 (shell opened) payload sending ≡ some taken
unfolding handle_write receive_packet adb_read bulk_read usb_read write dispatch_packet millis read
    read_multiple on_board print fire_event write_empty_message adb_bulk_write bulk_write usb_write
    encode empty_header write_multiple bytes_from fill
taken_lem = refl

handle_write-Receipts_example :
    Receipts 1 sending.calls taken.1.calls
    × (taken.0.status ≡ opened)
    × (taken.0.data_size ≡ u16 132)
handle_write-Receipts_example =
    handle_write-Receipts 3 (shell opened) taken.0 payload sending taken.1 taken_lem

-- The set-up of logcat.c: no global handler. A packet of four bytes is there, 9, 0, 11 and 12.
abbrev delivering : Adb
delivering =
    record (program opened (
      board
        (λ i.
          if i == 5
          then 4
          else if i == 7
          then 4
          else if i == 9 || i == 11 || i == 12
          then i
          else if i == 10
          then 0
          else 0x80)
        at_wrap)) { event_handler = none }

abbrev four : Message
four = record payload { data_length = 4 }

abbrev written : Connection × Adb
written = outcome (handle_write 3 (shell opened) four delivering) (shell opened, delivering)

abbrev fetched : Input × Adb
fetched =
    outcome (adb_read 3 4 false delivering)
      (record { result = negsuc 9; bytes = []; endpoint = pipe }, delivering)

written_lem : handle_write 3 (shell opened) four delivering ≡ some written
unfolding handle_write receive_packet adb_read bulk_read usb_read write dispatch_packet millis read
    read_multiple on_board print fire_event write_empty_message adb_bulk_write bulk_write usb_write
    encode empty_header write_multiple bytes_from fill
written_lem = refl

fetched_lem :
    (adb_read 3 4 false delivering ≡ some fetched)
    × (fetched.0.result ≡ pos 4)
    × (length fetched.0.bytes ≡ 4)
    × (fetched.0.bytes ++ [] ≡ 9 ∷ 0 ∷ 11 ∷ 12 ∷ [])
unfolding adb_read bulk_read usb_read write dispatch_packet millis read read_multiple
fetched_lem = (refl, refl, refl, refl)

delivering-Delivers : Delivers 3 4 delivering (9 ∷ 0 ∷ 11 ∷ 12 ∷ [])
delivering-Delivers =
    let (read, counted, size, bytes) = fetched_lem in
    subst (Delivers 3 4 delivering) bytes (brings fetched.0 (omega arith) read counted size over)

-- A serial port that is ready at every reading.
abbrev serial : Port
serial = record { status = λ _. 0x20; readings = 0; sent = [] }

logcat-Prints_example :
    (new : List Call) × (written.1.calls ≡ new ++ [])
    × Prints (replay 1 5 (λ _. 115 ∷ 104 ∷ []) new) serial (12 ∷ 11 ∷ 9 ∷ [])
logcat-Prints_example =
    logcat-Prints 3 1 5 (λ _. 115 ∷ 104 ∷ []) (shell opened) written.0 four delivering written.1
      (9 ∷ 0 ∷ 11 ∷ 12 ∷ []) serial delivering-Delivers (omega arith) refl refl written_lem
      (λ n. (0, omega arith, refl))
