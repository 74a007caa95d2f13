-- ===== src/Examples/Usb.antt =====
-- The transfers, requests and enumeration of src/mcu/max3421e/max3421e_usb.c.
use microbridge.Usb.Output.{usb_write}
use microbridge.Usb.Output.Loaded.{loaded}
use microbridge.Usb.Output.Sending.{Later, exchanges_for, usb_write-loaded}
use microbridge.Base.{
  ◌++◌, ◌∷◌, ℕ, ◌+◌, ◌<◌, ◌≡◌, refl, ◌⊎◌, [], Option, none, some, arith, ltb, ℤ, pos, negsuc,
  if◌then◌else◌, length,
}
use microbridge.Shield.{Shield, millis}
use microbridge.Max3421e.{write, write_multiple, read, read_multiple}
use microbridge.Usb.Constants.{nak_limit, request_set_address, req_set}
use microbridge.Max3421e.Constants.{tok_in}
use microbridge.Usb.Device.{Endpoint, Device, Memory}
use microbridge.Usb.Transfer.{dispatch_packet, Input, usb_read}
use microbridge.Usb.Transfer.Termination.{Ends, IsResult, dispatch_packet-Ends}
use microbridge.Usb.Transfer.Reading.{Read, usb_read-Read}
use microbridge.Usb.Transfer.Wrap.{dispatch_packet-wraps}
use microbridge.Usb.Control.{get_string, narrow, Request, setup_packet, control_request, narrow}
use microbridge.Usb.Control.Errors.{Concluded, set_up, control_request-result}
use microbridge.Examples.{board, at_wrap, outcome, pipe, phone}

-- The clock passes the timeout at the third reading, and the chip sends nothing but zeros.
abbrev slow : Shield
slow = board (λ _. 0) (λ n. if ltb n 3 then n else 6000)

dispatch_packet-Ends_example : Ends (dispatch_packet 4 tok_in pipe nak_limit) IsResult slow
dispatch_packet-Ends_example =
    dispatch_packet-Ends 4 tok_in nak_limit 3 pipe slow (λ n le. ground arith) (omega arith)

-- The timeout has wrapped, and four bytes are in the FIFO.
abbrev wrapped : Shield
wrapped = board (λ _. 4) at_wrap

dispatch_packet-wraps_example :
    dispatch_packet 1 tok_in pipe nak_limit wrapped ≡ some (0, record wrapped { readings = 2 })
dispatch_packet-wraps_example =
    dispatch_packet-wraps 0 tok_in nak_limit pipe wrapped (omega arith) (omega arith)

abbrev nothing_read : Input
nothing_read = record { result = pos 0; bytes = []; endpoint = pipe }

abbrev four_bytes : Input × Shield
four_bytes = outcome (usb_read 1 1 pipe 64 nak_limit wrapped) (nothing_read, wrapped)

four_bytes_lem : usb_read 1 1 pipe 64 nak_limit wrapped ≡ some four_bytes
unfolding usb_read write dispatch_packet millis read read_multiple
four_bytes_lem = refl

usb_read-Read_example : Read pipe four_bytes.0 × (length four_bytes.0.bytes < 64 + 256)
usb_read-Read_example =
    usb_read-Read 1 1 64 nak_limit pipe four_bytes.0 wrapped four_bytes.1 (omega arith)
      four_bytes_lem

abbrev address_request : Request
address_request = record {
  request_type = req_set;
  request = request_set_address;
  value_low = 1;
  value_high = 0;
  index = 0;
  length = 0;
}

abbrev requested : (ℤ × Device × Option Memory) × Shield
requested =
    outcome (control_request 1 phone address_request none wrapped)
      ((negsuc 1, phone, none), wrapped)

requested_lem : control_request 1 phone address_request none wrapped ≡ some requested
unfolding control_request write write_multiple setup_packet dispatch_packet millis
requested_lem = refl

control_request-result_example :
    ((requested.0.0 ≡ pos 0) ⊎ (requested.0.0 ≡ negsuc 0) ⊎ (requested.0.0 ≡ negsuc 2))
    × ((q : ℕ) × (u : Shield) × (set_up 1 phone address_request wrapped ≡ some (q, u))
        × Concluded 1 q phone requested.0.1 address_request none requested.0.2 requested.0.0 u
            requested.1)
control_request-result_example =
    control_request-result 1 phone requested.0.1 address_request none requested.0.2 requested.0.0
      wrapped requested.1 requested_lem

abbrev stringed : (ℤ × Device × Memory) × Shield
stringed =
    outcome (get_string 1 phone 0 0 4 (λ i. i) wrapped) ((negsuc 9, phone, (λ _. 0)), wrapped)

-- The chip acknowledges at once, and the packets are of two bytes.
abbrev eager : Shield
eager = board (λ _. 0x80) (λ _. 0)

abbrev narrow_pipe : Endpoint
narrow_pipe = record pipe { max_packet_size = 2 }

usb_write-loaded_example :
    (toggle : ℕ) × (t : Shield) × (usb_write 1 3 narrow_pipe (1 ∷ 2 ∷ 3 ∷ []) eager
      ≡ some ((0, record narrow_pipe { send_toggle = toggle }), t))
    × (loaded t ≡ loaded eager ++ (1 ∷ 2 ∷ 3 ∷ []))
    × Later (exchanges_for 2 (1 ∷ 2 ∷ 3 ∷ [])) eager t
usb_write-loaded_example =
    usb_write-loaded 1 3 narrow_pipe (1 ∷ 2 ∷ 3 ∷ []) eager (λ n lt. (refl, refl)) (omega arith)
      (omega arith)
