-- ===== src/Examples/Returning.antt =====
-- The USB layer on a board that answers NAK to every transfer, and whose clock moves a second a reading.
use microbridge.Base.{◌*◌, ◌≡◌, refl, true, arith, some, [], ◌∷◌}
use microbridge.Shield.{Shield}
use microbridge.Max3421e.Ending.{IsLively}
use microbridge.Usb.Constants.{descriptor_device}
use microbridge.Usb.Control.{descriptor_request, control_request}
use microbridge.Usb.Output.{bulk_write}
use microbridge.Usb.Transfer.{bulk_read}
use microbridge.Usb.Poll.{usb_poll}
use microbridge.Adb.Link.{Adb, opened}
use microbridge.Adb.Poll.{client}
use microbridge.Adb.Ending.Bus.{usb_poll-Returns}
use microbridge.Usb.Returning.{Returns, transfers_return}
use microbridge.Examples.{board, phone, program, no_handle}

abbrev refusing : Shield
refusing = board (λ _. 0x84) (λ n. n * 1000)

refusing-IsLively : IsLively 1 refusing
refusing-IsLively = record {
  done = λ n. (0, omega arith, refl);
  idle = λ n. (0, omega arith, refl);
  sampled = λ n. (0, omega arith, refl);
  passes = λ n. (0, omega arith, omega arith);
}

-- The phone is running, and a poll looks after it.
abbrev asking : Adb
asking = program opened refusing

usb_poll-Returns_example :
    (b : Adb) × (usb_poll (client 40_000 no_handle) 40_000 asking ≡ some (tt, b))
    × IsLively 1 b.host.shield
usb_poll-Returns_example =
    usb_poll-Returns 1 40_000 no_handle asking (omega arith) (omega arith) refusing-IsLively refl

transfers_return_example :
    Returns 1 (bulk_write 40_000 phone (1 ∷ [])) refusing
    × Returns 1 (bulk_read 40_000 phone 64 true) refusing
    × Returns 1
        (control_request 40_000 phone (descriptor_request descriptor_device 0 18 0) (some (λ _. 0)))
        refusing
unfolding descriptor_request
transfers_return_example =
    transfers_return 1 40_000 (omega arith) (omega arith) phone (1 ∷ []) 64 true
      (descriptor_request descriptor_device 0 18 0) (some (λ _. 0)) refusing refusing-IsLively
      (omega arith) (omega arith) (omega arith) (omega arith, omega arith, omega arith)
