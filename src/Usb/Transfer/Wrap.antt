-- ===== src/Usb/Transfer/Wrap.antt =====
-- usb_dispatchPacket (src/mcu/max3421e/max3421e_usb.c) in the last five seconds before the millisecond
-- count wraps.
use microbridge.Base.{ℕ, suc, ◌+◌, ◌^◌, ◌≤◌, ◌≡◌, some, arith, u32}
use microbridge.Shield.{Shield, millis}
use microbridge.Usb.Constants.{xfer_timeout}
use microbridge.Usb.Device.{Endpoint}
use microbridge.Usb.Transfer.{dispatch_loop, dispatch_packet}

-- Where the timeout wraps and the clock does not before it is read again, the success code 0 comes back
-- and nothing has been sent.
pub dispatch_packet-wraps :
    (fuel token limit : ℕ) (e : Endpoint) (s : Shield)
    → 2 ^ 32 ≤ u32 (s.clock s.readings) + xfer_timeout
    → u32 (s.clock s.readings) ≤ u32 (s.clock (s.readings + 1))
    → dispatch_packet (suc fuel) token e limit s
      ≡ some (0, record s { readings = s.readings + 1 + 1 })
unfolding dispatch_packet dispatch_loop millis
dispatch_packet-wraps fuel token limit e s wraps later = ground arith
