-- ===== src/Usb/Returning.antt =====
-- The transfers of src/mcu/max3421e/max3421e_usb.c on a board that does not stall: each returns.
use microbridge.Base.{ℕ, ◌+◌, ◌≤◌, ◌<◌, ◌≡◌, Bool, true, false, List, Option, some, arith}
use microbridge.Base.Ends.{pure-IsEnding, bind-IsEnding}
use microbridge.Base.Run.{Cmd}
use microbridge.Shield.{Shield}
use microbridge.Max3421e.Ending.{IsLively, Ending}
use microbridge.Usb.Constants.{nak_limit, retry_limit}
use microbridge.Usb.Device.{Device, Memory}
use microbridge.Usb.Transfer.{bulk_read}
use microbridge.Usb.Transfer.Ending.Reading.{usb_read-Ending}
use microbridge.Usb.Output.{bulk_write}
use microbridge.Usb.Output.Ending.{usb_write-Ending}
use microbridge.Usb.Control.{Request, control_request}
use microbridge.Usb.Control.Ending.{Served, control_request-Ending}

-- The command comes back, and the board still does not stall.
abbrev pub Returns : (rounds : ℕ) → {A : Type 0} → Cmd Shield A → Shield → Type 0
Returns rounds {A} m s = (a : A) × (t : Shield) × (m s ≡ some (a, t)) × IsLively rounds t

module _ (rounds fuel : ℕ) (enough : rounds ≤ fuel) (tries : nak_limit + retry_limit ≤ fuel) where
  bulk_write-Ending :
      (device : Device) (bytes : List ℕ) → Ending rounds (bulk_write fuel device bytes)
  unfolding bulk_write
  bulk_write-Ending device bytes =
      bind-IsEnding (usb_write-Ending rounds fuel enough tries device.address device.bulk_out bytes)
        λ (rcode, endpoint). pure-IsEnding {a = (rcode, record device { bulk_out = endpoint })}

  bulk_read-Ending :
      (device : Device) (length : ℕ) (poll : Bool)
      → 0 < device.bulk_in.max_packet_size
      → length ≤ 0xff00
      → length < fuel
      → Ending rounds (bulk_read fuel device length poll)
  unfolding bulk_read
  bulk_read-Ending device length true size short more =
      bind-IsEnding
        (usb_read-Ending rounds fuel enough device.address device.bulk_in length 1 (omega arith)
          (omega arith) (omega arith) size short more)
        λ input. pure-IsEnding {a = (input, record device { bulk_in = input.endpoint })}
  bulk_read-Ending device length false size short more =
      bind-IsEnding
        (usb_read-Ending rounds fuel enough device.address device.bulk_in length nak_limit
          (omega arith) (omega arith) tries size short more)
        λ input. pure-IsEnding {a = (input, record device { bulk_in = input.endpoint })}

  -- On a board that does not stall, every transfer returns, whatever results, NAKs and timeouts the chip
  -- reports and whatever the clock shows: an OUT transfer of any bytes; an IN transfer of at most 0xff00
  -- bytes from an endpoint with a packet size, in one try or with NAKs; and a control request, where its
  -- data stage, if it has one, is of at most 0xff00 bytes over an endpoint with a packet size.
  pub transfers_return :
      (device : Device) (bytes : List ℕ) (length : ℕ) (poll : Bool) (r : Request)
      (buffer : Option Memory) (s : Shield)
      → IsLively rounds s
      → 0 < device.bulk_in.max_packet_size
      → length ≤ 0xff00
      → length < fuel
      → Served fuel device buffer r.length
      → Returns rounds (bulk_write fuel device bytes) s
        × Returns rounds (bulk_read fuel device length poll) s
        × Returns rounds (control_request fuel device r buffer) s
  transfers_return device bytes length poll r buffer s p size short more served = (
    (bulk_write-Ending device bytes).ends s p,
    (bulk_read-Ending device length poll size short more).ends s p,
    (control_request-Ending rounds fuel enough tries device r buffer served).ends s p,
  )
