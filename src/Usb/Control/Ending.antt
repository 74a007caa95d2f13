-- ===== src/Usb/Control/Ending.antt =====
-- Control requests of src/mcu/max3421e/max3421e_usb.c on a board that does not stall.
use microbridge.Base.{
  ℕ, ◌+◌, ◌≤◌, ◌<◌, Bool, true, false, Option, none, some, arith, ◌==◌, bit_and, if◌then◌else◌, pos,
  negsuc, to_word,
}
use microbridge.Base.Ends.{pure-IsEnding, bind-IsEnding, if_IsEnding}
use microbridge.Max3421e.Constants.{
  reg_peraddr, reg_sudfifo, bm_rcvtog1, bm_sndtog1, tok_setup, tok_inhs, tok_ouths,
}
use microbridge.Max3421e.Ending.{Ending, write-Ending, write_multiple-Ending}
use microbridge.Usb.Constants.{nak_limit, retry_limit}
use microbridge.Usb.Device.{Device, Endpoint, Memory, fill, bytes_from}
use microbridge.Usb.Transfer.{dispatch_packet}
use microbridge.Usb.Transfer.Ending.{dispatch_packet-Ending}
use microbridge.Usb.Transfer.Ending.Reading.{usb_read-Ending}
use microbridge.Usb.Output.Ending.{usb_write-Ending}
use microbridge.Usb.Control.{
  ctrl_data, data_stage, Request, setup_packet, control_request, transfer_request,
  get_device_descriptor, buffer_of,
}

-- The rounds given.
module _ (wait : ℕ) where
  -- A data stage has an endpoint with a packet size, and a length that neither wraps nor outlasts the
  -- rounds.
  abbrev pub Fits : Device → ℕ → Type 0
  Fits device length = (0 < device.control.max_packet_size) × (length ≤ 0xff00) × (length < wait)

  -- What a request needs: nothing, if it has no buffer.
  abbrev pub Served : Device → Option Memory → ℕ → Type 0
  Served device none length = Unit {0}
  Served device (some _) length = Fits device length

module _ (rounds wait : ℕ) (enough : rounds ≤ wait) (tries : nak_limit + retry_limit ≤ wait) where
  ctrl_data-Ending :
      (device : Device) (direction : Bool) (length : ℕ) (buffer : Memory)
      → Fits wait device length
      → Ending rounds (ctrl_data wait device direction length buffer)
  unfolding ctrl_data
  ctrl_data-Ending device true length buffer (size, short, more) =
      let control = record (device.control) { receive_toggle = bm_rcvtog1 } in
      bind-IsEnding
        (usb_read-Ending rounds wait enough device.address control length nak_limit (omega arith)
          (omega arith) tries size short more)
        λ input.
          pure-IsEnding
            {a = (
              to_word 256 input.result,
              record device { control = input.endpoint },
              fill input.bytes buffer,
            )}
  ctrl_data-Ending device false length buffer (size, short, more) =
      let control = record (device.control) { send_toggle = bm_sndtog1 } in
      bind-IsEnding
        (usb_write-Ending rounds wait enough tries device.address control
          (bytes_from length 0 buffer))
        λ (rcode, endpoint).
          pure-IsEnding {a = (rcode, record device { control = endpoint }, buffer)}

  data_stage-Ending :
      (device : Device) (direction : Bool) (length : ℕ) (buffer : Option Memory)
      → Served wait device buffer length
      → Ending rounds (data_stage wait device direction length buffer)
  unfolding data_stage
  data_stage-Ending device direction length none f = pure-IsEnding
  data_stage-Ending device direction length (some buffer) f =
      bind-IsEnding (ctrl_data-Ending device direction length buffer f)
        λ (rcode, device', buffer'). pure-IsEnding {a = (rcode, device', some buffer')}

  packet-Ending :
      (token : ℕ) (endpoint : Endpoint)
      → Ending rounds (dispatch_packet wait token endpoint nak_limit)
  packet-Ending token endpoint =
      dispatch_packet-Ending rounds wait enough token nak_limit endpoint (omega arith) (omega arith)
        tries

  pub control_request-Ending :
      (device : Device) (r : Request) (buffer : Option Memory)
      → Served wait device buffer r.length
      → Ending rounds (control_request wait device r buffer)
  unfolding control_request
  control_request-Ending device r buffer f =
      let direction : Bool = if bit_and r.request_type 0x80 == 0 then false else true in
      bind-IsEnding (write-Ending rounds reg_peraddr device.address) λ _.
        bind-IsEnding (write_multiple-Ending rounds reg_sudfifo (setup_packet r)) λ _.
          bind-IsEnding (packet-Ending tok_setup device.control) λ rcode.
            if_IsEnding (rcode == 0)
              (bind-IsEnding (data_stage-Ending device direction r.length buffer f)
                λ (result, device', buffer').
                  bind-IsEnding
                    (packet-Ending (if direction then tok_ouths else tok_inhs) device'.control)
                    λ status.
                      if_IsEnding (status == 0) (pure-IsEnding {a = (pos 0, device', buffer')})
                        (pure-IsEnding {a = (negsuc 2, device', buffer')}))
              (pure-IsEnding {a = (negsuc 0, device, buffer)})

  transfer_request-Ending :
      (device : Device) (r : Request) (buffer : Memory)
      → Fits wait device r.length
      → Ending rounds (transfer_request wait device r buffer)
  unfolding transfer_request
  transfer_request-Ending device r buffer f =
      bind-IsEnding (control_request-Ending device r (some buffer) f)
        λ (rcode, device', buffer'). pure-IsEnding {a = (rcode, device', buffer_of buffer' buffer)}

  pub get_device_descriptor-Ending :
      (device : Device) (descriptor : Memory)
      → Fits wait device 18
      → Ending rounds (get_device_descriptor wait device descriptor)
  unfolding get_device_descriptor
  get_device_descriptor-Ending device descriptor f = transfer_request-Ending device _ descriptor f
