-- ===== src/Arduino/Control.antt =====
-- Control transfers of src/arduino/usb.cpp: USB::ctrlData, USB::controlRequest, the requests built on
-- it, USB::getString and USB::initDevice.
pub mod Agreement
use microbridge.Base.{
  int16, is_neg, ℕ, zero, suc, ◌+◌, ◌-◌, ◌*◌, ◌/◌, ◌^◌, Bool, true, false, not, List, [], ◌∷◌, ◌++◌,
  Option, none, some, ◌==◌, ltb, leb, u8, u16, u32, sub32, bit_and, bit_or, if◌then◌else◌, ◌||◌,
  ◌&&◌, ℤ, pos, negsuc, int16, take, drop, get_or, length, is_neg, is_zero, to_word, equals,
}
use microbridge.Base.Run.{Cmd, pure, ◌>>=◌, ◌>>◌, get, modify}
use microbridge.Arduino.Core.{Core}
use microbridge.Max3421e.Constants.{
  reg_sudfifo, reg_peraddr, bm_rcvtog1, bm_sndtog1, tok_setup, tok_inhs, tok_ouths,
}
use microbridge.Usb.Constants.{
  nak_limit, req_get_descr, req_set, request_set_address, request_get_descriptor,
  request_set_configuration, descriptor_device, descriptor_configuration, descriptor_string,
}
use microbridge.Shield.{Shield}
use microbridge.Usb.Device.{Device, Memory, fill, bytes_from}
use microbridge.Usb.Control.{
  promoted, Request, setup_packet, buffer_of, descriptor_request, store, narrow, narrow_count,
  sign_extend,
}
use microbridge.Arduino.Max3421e.{write, write_multiple}
use microbridge.Arduino.Transfer.{dispatch_packet, usb_read}
use microbridge.Arduino.Output.{usb_write}

module _ (core : Core) where
  -- The result is a uint8_t, also where usb_read returns a negative number.
  unfoldable pub ctrl_data :
      (fuel : ℕ)
      → Device
      → (direction : Bool) → (length : ℕ) → Memory
      → Cmd Shield (ℕ × Device × Memory)
  unfolding bytes_from
  ctrl_data fuel device direction length buffer =
      if direction
      then (do
        let control = record (device.control) { receive_toggle = bm_rcvtog1 }
        input ← usb_read core fuel device.address control length nak_limit
        pure (
          to_word 256 input.result,
          record device { control = input.endpoint },
          fill input.bytes buffer,
        ))
      else (do
        let control = record (device.control) { send_toggle = bm_sndtog1 }
        (rcode, endpoint) ← usb_write core fuel device.address control (bytes_from length 0 buffer)
        pure (rcode, record device { control = endpoint }, buffer))

  data_stage :
      (fuel : ℕ)
      → Device
      → (direction : Bool) → (length : ℕ) → Option Memory
      → Cmd Shield (ℕ × Device × Option Memory)
  data_stage fuel device direction length none = pure (0, device, none)
  data_stage fuel device direction length (some buffer) = do
    (rcode, device', buffer') ← ctrl_data fuel device direction length buffer
    pure (rcode, device', some buffer')

  -- `none` is a NULL data pointer.
  unfoldable pub control_request :
      (fuel : ℕ) → Device → Request → Option Memory → Cmd Shield (ℤ × Device × Option Memory)
  unfolding data_stage promoted
  control_request fuel device r buffer = do
    write core reg_peraddr device.address
    let direction = if bit_and r.request_type 0x80 == 0 then false else true
    write_multiple core reg_sudfifo (setup_packet r)
    rcode ← dispatch_packet core fuel tok_setup device.control nak_limit
    if rcode == 0
        then (do
          (result, device', buffer') ← data_stage fuel device direction r.length buffer
          if is_neg (promoted result) then pure (negsuc 1, device', buffer') else (do
            status ←
                dispatch_packet core fuel (if direction then tok_ouths else tok_inhs)
                  device'.control nak_limit
            if status == 0
                then pure (pos 0, device', buffer')
                else pure (negsuc 2, device', buffer')))
        else pure (negsuc 0, device, buffer)

  -- A request with a buffer.
  unfoldable pub transfer_request :
      (fuel : ℕ) → Device → Request → Memory → Cmd Shield (ℤ × Device × Memory)
  transfer_request fuel device r buffer = do
    (rcode, device', buffer') ← control_request fuel device r (some buffer)
    pure (rcode, device', buffer_of buffer' buffer)

  -- `sizeof(usb_deviceDescriptor)` is 18.
  unfoldable pub get_device_descriptor :
      (fuel : ℕ) → Device → Memory → Cmd Shield (ℤ × Device × Memory)
  unfolding descriptor_request
  get_device_descriptor fuel device descriptor =
      transfer_request fuel device (descriptor_request descriptor_device 0 18 0) descriptor

  unfoldable pub get_configuration_descriptor :
      (fuel : ℕ) → Device → (conf length : ℕ) → Memory → Cmd Shield (ℤ × Device × Memory)
  unfolding descriptor_request
  get_configuration_descriptor fuel device conf length buffer = do
    (rcode, device, buffer) ←
        transfer_request fuel device (descriptor_request descriptor_configuration conf 4 0) buffer
    if is_zero rcode
        then (do
          let descriptor_length = bit_or (buffer 3 * 256) (buffer 2)
          let length' = if ltb descriptor_length length then descriptor_length else length
          (rcode, device, buffer) ←
              transfer_request fuel device
                (descriptor_request descriptor_configuration conf length' 0) buffer
          pure (if is_zero rcode then int16 length' else negsuc 1, device, buffer))
        else pure (negsuc 0, device, buffer)

  unfoldable pub set_address : (fuel : ℕ) → Device → (address : ℕ) → Cmd Shield (ℤ × Device)
  set_address fuel device address = do
    (rcode, device', _) ←
        control_request fuel device
          (record {
            request_type = req_set;
            request = request_set_address;
            value_low = address;
            value_high = 0;
            index = 0;
            length = 0;
          })
          none
    pure (rcode, device')

  unfoldable pub set_configuration :
      (fuel : ℕ) → Device → (configuration : ℕ) → Cmd Shield (ℤ × Device)
  set_configuration fuel device configuration = do
    (rcode, device', _) ←
        control_request fuel device
          (record {
            request_type = req_set;
            request = request_set_configuration;
            value_low = configuration;
            value_high = 0;
            index = 0;
            length = 0;
          })
          none
    pure (rcode, device')

  unfoldable pub get_string :
      (fuel : ℕ) → Device → (index language length : ℕ) → Memory → Cmd Shield (ℤ × Device × Memory)
  unfolding descriptor_request narrow narrow_count
  get_string fuel device index language length str = do
    (ret, device, size) ←
        transfer_request fuel device (descriptor_request descriptor_string index 1 language)
          (λ _. 0)
    if is_neg ret then pure (negsuc 0, device, str) else do
      let string_length = if ltb length (size 0) then u8 length else size 0
      (ret, device, str) ←
          transfer_request fuel device
            (descriptor_request descriptor_string index string_length language) str
      if is_neg ret then pure (negsuc 1, device, str) else do
        let count = narrow_count string_length
        pure (pos 0, device, store (narrow count 0 str) count 0)

  -- `buf` is what the uninitialised local holds. The tests `rcode < 0` of a uint8_t never hold.
  unfoldable pub init_device :
      (fuel : ℕ) → Device → (configuration : ℕ) → (buf : Memory) → Cmd Shield (ℕ × Device)
  init_device fuel device configuration buf = do
    (_, device) ← set_configuration fuel device configuration
    (ret, device, buf) ← get_string fuel device 0 0 4 buf
    let language = bit_or (u16 (sign_extend (buf 3) * 256)) (sign_extend (buf 2))
    pure (to_word 256 ret, record device { first_string_language = language })
