-- ===== src/Usb/Control.antt =====
-- Control transfers of src/mcu/max3421e/max3421e_usb.c (usb_ctrlData, usb_controlRequest and the
-- requests built on it, usb_getString) and usb_initDevice of src/mcu/usb.c.
pub mod Ending
pub mod Errors
pub mod Frames
pub mod Strings
use microbridge.Base.{
  ℕ, zero, suc, ◌+◌, ◌-◌, ◌*◌, ◌/◌, Bool, true, false, List, ◌∷◌, ◌++◌, Option, none, some, ◌==◌,
  int16, ltb, u8, u16, bit_and, bit_or, if◌then◌else◌, ℤ, pos, negsuc, is_neg, is_zero, to_word,
  le16,
}
use microbridge.Base.Run.{Cmd, pure, ◌>>=◌, ◌>>◌}
use microbridge.Shield.{Shield}
use microbridge.Max3421e.{write, write_multiple}
use microbridge.Max3421e.Constants.{
  reg_sudfifo, reg_peraddr, bm_rcvtog1, bm_sndtog1, tok_setup, tok_inhs, tok_ouths,
}
use microbridge.Usb.Constants.{
  nak_limit, req_get_descr, req_set, request_set_address, request_get_descriptor,
  request_set_configuration, descriptor_device, descriptor_configuration, descriptor_string,
}
use microbridge.Usb.Device.{Device, Memory, fill, bytes_from}
use microbridge.Usb.Output.{usb_write}
use microbridge.Usb.Transfer.{dispatch_packet, usb_read}

-- The result is a uint8_t, also where usb_read returns a negative number.
unfoldable pub ctrl_data :
    (fuel : ℕ)
    → Device
    → (direction : Bool) → (length : ℕ) → Memory
    → Cmd Shield (ℕ × Device × Memory)
unfolding bytes_from
ctrl_data fuel device direction length buffer =
    if direction
    then (do
      let control = record (device.control) { receive_toggle = bm_rcvtog1 }
      input ← usb_read fuel device.address control length nak_limit
      pure (
        to_word 256 input.result,
        record device { control = input.endpoint },
        fill input.bytes buffer,
      ))
    else (do
      let control = record (device.control) { send_toggle = bm_sndtog1 }
      (rcode, endpoint) ← usb_write fuel device.address control (bytes_from length 0 buffer)
      pure (rcode, record device { control = endpoint }, buffer))

pub record Request : Type 0 where
  pub request_type : ℕ
  pub request : ℕ
  pub value_low : ℕ
  pub value_high : ℕ
  pub index : ℕ
  pub length : ℕ

-- The bytes of a usb_setupPacket.
unfoldable pub setup_packet : Request → List ℕ
setup_packet r =
    r.request_type ∷ r.request ∷ le16 (bit_or r.value_low (r.value_high * 256))
    ++ le16 r.index
    ++ le16 r.length

unfoldable pub data_stage :
    (fuel : ℕ)
    → Device
    → (direction : Bool) → (length : ℕ) → Option Memory
    → Cmd Shield (ℕ × Device × Option Memory)
data_stage fuel device direction length none = pure (0, device, none)
data_stage fuel device direction length (some buffer) = do
  (rcode, device', buffer') ← ctrl_data fuel device direction length buffer
  pure (rcode, device', some buffer')

-- The value of a uint8_t as an `int`, to which `rcode<0` promotes it.
unfoldable pub promoted : ℕ → ℤ
promoted rcode = pos rcode

-- `none` is a NULL data pointer.
unfoldable pub control_request :
    (fuel : ℕ) → Device → Request → Option Memory → Cmd Shield (ℤ × Device × Option Memory)
unfolding data_stage promoted
control_request fuel device r buffer = do
  write reg_peraddr device.address
  let direction = if bit_and r.request_type 0x80 == 0 then false else true
  write_multiple reg_sudfifo (setup_packet r)
  rcode ← dispatch_packet fuel tok_setup device.control nak_limit
  if rcode == 0
      then (do
        (result, device', buffer') ← data_stage fuel device direction r.length buffer
        if is_neg (promoted result) then pure (negsuc 1, device', buffer') else (do
          status ←
              dispatch_packet fuel (if direction then tok_ouths else tok_inhs) device'.control
                nak_limit
          if status == 0
              then pure (pos 0, device', buffer')
              else pure (negsuc 2, device', buffer')))
      else pure (negsuc 0, device, buffer)

-- The memory of a request that had a buffer.
abbrev pub buffer_of : Option Memory → Memory → Memory
buffer_of none m = m
buffer_of (some m) _ = m

-- A request with a buffer.
unfoldable pub transfer_request :
    (fuel : ℕ) → Device → Request → Memory → Cmd Shield (ℤ × Device × Memory)
transfer_request fuel device r buffer = do
  (rcode, device', buffer') ← control_request fuel device r (some buffer)
  pure (rcode, device', buffer_of buffer' buffer)

unfoldable pub descriptor_request : (kind index length : ℕ) → (language : ℕ) → Request
descriptor_request kind index length language = record {
  request_type = req_get_descr;
  request = request_get_descriptor;
  value_low = index;
  value_high = kind;
  index = language;
  length = length;
}

-- `sizeof(usb_deviceDescriptor)` is 18.
unfoldable pub get_device_descriptor :
    (fuel : ℕ) → Device → Memory → Cmd Shield (ℤ × Device × Memory)
unfolding descriptor_request
get_device_descriptor fuel device descriptor =
    transfer_request fuel device (descriptor_request descriptor_device 0 18 0) descriptor

unfoldable pub get_configuration_descriptor :
    (fuel : ℕ) → Device → (conf length : ℕ) → Memory → Cmd Shield (ℤ × Device × Memory)
unfolding descriptor_request
get_configuration_descriptor fuel device conf length buffer = do
  (rcode, device, buffer) ←
      transfer_request fuel device (descriptor_request descriptor_configuration conf 4 0) buffer
  if is_zero rcode
      then (do
        let descriptor_length = bit_or (buffer 3 * 256) (buffer 2)
        let length' = if ltb descriptor_length length then descriptor_length else length
        (rcode, device, buffer) ←
            transfer_request fuel device
              (descriptor_request descriptor_configuration conf length' 0) buffer
        pure (if is_zero rcode then int16 length' else negsuc 1, device, buffer))
      else pure (negsuc 0, device, buffer)

unfoldable pub set_address : (fuel : ℕ) → Device → (address : ℕ) → Cmd Shield (ℤ × Device)
set_address fuel device address = do
  (rcode, device', _) ←
      control_request fuel device
        (record {
          request_type = req_set;
          request = request_set_address;
          value_low = address;
          value_high = 0;
          index = 0;
          length = 0;
        })
        none
  pure (rcode, device')

unfoldable pub set_configuration :
    (fuel : ℕ) → Device → (configuration : ℕ) → Cmd Shield (ℤ × Device)
set_configuration fuel device configuration = do
  (rcode, device', _) ←
      control_request fuel device
        (record {
          request_type = req_set;
          request = request_set_configuration;
          value_low = configuration;
          value_high = 0;
          index = 0;
          length = 0;
        })
        none
  pure (rcode, device')

-- str[p] = v
abbrev pub store : Memory → ℕ → ℕ → Memory
store m p v q = if q == p then v else m q

-- `for (; i < stringLength; i++) str[i] = str[2 + i * 2];` with `count` rounds left.
unfoldable pub narrow : (count i : ℕ) → Memory → Memory
narrow zero i str = str
narrow (suc count) i str = narrow count (i + 1) (store str i (str (2 + i * 2)))

-- `(stringLength - 2) / 2` as an `int` that is stored in a uint8_t.
unfoldable pub narrow_count : ℕ → ℕ
narrow_count n = if n == 0 then 255 else if n == 1 then 0 else (n - 2) / 2

unfoldable pub get_string :
    (fuel : ℕ) → Device → (index language length : ℕ) → Memory → Cmd Shield (ℤ × Device × Memory)
unfolding descriptor_request narrow narrow_count
get_string fuel device index language length str = do
  (ret, device, size) ←
      transfer_request fuel device (descriptor_request descriptor_string index 1 language) (λ _. 0)
  if is_neg ret then pure (negsuc 0, device, str) else do
    let string_length = if ltb length (size 0) then u8 length else size 0
    (ret, device, str) ←
        transfer_request fuel device
          (descriptor_request descriptor_string index string_length language) str
    if is_neg ret then pure (negsuc 1, device, str) else do
      let count = narrow_count string_length
      pure (pos 0, device, store (narrow count 0 str) count 0)

-- The conversion of a `char` to the 16 bits of an `int`.
abbrev pub sign_extend : ℕ → ℕ
sign_extend c = if ltb c 128 then c else c + 0xff00

-- `buf` is what the uninitialised local holds. The tests `rcode < 0` of a uint8_t never hold.
unfoldable pub init_device :
    (fuel : ℕ) → Device → (configuration : ℕ) → (buf : Memory) → Cmd Shield (ℕ × Device)
init_device fuel device configuration buf = do
  (_, device) ← set_configuration fuel device configuration
  (ret, device, buf) ← get_string fuel device 0 0 4 buf
  let language = bit_or (u16 (sign_extend (buf 3) * 256)) (sign_extend (buf 2))
  pure (to_word 256 ret, record device { first_string_language = language })
