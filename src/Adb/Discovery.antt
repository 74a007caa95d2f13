-- ===== src/Adb/Discovery.antt =====
-- Discovery of the ADB interface in a configuration descriptor, and set-up of the ADB device:
-- usb_isAdbInterface, adb_isAdbDevice and adb_initUsb of src/mcu/adb.c.
use microbridge.Base.{
  ℕ, zero, suc, ◌+◌, Bool, true, false, Option, none, some, ◌==◌, ltb, u16, bit_and, if◌then◌else◌,
  ◌&&◌, ℤ, pos, negsuc,
}
use microbridge.Base.Run.{Cmd, pure, ◌>>=◌, get, modify}
use microbridge.Shield.{Shield}
use microbridge.Usb.Constants.{
  descriptor_configuration, descriptor_interface, descriptor_endpoint, transfer_type_bulk,
}
use microbridge.Usb.Device.{Device, Memory, init_end_point}
use microbridge.Usb.Control.{get_configuration_descriptor, init_device}
use microbridge.Adb.Link.{Adb, transfer}
use microbridge.Adb.Message.{packet_size}

-- adb_usbConfiguration, without the address, which nothing sets
pub record Configuration : Type 0 where
  pub configuration : ℕ
  pub interface : ℕ
  pub input_end_point_address : ℕ
  pub output_end_point_address : ℕ

-- The interface descriptor at `i`: two endpoints, protocol 1, class 0xff, subclass 0x42.
unfoldable pub is_adb_interface : Memory → (i : ℕ) → Bool
is_adb_interface buf i =
    buf (i + 4) == 2 && buf (i + 7) == 1 && buf (i + 5) == 0xff && buf (i + 6) == 0x42

-- The variables of the loop in adb_isAdbDevice: `config` and `interface` point into the buffer.
pub record Scan : Type 0 where
  pub config : Option ℕ
  pub interface : Option ℕ
  pub handle : Configuration
  pub found : Bool

-- The interface descriptor at `i`. `none` is a read through the NULL pointer `config`.
unfoldable pub interface_step : Memory → (i : ℕ) → Scan → Option Scan
interface_step buf i s =
    if is_adb_interface buf i
    then elim s.config [
      | none ↦ none
      | some c ↦ some (record s {
        interface = some i;
        handle = record (s.handle) { configuration = buf (c + 5); interface = buf (i + 2) };
        found = true;
      })
    ]
    else some (record s { interface = some i })

-- The endpoint descriptor at `i`. `none` is a read through the NULL pointer `interface`.
unfoldable pub endpoint_step : Memory → (i : ℕ) → Scan → Option Scan
endpoint_step buf i s = elim s.interface [
  | none ↦ none
  | some p ↦
      let address = buf (i + 2) in
      some (
        if buf (p + 2) == s.handle.interface
        then if bit_and address 0x80 == 0
          then record s { handle = record (s.handle) { output_end_point_address = address } }
          else record s {
            handle = record (s.handle) { input_end_point_address = bit_and address 0x7f };
          }
        else s)
]

-- The switch on the descriptor type.
unfoldable pub descriptor_step : Memory → (i : ℕ) → Scan → Option Scan
descriptor_step buf i s =
    let kind = buf (i + 1) in
    if kind == descriptor_configuration
    then some (record s { config = some i })
    else if kind == descriptor_interface
    then interface_step buf i s
    else if kind == descriptor_endpoint
    then endpoint_step buf i s
    else some s

-- The loop ends, reads through a NULL pointer, or is out of rounds.
pub data Outcome : Type 0 where
  ended : Scan → Outcome
  fault : Outcome
  out_of_rounds : Outcome

-- `while (pos < bytesRead)`, on `rounds` of fuel.
unfoldable pub scan_loop : (rounds : ℕ) → Memory → (bytes_read i : ℕ) → Scan → Outcome
scan_loop zero buf bytes_read i s = out_of_rounds
scan_loop (suc rounds) buf bytes_read i s =
    let again = scan_loop rounds buf bytes_read (u16 (i + buf i)) in
    if ltb i bytes_read
    then elim (descriptor_step buf i s) [ none ↦ fault | some t ↦ again t ]
    else ended s

unfoldable pub start_scan : Configuration → Scan
start_scan handle = record { config = none; interface = none; handle = handle; found = false }

-- The loop in adb_isAdbDevice. A fault, or a loop that does not end, gives no result.
unfoldable pub scan :
    (rounds : ℕ) → Memory → (bytes_read : ℕ) → Configuration → Cmd Adb (Bool × Configuration)
unfolding start_scan
scan rounds buf bytes_read handle a = elim (scan_loop rounds buf bytes_read 0 (start_scan handle)) [
  | ended s ↦ some ((s.found, s.handle), a)
  | _ ↦ none
]

-- Reading the configuration into a buffer of MAX_BUF_SIZE bytes.
unfoldable pub read_configuration :
    (fuel configuration : ℕ) → Memory → Device → Cmd Shield ((ℤ × Memory) × Device)
read_configuration fuel configuration stack d = do
  (rcode, d', buf) ← get_configuration_descriptor fuel d configuration 256 stack
  pure ((rcode, buf), d')

-- `handle` is what the uninitialised record holds. The length of the buffer is MAX_BUF_SIZE.
unfoldable pub is_adb_device :
    (fuel : ℕ) → (index configuration : ℕ) → Configuration → Cmd Adb (Bool × Configuration)
unfolding scan read_configuration
is_adb_device fuel index configuration handle = do
  a ← get
  (bytes_read, buf) ← transfer (read_configuration fuel configuration a.host.stack) index
  elim bytes_read [ pos n ↦ scan fuel buf n handle | negsuc _ ↦ pure (false, handle) ]

-- deviceTable[index] with its bulk endpoints
unfoldable pub bulk_end_points : Device → Configuration → Device
bulk_end_points d handle = record d {
  bulk_in = record (init_end_point d.bulk_in handle.input_end_point_address) {
    attributes = transfer_type_bulk;
    max_packet_size = packet_size;
  };
  bulk_out = record (init_end_point d.bulk_out handle.output_end_point_address) {
    attributes = transfer_type_bulk;
    max_packet_size = packet_size;
  };
}

-- The device is configured, and its bulk endpoints are set up.
unfoldable pub prepare : (fuel : ℕ) → Configuration → Memory → Device → Cmd Shield (ℕ × Device)
prepare fuel handle stack d = do
  (rcode, d') ← init_device fuel d handle.configuration stack
  pure (rcode, bulk_end_points d' handle)

unfoldable pub init_usb : (fuel : ℕ) → (index : ℕ) → Configuration → Cmd Adb (Unit {0})
unfolding prepare
init_usb fuel index handle = do
  a ← get
  _ ← transfer (prepare fuel handle a.host.stack) index
  modify λ a. record a { device = some index }
