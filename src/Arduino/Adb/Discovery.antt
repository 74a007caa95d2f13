-- ===== src/Arduino/Adb/Discovery.antt =====
-- ADB::isAdbDevice and ADB::initUsb of src/arduino/Adb.cpp.
pub mod Agreement
use microbridge.Base.{
  ℕ, zero, suc, ◌+◌, ◌-◌, ◌*◌, ◌/◌, ◌^◌, Bool, true, false, not, List, [], ◌∷◌, ◌++◌, Option, none,
  some, ◌==◌, ltb, leb, u8, u16, u32, sub32, bit_and, bit_or, if◌then◌else◌, ◌||◌, ◌&&◌, ℤ, pos,
  negsuc, int16, take, drop, get_or, length, is_neg, is_zero, to_word, equals,
}
use microbridge.Base.Run.{Cmd, pure, ◌>>=◌, ◌>>◌, get, modify}
use microbridge.Arduino.Core.{Core}
use microbridge.Shield.{Shield}
use microbridge.Usb.Device.{Device, Memory}
use microbridge.Adb.Link.{Adb, transfer}
use microbridge.Adb.Discovery.{
  Configuration, Scan, Outcome, ended, fault, out_of_rounds, descriptor_step, start_scan,
  bulk_end_points,
}
use microbridge.Arduino.Control.{get_configuration_descriptor, init_device}

-- `while (pos < bytesRead)`, on `rounds` of fuel. `pos` is an int: what it adds up to
-- below 0x7fff is as here.
unfoldable pub scan_loop : (rounds : ℕ) → Memory → (bytes_read i : ℕ) → Scan → Outcome
scan_loop zero buf bytes_read i s = out_of_rounds
scan_loop (suc rounds) buf bytes_read i s =
    let again = scan_loop rounds buf bytes_read (i + buf i) in
    if ltb i bytes_read
    then elim (descriptor_step buf i s) [ none ↦ fault | some t ↦ again t ]
    else ended s

-- The loop in ADB::isAdbDevice. A fault, or a loop that does not end, gives no result.
unfoldable pub scan :
    (rounds : ℕ) → Memory → (bytes_read : ℕ) → Configuration → Cmd Adb (Bool × Configuration)
unfolding start_scan
scan rounds buf bytes_read handle a = elim (scan_loop rounds buf bytes_read 0 (start_scan handle)) [
  | ended s ↦ some ((s.found, s.handle), a)
  | _ ↦ none
]

module _ (core : Core) where
  -- Reading the configuration into a buffer of MAX_BUF_SIZE bytes.
  pub read_configuration :
      (fuel configuration : ℕ) → Memory → Device → Cmd Shield ((ℤ × Memory) × Device)
  read_configuration fuel configuration stack d = do
    (rcode, d', buf) ← get_configuration_descriptor core fuel d configuration 256 stack
    pure ((rcode, buf), d')

  -- `handle` is what the uninitialised record holds. The length of the buffer is MAX_BUF_SIZE.
  unfoldable pub is_adb_device :
      (fuel : ℕ) → (index configuration : ℕ) → Configuration → Cmd Adb (Bool × Configuration)
  unfolding scan read_configuration
  is_adb_device fuel index configuration handle = do
    a ← get
    (bytes_read, buf) ← transfer (read_configuration fuel configuration a.host.stack) index
    elim bytes_read [ pos n ↦ scan fuel buf n handle | negsuc _ ↦ pure (false, handle) ]

  -- The device is configured, and its bulk endpoints are set up.
  unfoldable pub prepare : (fuel : ℕ) → Configuration → Memory → Device → Cmd Shield (ℕ × Device)
  prepare fuel handle stack d = do
    (rcode, d') ← init_device core fuel d handle.configuration stack
    pure (rcode, bulk_end_points d' handle)

  unfoldable pub init_usb : (fuel : ℕ) → (index : ℕ) → Configuration → Cmd Adb (Unit {0})
  unfolding prepare
  init_usb fuel index handle = do
    a ← get
    _ ← transfer (prepare fuel handle a.host.stack) index
    modify λ a. record a { device = some index }
