-- ===== src/Arduino/Adb/Message.antt =====
-- Messages of src/arduino/Adb.cpp, and the bulk transfers of the ADB device.
pub mod Agreement
use microbridge.Base.{
  ℕ, zero, suc, ◌+◌, ◌-◌, ◌*◌, ◌/◌, ◌^◌, Bool, true, false, not, List, [], ◌∷◌, ◌++◌, Option, none,
  some, ◌==◌, ltb, leb, u8, u16, u32, sub32, bit_and, bit_or, if◌then◌else◌, ◌||◌, ◌&&◌, ℤ, pos,
  negsuc, int16, take, drop, get_or, length, is_neg, is_zero, to_word, equals,
}
use microbridge.Base.Run.{Cmd, pure, ◌>>=◌, ◌>>◌, get, modify}
use microbridge.Arduino.Core.{Core}
use microbridge.Usb.Device.{fill}
use microbridge.Usb.Transfer.{Input}
use microbridge.Adb.Link.{Adb, adb_transfer}
use microbridge.Adb.Message.{Message, packet_size, encode, decode, header, empty_header}
use microbridge.Arduino.Transfer.{bulk_read}
use microbridge.Arduino.Output.{bulk_write}

module _ (core : Core) where
  unfoldable pub adb_read : (fuel : ℕ) → (length : ℕ) → (poll : Bool) → Cmd Adb Input
  unfolding adb_transfer
  adb_read fuel length poll = adb_transfer (λ d. bulk_read core fuel d length poll)

  unfoldable pub adb_bulk_write : (fuel : ℕ) → List ℕ → Cmd Adb ℕ
  unfolding adb_transfer
  adb_bulk_write fuel bytes = adb_transfer (λ d. bulk_write core fuel d bytes)

  unfoldable pub write_empty_message : (fuel command arg0 arg1 : ℕ) → Cmd Adb ℕ
  write_empty_message fuel command arg0 arg1 =
      adb_bulk_write fuel (encode (empty_header command arg0 arg1))

  -- `payload` are the `length` bytes at the data pointer.
  unfoldable pub write_message : (fuel command arg0 arg1 : ℕ) → (payload : List ℕ) → Cmd Adb ℕ
  write_message fuel command arg0 arg1 payload = do
    rcode ← adb_bulk_write fuel (encode (header command arg0 arg1 payload))
    if rcode == 0 then adb_bulk_write fuel payload else pure rcode

  -- The final zero is part of the payload.
  unfoldable pub write_string_message : (fuel command arg0 arg1 : ℕ) → (str : List ℕ) → Cmd Adb ℕ
  write_string_message fuel command arg0 arg1 str =
      write_message fuel command arg0 arg1 (str ++ 0 ∷ [])

  -- A build without DEBUG goes on after a magic mismatch.
  unfoldable pub poll_message : (fuel : ℕ) → (poll : Bool) → Cmd Adb (Option Message)
  poll_message fuel poll = do
    a ← get
    input ← adb_read fuel packet_size poll
    if is_neg input.result then pure none else do
      let message = decode (fill input.bytes a.host.stack)
      if equals input.result 24 then pure (some message) else pure none
