-- ===== src/Adb/Message.antt =====
-- ADB messages of src/mcu/adb.c: the 24-byte header with its magic and checksum, and how messages
-- are written and polled.
use microbridge.Base.{
  ℕ, ◌+◌, Bool, List, [], ◌∷◌, ◌++◌, Option, none, some, ◌==◌, u32, bit_xor, length, le32, of_le32,
  if◌then◌else◌, is_neg, equals,
}
use microbridge.Base.Run.{Cmd, pure, ◌>>=◌, get}
use microbridge.Usb.Device.{Memory, fill}
use microbridge.Adb.Link.{Adb, adb_read, adb_bulk_write}

abbrev pub a_cnxn : ℕ
a_cnxn = 0x4e58_4e43

abbrev pub a_open : ℕ
a_open = 0x4e45_504f

abbrev pub a_okay : ℕ
a_okay = 0x5941_4b4f

abbrev pub a_clse : ℕ
a_clse = 0x4553_4c43

abbrev pub a_wrte : ℕ
a_wrte = 0x4554_5257

-- ADB_USB_PACKETSIZE
abbrev pub packet_size : ℕ
packet_size = 0x40

pub record Message : Type 0 where
  pub command : ℕ
  pub arg0 : ℕ
  pub arg1 : ℕ
  pub data_length : ℕ
  pub data_check : ℕ
  pub magic : ℕ

-- The bytes of the struct.
unfoldable pub encode : Message → List ℕ
encode m =
    le32 m.command
    ++ le32 m.arg0
    ++ le32 m.arg1
    ++ le32 m.data_length
    ++ le32 m.data_check
    ++ le32 m.magic

-- The struct that lies at a pointer.
word_at : Memory → ℕ → ℕ
word_at m i = of_le32 (m i) (m (i + 1)) (m (i + 2)) (m (i + 3))

unfoldable pub decode : Memory → Message
unfolding word_at
decode m = record {
  command = word_at m 0;
  arg0 = word_at m 4;
  arg1 = word_at m 8;
  data_length = word_at m 12;
  data_check = word_at m 16;
  magic = word_at m 20;
}

-- `while (count-- > 0) sum += *x++;`
unfoldable pub checksum : (sum : ℕ) → List ℕ → ℕ
checksum sum [] = sum
checksum sum (b ∷ bs) = checksum (u32 (sum + b)) bs

unfoldable pub header : (command arg0 arg1 : ℕ) → List ℕ → Message
header command arg0 arg1 payload = record {
  command = command;
  arg0 = arg0;
  arg1 = arg1;
  data_length = length payload;
  data_check = checksum 0 payload;
  magic = bit_xor command 0xffff_ffff;
}

unfoldable pub empty_header : (command arg0 arg1 : ℕ) → Message
empty_header command arg0 arg1 = record {
  command = command;
  arg0 = arg0;
  arg1 = arg1;
  data_length = 0;
  data_check = 0;
  magic = bit_xor command 0xffff_ffff;
}

unfoldable pub write_empty_message : (fuel command arg0 arg1 : ℕ) → Cmd Adb ℕ
write_empty_message fuel command arg0 arg1 =
    adb_bulk_write fuel (encode (empty_header command arg0 arg1))

-- `payload` are the `length` bytes at the data pointer.
unfoldable pub write_message : (fuel command arg0 arg1 : ℕ) → (payload : List ℕ) → Cmd Adb ℕ
write_message fuel command arg0 arg1 payload = do
  rcode ← adb_bulk_write fuel (encode (header command arg0 arg1 payload))
  if rcode == 0 then adb_bulk_write fuel payload else pure rcode

-- The final zero is part of the payload.
unfoldable pub write_string_message : (fuel command arg0 arg1 : ℕ) → (str : List ℕ) → Cmd Adb ℕ
write_string_message fuel command arg0 arg1 str =
    write_message fuel command arg0 arg1 (str ++ 0 ∷ [])

-- A build without DEBUG goes on after a magic mismatch.
unfoldable pub poll_message : (fuel : ℕ) → (poll : Bool) → Cmd Adb (Option Message)
poll_message fuel poll = do
  a ← get
  input ← adb_read fuel packet_size poll
  if is_neg input.result then pure none else do
    let message = decode (fill input.bytes a.host.stack)
    if equals input.result 24 then pure (some message) else pure none
