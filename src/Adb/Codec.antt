-- ===== src/Adb/Codec.antt =====
-- The ADB message header of src/mcu/adb.c as bytes, and its checksum.
use microbridge.Base.{ℕ, ◌+◌, ◌%◌, ◌^◌, ◌<◌, ◌≡◌, refl, List, [], ◌∷◌, arith, u32, length}
use microbridge.Usb.Device.{Memory, fill}
use microbridge.Adb.Message.{Message, encode, decode, checksum, header, empty_header}

-- Every field is a 32-bit word.
pub record IsWord (m : Message) : Type 0 where
  pub command : m.command < 2 ^ 32
  pub arg0 : m.arg0 < 2 ^ 32
  pub arg1 : m.arg1 < 2 ^ 32
  pub data_length : m.data_length < 2 ^ 32
  pub data_check : m.data_check < 2 ^ 32
  pub magic : m.magic < 2 ^ 32

-- A header that is written takes 24 bytes, and where those bytes are received, whatever the buffer
-- held, the same header is read back.
pub decode-encode :
    (m : Message) (buffer : Memory)
    → IsWord m
    → (length (encode m) ≡ 24) × (decode (fill (encode m) buffer) ≡ m)
unfolding encode decode fill
decode-encode m buffer w = (refl, ground arith)

unfoldable pub sum : List ℕ → ℕ
sum [] = 0
sum (b ∷ bs) = b + sum bs

checksum_from : (acc : ℕ) (bs : List ℕ) → acc < 2 ^ 32 → checksum acc bs ≡ u32 (acc + sum bs)
unfolding checksum sum
checksum_from acc [] h = omega arith
checksum_from acc (b ∷ bs) h = omega (arith, checksum_from (u32 (acc + b)) bs (omega arith))

-- The header of a payload carries its length and the sum of its bytes modulo 2 ^ 32, and the header
-- of a message without payload is that of an empty one.
header_lem :
    (command arg0 arg1 : ℕ) (payload : List ℕ)
    → ((header command arg0 arg1 payload).data_length ≡ length payload)
      × ((header command arg0 arg1 payload).data_check ≡ sum payload % 2 ^ 32)
      × (header command arg0 arg1 [] ≡ empty_header command arg0 arg1)
unfolding header empty_header checksum
header_lem command arg0 arg1 payload =
    (refl, omega (arith, checksum_from 0 payload (omega arith)), ground arith)
