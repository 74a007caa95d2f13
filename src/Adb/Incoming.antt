-- ===== src/Adb/Incoming.antt =====
-- What adb_pollMessage (src/mcu/adb.c) lets in.
use microbridge.Base.{
  ℕ, zero, suc, ◌<◌, ◌≡◌, refl, ap, ◌∙◌, Bool, Bool-cases, inl, inr, List, [], ◌∷◌, ◌++◌, ltb,
  get_or, length, length-append, none, some, arith, equals, if◌then◌else◌,
}
use microbridge.Usb.Device.{Memory, fill}
use microbridge.Usb.Transfer.{Input}
use microbridge.Adb.Link.{Adb, adb_read}
use microbridge.Adb.Message.{Message, encode, decode, packet_size, poll_message}
use microbridge.Adb.Codec.{IsWord, decode-encode}

get_or-front : (xs ys : List ℕ) (i : ℕ) → i < length xs → get_or (xs ++ ys) i 0 ≡ get_or xs i 0
get_or-front [] ys i lt = absurd (omega arith)
get_or-front (x ∷ xs) ys zero lt = refl
get_or-front (x ∷ xs) ys (suc i) lt = get_or-front xs ys i (omega arith)

-- Storing the front again changes nothing.
fill-front :
    (xs ys : List ℕ) (m : Memory) (i : ℕ) → fill (xs ++ ys) m i ≡ fill xs (fill (xs ++ ys) m) i
unfolding fill
fill-front xs ys m i = elim (Bool-cases (ltb i (length xs))) [
  | inl front ↦
      let lt : i < length xs = ground (arith, front) in
      ground (arith, length-append xs ys, get_or-front xs ys i lt)
  | inr back ↦ ground arith
]

-- A header is read back from the front of what was received.
decode-front :
    (m : Message) (rest : List ℕ) (buffer : Memory)
    → IsWord m
    → decode (fill (encode m ++ rest) buffer) ≡ m
decode-front m rest buffer w =
    ap decode (λ k i. fill-front (encode m) rest buffer i k)
    ∙ (decode-encode m (fill (encode m ++ rest) buffer) w).1

-- Of the transfers that bring the bytes of a header, and maybe others after them, exactly those whose
-- result is 24 let a message in, and it is the one of that header, whatever its magic is.
pub poll_message-any_magic :
    (fuel : ℕ) (poll : Bool) (input : Input) (m : Message) (rest : List ℕ) (a b : Adb)
    → adb_read fuel packet_size poll a ≡ some (input, b)
    → input.bytes ≡ encode m ++ rest
    → IsWord m
    → poll_message fuel poll a ≡ some (if equals input.result 24 then some m else none, b)
unfolding poll_message
poll_message-any_magic fuel poll input m rest a b h e w =
    ground (arith, decode-front m rest a.host.stack w)
