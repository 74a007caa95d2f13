-- ===== src/Adb/Delivery.antt =====
-- The payload of a WRTE message that arrives whole, and what adb_handleWrite (src/mcu/adb.c) hands on of it.
use microbridge.Base.{
  ℕ, zero, suc, ◌+◌, ◌-◌, ◌^◌, ◌<◌, ◌≤◌, ◌≡◌, refl, ◌∙◌, ap, sym, subst, false, List, [], ◌∷◌, ◌++◌,
  append_assoc, append-nil, none, some, arith, ◌==◌, if◌then◌else◌, u16, length, get_or, All, pos,
}
use microbridge.Base.Run.{bind-inv}
use microbridge.Usb.Device.{Memory, fill, bytes_from}
use microbridge.Usb.Transfer.{Input}
use microbridge.Adb.Link.{
  connection_receive, receiving, Connection, Call, Adb, adb_read, adb_transfer, transfer,
}
use microbridge.Adb.Message.{Message, a_okay, encode, empty_header, write_empty_message}
use microbridge.Adb.Connection.{
  packet_length, receive_packet, receive_loop, handle_write, fire_event,
}
use microbridge.Adb.Flow.{bulk_write-frame}
use microbridge.Adb.Receiving.{IsReceipt, All-append, read-frame}

-- From `a` on the device delivers the payload: each transfer that asks for the next packet brings just the
-- bytes asked for, until none is left.
pub data Delivers (fuel : ℕ) : (left : ℕ) → Adb → List ℕ → Type 0 where
  over : {a : Adb} → Delivers fuel 0 a []
  brings :
      {left : ℕ} {a b : Adb} {rest : List ℕ} (input : Input)
      → 0 < left
      → adb_read fuel (packet_length left) false a ≡ some (input, b)
      → input.result ≡ pos (packet_length left)
      → length input.bytes ≡ packet_length left
      → Delivers fuel (left - packet_length left) b rest
      → Delivers fuel left a (input.bytes ++ rest)

-- The bytes that calls, newest first, hand to the handler with the number.
abbrev pub given : (handler : ℕ) → List Call → List ℕ
given handler [] = []
given handler (call ∷ older) =
    given handler older ++ (if call.handler == handler then call.bytes else [])

-- A transfer does not look at the calls made so far.
read_over_calls :
    (fuel len : ℕ) (input : Input) (a b : Adb) (calls : List Call)
    → adb_read fuel len false a ≡ some (input, b)
    → adb_read fuel len false (record a { calls = calls })
      ≡ some (input, record b { calls = calls })
unfolding adb_read adb_transfer transfer
read_over_calls fuel len input a b calls h = ground arith

fetch-stored :
    (bytes : List ℕ) (i : ℕ) (m : Memory)
    → ((k : ℕ) → k < length bytes → m (i + k) ≡ get_or bytes k 0)
    → bytes_from (length bytes) i m ≡ bytes
unfolding bytes_from
fetch-stored [] i m at = refl
fetch-stored (b ∷ bs) i m at =
    let first : m i ≡ b = ap m (omega arith) ∙ at 0 (omega arith) in
    let rest = fetch-stored bs (i + 1) m (λ k lt.
      let place : i + 1 + k ≡ i + suc k = omega arith in ap m place ∙ at (suc k) (omega arith)) in
    ap (λ x. x ∷ bytes_from (length bs) (i + 1) m) first ∙ ap (λ l. b ∷ l) rest

-- What has been stored from the pointer on is read from there.
bytes_from-fill :
    (bytes : List ℕ) (buf : Memory) → bytes_from (length bytes) 0 (fill bytes buf) ≡ bytes
unfolding fill
bytes_from-fill bytes buf =
    fetch-stored bytes 0 (fill bytes buf)
      (λ k lt. let same : 0 + k ≡ k = omega arith in ap (fill bytes buf) same ∙ ground (arith, lt))

-- The connection after a packet.
abbrev after_packet : ℕ → Connection → Connection
after_packet left c = record c { data_read = u16 (c.data_read + packet_length left) }

abbrev receipt : ℕ → Connection → List ℕ → Call
receipt handler c bytes = record {
  handler = handler;
  connection = some c.local_id;
  event = connection_receive;
  bytes = bytes;
}

-- A packet that arrives whole is handed to the connection's handler, and counted off.
receive_packet-hands :
    (fuel left handler : ℕ) (buf : Memory) (c : Connection) (a b : Adb) (calls : List Call)
    (input : Input)
    → left < 2 ^ 32
    → c.event_handler ≡ some handler
    → a.event_handler ≡ none
    → adb_read fuel (packet_length left) false a ≡ some (input, b)
    → input.result ≡ pos (packet_length left)
    → length input.bytes ≡ packet_length left
    → receive_packet fuel left buf c (record a { calls = calls })
      ≡ some (
        (false, left - packet_length left, fill input.bytes buf, after_packet left c),
        record b { calls = receipt handler c input.bytes ∷ calls },
      )
unfolding receive_packet fire_event
receive_packet-hands fuel left handler buf c a b calls input small own global read counted size =
    let whole : bytes_from (packet_length left) 0 (fill input.bytes buf) ≡ input.bytes =
      subst (λ n. bytes_from n 0 (fill input.bytes buf) ≡ input.bytes) size
        (bytes_from-fill input.bytes buf) in
    ground (
      arith,
      read_over_calls fuel (packet_length left) input a b calls read,
      read-frame fuel (packet_length left) false input a b read,
      whole,
    )

given-append :
    (handler : ℕ) (xs ys : List Call)
    → given handler (xs ++ ys) ≡ given handler ys ++ given handler xs
given-append handler [] ys = sym (append-nil (given handler ys))
given-append handler (x ∷ xs) ys =
    let last = if x.handler == handler then x.bytes else [] in
    ap (λ l. l ++ last) (given-append handler xs ys)
    ∙ append_assoc (given handler ys) (given handler xs) last

given-receipt :
    (handler : ℕ) (c : Connection) (bytes : List ℕ)
    → given handler (receipt handler c bytes ∷ []) ≡ bytes
given-receipt handler c bytes = ground arith

-- From `calls` to `more` the connection with the id has been handed the bytes, in packets.
abbrev pub Handed : (handler id : ℕ) → List ℕ → (calls more : List Call) → Type 0
Handed handler id bytes calls more =
    (new : List Call) × (more ≡ new ++ calls) × All (IsReceipt id) new × (given handler new ≡ bytes)

packet_length-le : (left : ℕ) → (packet_length left ≤ 64) × (packet_length left ≤ left)
packet_length-le left = (ground arith, ground arith)

receive_loop-Handed :
    (fuel rounds left handler : ℕ) (buf : Memory) (c d : Connection) (a e : Adb) (calls : List Call)
    (payload : List ℕ)
    → Delivers fuel left a payload
    → left < 2 ^ 32
    → c.event_handler ≡ some handler
    → a.event_handler ≡ none
    → receive_loop fuel rounds left buf c (record a { calls = calls }) ≡ some (d, e)
    → Handed handler c.local_id payload calls e.calls
unfolding receive_loop
receive_loop-Handed fuel zero left handler buf c d a e calls payload whole small own global h =
    absurd (ground arith)
receive_loop-Handed fuel (suc rounds) left handler buf c d a e calls payload over small own global
      h =
    ([], ground arith, tt, refl)
receive_loop-Handed fuel (suc rounds) left handler buf c d a e calls payload
      (brings {b = b} {rest = rest} input pos_left read counted size whole) small own global h =
    let packet =
      receive_packet-hands fuel left handler buf c a b calls input small own global read counted
        size in
    let call = receipt handler c input.bytes in
    let next = after_packet left c in
    let frame = read-frame fuel (packet_length left) false input a b read in
    let (le, _) = packet_length-le left in
    let tail =
      receive_loop-Handed fuel rounds (left - packet_length left) handler (fill input.bytes buf)
        next d b e (call ∷ calls) rest whole (omega arith) own (ground (arith, frame))
        (ground (arith, packet)) in
    let (new, more, all, bytes) = tail in
    (
      new ++ call ∷ [],
      more ∙ sym (append_assoc new (call ∷ []) calls),
      All-append c.local_id new (call ∷ []) all ((refl, refl, omega (arith, size, le)), tt),
      given-append handler new (call ∷ [])
          ∙ ap (λ l. l ++ given handler new) (given-receipt handler c input.bytes)
          ∙ ap (λ l. input.bytes ++ l) bytes,
    )

-- Where the payload of a WRTE message arrives whole, adb_handleWrite hands it to the handler of its
-- connection, in order and in packets of at most 64 bytes, and nothing else.
pub handle_write-Handed :
    (fuel handler : ℕ) (c d : Connection) (m : Message) (a b : Adb) (payload : List ℕ)
    → Delivers fuel m.data_length a payload
    → m.data_length < 2 ^ 32
    → c.event_handler ≡ some handler
    → a.event_handler ≡ none
    → handle_write fuel c m a ≡ some (d, b)
    → Handed handler c.local_id payload a.calls b.calls
unfolding handle_write write_empty_message
handle_write-Handed fuel handler c d m a b payload whole small own global h =
    let started = record c { status = receiving; data_read = 0; data_size = u16 m.data_length } in
    let (c', a1, e1, h1) =
      bind-inv (receive_loop fuel fuel m.data_length a.host.stack started) _ a h in
    let (r, a2, e2, h2) = bind-inv (write_empty_message fuel a_okay m.arg1 m.arg0) _ a1 h1 in
    let handed =
      receive_loop-Handed fuel fuel m.data_length handler a.host.stack started c' a a1 a.calls
        payload whole small own global e1 in
    let sent = bulk_write-frame fuel (encode (empty_header a_okay m.arg1 m.arg0)) r a1 a2 e2 in
    subst (Handed handler c.local_id payload a.calls) (ground (arith, sent)) handed
