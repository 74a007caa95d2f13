-- ===== src/Adb/Receiving.antt =====
-- What adb_handleWrite (src/mcu/adb.c) tells the handlers.
use microbridge.Base.{
  ℕ, zero, suc, ◌+◌, ◌≤◌, ◌≡◌, refl, inl, inr, Bool, true, false, List, [], ◌∷◌, ◌++◌, Option, none,
  some, arith, ◌==◌, if◌then◌else◌, u16, Option-cases, Bool-cases, length, All, ap, ◌∙◌, sym,
  append_assoc,
}
use microbridge.Base.{equals, subst}
use microbridge.Base.Run.{pure, ◌>>◌, bind-inv}
use microbridge.Shield.{Notice, print, read_mismatch}
use microbridge.Usb.Device.{Memory, fill, bytes_from}
use microbridge.Usb.Transfer.{Input}
use microbridge.Adb.Link.{connection_receive, receiving, Connection, Call, Adb, adb_read, on_board}
use microbridge.Adb.States.{receive-same}
use microbridge.Adb.Flow.{bulk_write-frame}
use microbridge.Adb.Message.{Message, encode, empty_header, write_empty_message, a_okay}
use microbridge.Adb.Connection.{
  packet_length, receive_packet, receive_loop, handle_write, fire_event, is_error,
}

-- A call that hands over part of a payload of the connection with the id: a packet at most.
abbrev pub IsReceipt : ℕ → Call → Type 0
IsReceipt id call =
    (call.connection ≡ some id) × (call.event ≡ connection_receive) × (length call.bytes ≤ 64)

-- From `calls` to `more` there have been receipts only.
abbrev pub Receipts : ℕ → (calls more : List Call) → Type 0
Receipts id calls more = (new : List Call) × (more ≡ new ++ calls) × All (IsReceipt id) new

pub length-bytes_from : (count i : ℕ) (m : Memory) → length (bytes_from count i m) ≡ count
unfolding bytes_from
length-bytes_from zero i m = refl
length-bytes_from (suc count) i m = ap suc (length-bytes_from count (i + 1) m)

pub read-frame :
    (fuel len : ℕ) (poll : Bool) (input : Input) (a b : Adb)
    → adb_read fuel len poll a ≡ some (input, b)
    → b ≡ record a { host = b.host }
unfolding adb_read
read-frame fuel len poll input a b h = ground arith

-- The calls of a handler, if it is set.
abbrev heard : Option ℕ → ℕ → List ℕ → List Call
heard none id bytes = []
heard (some h) id bytes =
    record { handler = h; connection = some id; event = connection_receive; bytes = bytes } ∷ []

heard-All :
    (h : Option ℕ) (id : ℕ) (bytes : List ℕ)
    → length bytes ≤ 64
    → All (IsReceipt id) (heard h id bytes)
heard-All none id bytes le = tt
heard-All (some h) id bytes le = ((refl, refl, le), tt)

pub All-append :
    (id : ℕ) (xs ys : List Call)
    → All (IsReceipt id) xs
    → All (IsReceipt id) ys
    → All (IsReceipt id) (xs ++ ys)
All-append id [] ys p q = q
All-append id (x ∷ xs) ys (p, ps) q = (p, All-append id xs ys ps q)

Receipts-trans :
    (id : ℕ) (xs ys zs : List Call) → Receipts id xs ys → Receipts id ys zs → Receipts id xs zs
Receipts-trans id xs ys zs (n, e, p) (k, f, q) =
    (k ++ n, f ∙ ap (λ l. k ++ l) e ∙ sym (append_assoc k n xs), All-append id k n q p)

fire-Receipts :
    (c : Connection) (bytes : List ℕ) (a b : Adb)
    → length bytes ≤ 64
    → fire_event c connection_receive bytes a ≡ some (tt, b)
    → Receipts c.local_id a.calls b.calls
unfolding fire_event
fire-Receipts c bytes a b le h =
    let own = heard c.event_handler c.local_id bytes in
    let global = heard a.event_handler c.local_id bytes in
    (
      own ++ global,
      ground arith,
      All-append c.local_id own global (heard-All c.event_handler c.local_id bytes le)
          (heard-All a.event_handler c.local_id bytes le),
    )

mismatch-frame :
    (same : Bool) (n : Notice) (a b : Adb)
    → (if same then pure tt else on_board (print n)) a ≡ some (tt, b)
    → b ≡ record a { host = b.host }
unfolding on_board print
mismatch-frame true n a b h = ground arith
mismatch-frame false n a b h = ground arith

-- The end of the loop's body: a break, or the event and the next round.
after_read-Receipts :
    (stop : Bool) (left next : ℕ) (buf : Memory) (bytes : List ℕ) (c d : Connection) (a b : Adb)
    (r : Bool × ℕ × Memory × Connection)
    → length bytes ≤ 64
    → d.local_id ≡ c.local_id
    → (if stop
          then pure (true, left, buf, c)
          else (fire_event d connection_receive bytes >> pure (false, next, buf, d)))
        a
      ≡ some (r, b)
    → Receipts c.local_id a.calls b.calls × (r.3.local_id ≡ c.local_id)
after_read-Receipts true left next buf bytes c d a b r le same h =
    (([], ground arith, tt), ground arith)
after_read-Receipts false left next buf bytes c d a b r le same h =
    let (_, a1, e1, h1) = bind-inv (fire_event d connection_receive bytes) _ a h in
    let calls = fire-Receipts d bytes a a1 le e1 in
    let e : a1 ≡ b = ground arith in
    (
      subst (λ id. Receipts id a.calls b.calls) same
          (subst (λ x. Receipts d.local_id a.calls x.calls) e calls),
      ground arith,
    )

packet-Receipts :
    (fuel left : ℕ) (buf : Memory) (c : Connection) (a b : Adb) (r : Bool × ℕ × Memory × Connection)
    → receive_packet fuel left buf c a ≡ some (r, b)
    → Receipts c.local_id a.calls b.calls × (r.3.local_id ≡ c.local_id)
unfolding receive_packet
packet-Receipts fuel left buf c a b r h =
    let len = packet_length left in
    let (input, a1, e1, h1) = bind-inv (adb_read fuel len false) _ a h in
    let (_, a2, e2, h2) =
      bind-inv
        (if equals input.result len
          then pure tt
          else on_board (print (read_mismatch len input.result left)))
        _ a1 h1 in
    let got = fill input.bytes buf in
    let next = record c { data_read = u16 (c.data_read + len) } in
    let rest =
      after_read-Receipts (is_error input.result) left _ got (bytes_from len 0 got) c next a2 b r
        (ground (arith, length-bytes_from len 0 got)) refl h2 in
    let e : a2.calls ≡ a.calls = ground (
      arith,
      read-frame fuel len false input a a1 e1,
      mismatch-frame (equals input.result len) (read_mismatch len input.result left) a1 a2 e2,
    ) in
    (subst (λ calls. Receipts c.local_id calls b.calls) e rest.0, rest.1)

receive_loop-Receipts :
    (fuel rounds left : ℕ) (buf : Memory) (c d : Connection) (a b : Adb)
    → receive_loop fuel rounds left buf c a ≡ some (d, b)
    → Receipts c.local_id a.calls b.calls
unfolding receive_loop
receive_loop-Receipts fuel zero left buf c d a b h = absurd (ground arith)
receive_loop-Receipts fuel (suc rounds) left buf c d a b h = elim (Bool-cases (left == 0)) [
  | inl z ↦ ([], ground arith, tt)
  | inr more ↦ elim (Option-cases (receive_packet fuel left buf c a)) [
    | inl e ↦ absurd (ground arith)
    | inr (((stop, next, got, c'), a1), e) ↦
        let (first, same) = packet-Receipts fuel left buf c a a1 (stop, next, got, c') e in
        elim (Bool-cases stop) [
          | inl s ↦
              let e : a1 ≡ b = ground arith in
              subst (λ (x : Adb). Receipts c.local_id a.calls x.calls) e first
          | inr s ↦
              let rest = receive_loop-Receipts fuel rounds next got c' d a1 b (ground arith) in
              Receipts-trans c.local_id a.calls a1.calls b.calls first
                (subst (λ id. Receipts id a1.calls b.calls) same rest)
        ]
  ]
]

-- While the payload of a WRTE message is taken in, the handlers are called with receipts for its
-- connection only, of at most 64 bytes each; the connection is then in the state that it was in, and
-- remembers the 16 low bits of the size.
pub handle_write-Receipts :
    (fuel : ℕ) (c d : Connection) (m : Message) (a b : Adb)
    → handle_write fuel c m a ≡ some (d, b)
    → Receipts c.local_id a.calls b.calls
      × (d.status ≡ c.status)
      × (d.data_size ≡ u16 m.data_length)
unfolding handle_write write_empty_message
handle_write-Receipts fuel c d m a b h =
    let started = record c { status = receiving; data_read = 0; data_size = u16 m.data_length } in
    let (c', a1, e1, h1) =
      bind-inv (receive_loop fuel fuel m.data_length a.host.stack started) _ a h in
    let (r, a2, e2, h2) = bind-inv (write_empty_message fuel a_okay m.arg1 m.arg0) _ a1 h1 in
    let told = receive_loop-Receipts fuel fuel m.data_length a.host.stack started c' a a1 e1 in
    let kept = receive-same fuel fuel m.data_length a.host.stack started c' a a1 e1 in
    let sent = bulk_write-frame fuel (encode (empty_header a_okay m.arg1 m.arg0)) r a1 a2 e2 in
    (
      subst (λ calls. Receipts c.local_id a.calls calls) (ground (arith, sent)) told,
      ground arith,
      ground (arith, kept),
    )
