-- ===== src/Usb/Output/Sending.antt =====
-- What usb_write (src/mcu/max3421e/max3421e_usb.c) puts into the send FIFO.
use microbridge.Base.{
  ℕ, zero, suc, ◌+◌, ◌*◌, ◌<◌, ◌≤◌, ◌≡◌, refl, false, List, [], ◌∷◌, ◌++◌, some, arith, ◌==◌,
  bit_and, bit_or, if◌then◌else◌, u8, u32, leb, take, drop, length, length-drop, length-take,
  take-append-drop, append_assoc, append-nil, ap, ◌∙◌, sym, subst,
}
use microbridge.Shield.{Shield, millis}
use microbridge.Max3421e.{write, read}
use microbridge.Max3421e.Constants.{
  reg_sndfifo, reg_sndbc, reg_hrsl, reg_peraddr, reg_hctl, bm_hxfrdnirq, bm_sndtogrd, bm_sndtog0,
  bm_sndtog1,
}
use microbridge.Max3421e.Access.{accesses}
use microbridge.Max3421e.Laws.{reply, after_read, after_write}
use microbridge.Max3421e.Laws.Multiple.{
  after_write_multiple, after_values, after_exchange, open_frame, write_multiple-ok,
}
use microbridge.Usb.Constants.{xfer_timeout}
use microbridge.Usb.Device.{Endpoint}
use microbridge.Usb.Output.Loaded.{
  loaded, after_launch, loaded-write, loaded-read, after_packet, loaded-packet,
}
use microbridge.Usb.Output.{launch, send_packet, send_loop, wait_done, retry_loop, usb_write}

-- In the next `count` exchanges the chip answers that a transfer is done, and that it has succeeded.
abbrev pub Acknowledges : (count : ℕ) → Shield → Type 0
Acknowledges count s =
    (n : ℕ)
    → n < count
    → ((bit_and (u8 (s.replies (s.exchanges + n))) bm_hxfrdnirq == 0) ≡ false)
      × (bit_and (u8 (s.replies (s.exchanges + n))) 0x0f ≡ 0)

-- From `s` to `t` there have been `k` exchanges.
abbrev pub Later : (k : ℕ) → Shield → Shield → Type 0
Later k s t = (t.replies ≡ s.replies) × (t.exchanges ≡ s.exchanges + k)

pub Later-trans : (k j : ℕ) (s t u : Shield) → Later k s t → Later j t u → Later (k + j) s u
Later-trans k j s t u (same, moved) (same', moved') = (same' ∙ same, omega arith)

pub Acknowledges-Later :
    (k more count : ℕ) (s t : Shield)
    → Later k s t
    → k + more ≤ count
    → Acknowledges count s
    → Acknowledges more t
Acknowledges-Later k more count s t (same, moved) enough acks n lt =
    let place : s.exchanges + (k + n) ≡ t.exchanges + n = omega arith in
    let reply : s.replies (s.exchanges + (k + n)) ≡ t.replies (t.exchanges + n) =
      ap s.replies place ∙ ap (λ f. f (t.exchanges + n)) (sym same) in
    subst (λ r. ((bit_and (u8 r) bm_hxfrdnirq == 0) ≡ false) × (bit_and (u8 r) 0x0f ≡ 0)) reply
      (acks (k + n) (omega arith))

-- The number of packets of at most `size` bytes that take the bytes out.
unfoldable pub packets : (rounds size : ℕ) → List ℕ → ℕ
packets zero size bytes = 0
packets (suc rounds) size [] = 0
packets (suc rounds) size (b ∷ bs) =
    let count = if leb size (length (b ∷ bs)) then size else length (b ∷ bs) in
    packets rounds size (drop count (b ∷ bs)) + 1

-- The exchanges of an OUT transfer to an endpoint with packets of `size` bytes.
unfoldable pub exchanges_for : (size : ℕ) → List ℕ → ℕ
unfolding packets
exchanges_for size bytes = length bytes + 11 * packets (length bytes) size bytes + 6

launch-ok :
    (fuel address : ℕ) (s : Shield)
    → Acknowledges 8 s
    → launch (suc fuel) address s ≡ some (0, after_launch address s)
unfolding launch wait_done write read
launch-ok fuel address s acks = ground (arith, acks 3 (omega arith), acks 7 (omega arith))

after_values-Later : (bytes : List ℕ) (s : Shield) → Later (length bytes) s (after_values bytes s)
after_values-Later [] s = (refl, omega arith)
after_values-Later (b ∷ bs) s =
    let (same, moved) = after_values-Later bs (after_exchange b s) in (same, omega arith)

-- Loading the FIFO.
filled : List ℕ → Shield → Shield
filled bytes s = after_write reg_sndbc (length bytes) (after_write_multiple reg_sndfifo bytes s)

filled-Later : (bytes : List ℕ) (s : Shield) → Later (length bytes + 3) s (filled bytes s)
unfolding filled
filled-Later bytes s =
    let (same, moved) = after_values-Later bytes (open_frame (bit_or reg_sndfifo 2) s) in
    (same, omega arith)

send_packet-ok :
    (fuel address timeout : ℕ) (bytes : List ℕ) (s : Shield)
    → Acknowledges (length bytes + 11) s
    → send_packet (suc fuel) address timeout bytes s
      ≡ some ((false, 0), after_packet address bytes s)
unfolding send_packet retry_loop write filled
send_packet-ok fuel address timeout bytes s acks = ground (
  arith,
  write_multiple-ok reg_sndfifo bytes s,
  launch-ok fuel address (filled bytes s) (
      Acknowledges-Later (length bytes + 3) 8 (length bytes + 11) s (filled bytes s)
        (filled-Later bytes s) (omega arith) acks),
)

packet-Later :
    (address : ℕ) (bytes : List ℕ) (s : Shield)
    → Later (length bytes + 11) s (after_packet address bytes s)
unfolding filled
packet-Later address bytes s = let (same, moved) = filled-Later bytes s in (same, omega arith)

-- What is loaded in two parts.
pub loaded-then :
    (before chunk rest all between after : List ℕ)
    → after ≡ between ++ rest
    → between ≡ before ++ chunk
    → chunk ++ rest ≡ all
    → after ≡ before ++ all
loaded-then before chunk rest all between after second first whole =
    second
    ∙ ap (λ l. l ++ rest) first
    ∙ append_assoc before chunk rest
    ∙ ap (λ l. before ++ l) whole

-- The packets take the bytes out in order.
send_loop-ok :
    (fuel rounds address timeout size : ℕ) (bytes : List ℕ) (s : Shield)
    → Acknowledges (length bytes + 11 * packets rounds size bytes) s
    → 0 < size
    → length bytes ≤ rounds
    → (t : Shield) × (send_loop (suc fuel) rounds address timeout size bytes 0 s
        ≡ some ((false, 0), t))
      × (loaded t ≡ loaded s ++ bytes)
      × Later (length bytes + 11 * packets rounds size bytes) s t
unfolding send_loop packets
send_loop-ok fuel zero address timeout size [] s acks pos enough =
    (s, ground arith, sym (append-nil (loaded s)), (refl, omega arith))
send_loop-ok fuel (suc rounds) address timeout size [] s acks pos enough =
    (s, ground arith, sym (append-nil (loaded s)), (refl, omega arith))
send_loop-ok fuel zero address timeout size (b ∷ bs) s acks pos enough = absurd (omega arith)
send_loop-ok fuel (suc rounds) address timeout size (b ∷ bs) s acks pos enough =
    let count = if leb size (length (b ∷ bs)) then size else length (b ∷ bs) in
    let chunk = take count (b ∷ bs) in
    let rest = drop count (b ∷ bs) in
    let sent = after_packet address chunk s in
    let first = length chunk + 11 in
    let left = length rest + 11 * packets rounds size rest in
    let whole = length (b ∷ bs) + 11 * (packets rounds size rest + 1) in
    let parts : (0 < length chunk) × (length chunk + length rest ≡ length (b ∷ bs)) =
      ground (arith, length-take count (b ∷ bs), length-drop count (b ∷ bs)) in
    let moved = packet-Later address chunk s in
    let (t, ends, bytes_loaded, later) =
      send_loop-ok fuel rounds address timeout size rest sent
        (Acknowledges-Later first left whole s sent moved (omega (arith, parts)) acks) pos
        (omega (arith, parts)) in
    let before =
      send_packet-ok fuel address timeout chunk s
        (Acknowledges-Later 0 first whole s s (refl, omega arith) (omega (arith, parts)) acks) in
    let (same, place) = Later-trans first left s sent t moved later in
    (
      t,
      ground (arith, before, ends),
      loaded-then (loaded s) chunk rest (b ∷ bs) (loaded sent) (loaded t) bytes_loaded
          (loaded-packet address chunk s) (take-append-drop count (b ∷ bs)),
      (same, omega (arith, place, parts)),
    )

-- Where the chip acknowledges every transfer for the exchanges that it takes, an OUT transfer to an
-- endpoint with a packet size ends with 0, and has put the bytes given, and no others, into the send FIFO,
-- in order.
pub usb_write-loaded :
    (fuel address : ℕ) (e : Endpoint) (bytes : List ℕ) (s : Shield)
    → Acknowledges (exchanges_for (u8 e.max_packet_size) bytes) s
    → 0 < fuel
    → 0 < u8 e.max_packet_size
    → (toggle : ℕ) × (t : Shield) × (usb_write fuel address e bytes s
        ≡ some ((0, record e { send_toggle = toggle }), t))
      × (loaded t ≡ loaded s ++ bytes)
      × Later (exchanges_for (u8 e.max_packet_size) bytes) s t
unfolding usb_write write read millis loaded accesses exchanges_for
usb_write-loaded zero address e bytes s acks some_fuel pos = absurd (omega arith)
usb_write-loaded (suc fuel) address e bytes s acks some_fuel pos =
    let addressed = after_write reg_peraddr address s in
    let timeout = u32 (u32 (s.clock s.readings) + xfer_timeout) in
    let ready =
      after_write reg_hctl e.send_toggle (record addressed { readings = s.readings + 1 }) in
    let size = u8 e.max_packet_size in
    let count = length bytes + 11 * packets (length bytes) size bytes in
    let (t, ends, bytes_loaded, (same, moved)) =
      send_loop-ok fuel (length bytes) e.address timeout size bytes ready
        (Acknowledges-Later 4 count (exchanges_for size bytes) s ready (refl, omega arith)
          (omega arith) acks)
        pos (omega arith) in
    let toggle = if bit_and (reply t) bm_sndtogrd == 0 then bm_sndtog0 else bm_sndtog1 in
    (
      toggle,
      after_read reg_hrsl t,
      ground (arith, ends),
      loaded-read reg_hrsl t (omega arith) refl
          ∙ bytes_loaded
          ∙ ap (λ l. l ++ bytes)
              (loaded-write reg_hctl e.send_toggle (record addressed { readings = s.readings + 1 })
                  (omega arith) refl refl
                ∙ loaded-write reg_peraddr address s (omega arith) refl refl),
      (same, omega arith),
    )
