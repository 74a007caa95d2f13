-- ===== src/Usb/Transfer/Reading.antt =====
-- usb_read (src/mcu/max3421e/max3421e_usb.c): the count that it returns and how much it stores.
use microbridge.Base.{
  ℕ, zero, suc, ◌+◌, ◌<◌, ◌≤◌, ◌≡◌, refl, ap, inl, inr, ◌⊎◌, ◌||◌, List, [], ◌++◌, some, arith, ltb,
  leb, u16, Bool-cases, Option-cases, ℤ, negsuc, int16, length, length-append,
}
use microbridge.Shield.{Shield}
use microbridge.Max3421e.{read, write}
use microbridge.Max3421e.Constants.{
  reg_hirq, reg_rcvbc, reg_rcvfifo, tok_in, bm_rcvtog0, bm_rcvtog1,
}
use microbridge.Max3421e.Laws.{reply, after_read}
use microbridge.Max3421e.Laws.Multiple.{length-received, read_multiple-ok}
use microbridge.Usb.Device.{Endpoint}
use microbridge.Usb.Transfer.{
  read_loop, usb_read, Input, Packet, failed, packet, dispatch_packet, read_packet, finish_read,
}

-- A failed transfer leaves the endpoint, and its result is -1 or -2. In one that succeeds the result
-- is the number of bytes stored, as a 16-bit int, and the toggle is set.
abbrev pub Read : Endpoint → Input → Type 0
Read e i =
    ((i.result ≡ negsuc 0) ⊎ (i.result ≡ negsuc 1)) × (i.endpoint ≡ e)
    ⊎ (i.result ≡ int16 (u16 (length i.bytes)))
      × ((i.endpoint ≡ record e { receive_toggle = bm_rcvtog0 })
          ⊎ (i.endpoint ≡ record e { receive_toggle = bm_rcvtog1 }))

pub packet-length :
    (fuel limit count : ℕ) (e : Endpoint) (bytes : List ℕ) (s t : Shield)
    → read_packet fuel e limit s ≡ some (packet count bytes, t)
    → (length bytes ≡ count) × (count < 256)
unfolding read_packet read write
packet-length fuel limit count e bytes s t h =
    elim (Option-cases (dispatch_packet fuel tok_in e limit s)) [
      | inl f ↦ absurd (ground arith)
      | inr ((rcode, u), f) ↦
          let ready = after_read reg_rcvbc (after_read reg_hirq u) in
          let n = reply (after_read reg_hirq u) in
          ground (
            arith,
            read_multiple-ok reg_rcvfifo n ready,
            length-received ready.replies n (ready.exchanges + 1),
          )
    ]

packet-failed :
    (fuel limit : ℕ) (e : Endpoint) (r : ℤ) (s t : Shield)
    → read_packet fuel e limit s ≡ some (failed r, t)
    → (r ≡ negsuc 0) ⊎ (r ≡ negsuc 1)
unfolding read_packet read write
packet-failed fuel limit e r s t h = elim (Option-cases (dispatch_packet fuel tok_in e limit s)) [
  | inl f ↦ absurd (ground arith)
  | inr ((rcode, u), f) ↦
      let ready = after_read reg_rcvbc (after_read reg_hirq u) in
      ground (arith, read_multiple-ok reg_rcvfifo (reply (after_read reg_hirq u)) ready)
]

finish_read-Read :
    (e : Endpoint) (total : ℕ) (bytes : List ℕ) (i : Input) (s t : Shield)
    → total ≡ u16 (length bytes)
    → finish_read e total bytes s ≡ some (i, t)
    → Read e i × (i.bytes ≡ bytes)
unfolding finish_read read
finish_read-Read e total bytes i s t n h = ground arith

Packet-cases :
    (p : Packet)
    → ((r : ℤ) × (p ≡ failed r)) ⊎ ((count : ℕ) × (bytes : List ℕ) × (p ≡ packet count bytes))
Packet-cases (failed r) = inl (r, refl)
Packet-cases (packet count bytes) = inr (count, bytes, refl)

read_loop-Read :
    (fuel rounds size limit total : ℕ) (e : Endpoint) (stored : List ℕ) (i : Input) (s t : Shield)
    → size + 256 ≤ 65536
    → total ≡ length stored
    → total ≤ size
    → read_loop fuel rounds e size limit total stored s ≡ some (i, t)
    → Read e i × (length i.bytes < size + 256)
unfolding read_loop
read_loop-Read fuel zero size limit total e stored i s t small n le h = absurd (ground arith)
read_loop-Read fuel (suc rounds) size limit total e stored i s t small n le h =
    elim (Option-cases (read_packet fuel e limit s)) [
      | inl f ↦ absurd (ground arith)
      | inr ((p, u), f) ↦ elim (Packet-cases p) [
        | inl (r, g) ↦
            let code = packet-failed fuel limit e r s u (ground arith) in ground (arith, code)
        | inr (count, bytes, g) ↦
            let sum = u16 (total + count) in
            let size_ok = packet-length fuel limit count e bytes s u (ground arith) in
            let all = length-append stored bytes in
            elim (Bool-cases (ltb count e.max_packet_size || leb size sum)) [
              | inl over ↦
                  let done =
                    finish_read-Read e sum (stored ++ bytes) i u t (omega (arith, all))
                      (ground arith) in
                  (done.0, omega (arith, ap length done.1, all))
              | inr more ↦
                  read_loop-Read fuel rounds size limit sum e (stored ++ bytes) i u t small
                    (omega (arith, all)) (ground arith) (ground arith)
            ]
      ]
    ]

-- An IN transfer of at most 0xff00 bytes that comes back has failed with -1 or -2 and left the endpoint, or
-- its result is the number of bytes that it stored, as a 16-bit int (negative from 0x8000 on), and the
-- toggle is set; in either case it stores fewer than 256 bytes beyond the length asked for.
pub usb_read-Read :
    (fuel address size limit : ℕ) (e : Endpoint) (i : Input) (s t : Shield)
    → size + 256 ≤ 65536
    → usb_read fuel address e size limit s ≡ some (i, t)
    → Read e i × (length i.bytes < size + 256)
unfolding usb_read write
usb_read-Read fuel address size limit e i s t small h =
    read_loop-Read fuel fuel size limit 0 e [] i _ t small refl (omega arith) h
