-- ===== src/Arduino/Transfer.antt =====
-- Packets and IN transfers of src/arduino/usb.cpp: usb_dispatchPacket, USB::read and USB::bulkRead.
pub mod Agreement
use microbridge.Base.{
  ℕ, zero, suc, ◌+◌, ◌-◌, ◌*◌, ◌/◌, ◌^◌, Bool, true, false, not, List, [], ◌∷◌, ◌++◌, Option, none,
  some, ◌==◌, ltb, leb, u8, u16, u32, sub32, bit_and, bit_or, if◌then◌else◌, ◌||◌, ◌&&◌, ℤ, pos,
  negsuc, int16, take, drop, get_or, length, is_neg, is_zero, to_word, equals,
}
use microbridge.Base.Run.{Cmd, pure, ◌>>=◌, ◌>>◌, get, modify}
use microbridge.Arduino.Core.{Core}
use microbridge.Max3421e.Constants.{
  reg_rcvfifo, reg_sndfifo, reg_rcvbc, reg_sndbc, reg_hirq, reg_peraddr, reg_hctl, reg_hxfr,
  reg_hrsl, bm_rcvdavirq, bm_hxfrdnirq, bm_rcvtog0, bm_rcvtog1, bm_sndtog0, bm_sndtog1, tok_in,
  tok_out, bm_rcvtogrd, bm_sndtogrd, hr_busy, hr_nak, hr_timeout,
}
use microbridge.Shield.{Shield}
use microbridge.Usb.Constants.{xfer_timeout, nak_limit}
use microbridge.Usb.Device.{Endpoint, Device}
use microbridge.Usb.Transfer.{Verdict, finish, again, verdict, Input, Packet, failed, packet}
use microbridge.Arduino.Max3421e.{write, write_multiple, read, read_multiple}

module _ (core : Core) where
  -- The wait for the transfer-done interrupt: 0x00, or 0xff after the timeout.
  wait_interrupt : (fuel timeout : ℕ) → Cmd Shield ℕ
  wait_interrupt zero timeout = λ _. none
  wait_interrupt (suc fuel) timeout =
      let again = wait_interrupt fuel timeout in
      do
        now ← core.millis
        if ltb now timeout
            then (do
              hirq ← read core reg_hirq
              if bit_and hirq bm_hxfrdnirq == 0
                  then again
                  else (do write core reg_hirq bm_hxfrdnirq; pure 0x00))
            else pure 0xff

  -- The wait for a result that is not BUSY; `rcode` is what the variable holds.
  wait_result : (fuel timeout rcode : ℕ) → Cmd Shield ℕ
  wait_result zero timeout rcode = λ _. none
  wait_result (suc fuel) timeout rcode =
      let again = wait_result fuel timeout in
      do
        now ← core.millis
        if ltb now timeout
            then (do
              hrsl ← read core reg_hrsl
              let result = bit_and hrsl 0x0f
              if result == hr_busy then again result else pure result)
            else pure rcode

  -- A round that launches the transfer: the code that it ends with, and whether that is a result.
  dispatch_round : (wait token address timeout : ℕ) → Cmd Shield (Bool × ℕ)
  unfolding wait_interrupt wait_result
  dispatch_round wait token address timeout = do
    write core reg_hxfr (bit_or token address)
    done ← wait_interrupt wait timeout
    if done == 0
        then (do result ← wait_result wait timeout done; pure (true, result))
        else pure (false, done)

  dispatch_loop :
      (wait fuel : ℕ) (token address limit timeout : ℕ) (rcode naks retries : ℕ) → Cmd Shield ℕ
  unfolding dispatch_round verdict
  dispatch_loop wait zero token address limit timeout rcode naks retries = λ _. none
  dispatch_loop wait (suc fuel) token address limit timeout rcode naks retries =
      let next = dispatch_loop wait fuel token address limit timeout in
      do
        now ← core.millis
        if ltb now timeout
            then (do
              (done, result) ← dispatch_round wait token address timeout
              if done
                  then elim (verdict limit result naks retries) [
                    | finish ↦ pure result
                    | again n r ↦ next result n r
                  ]
                  else pure result)
            else pure rcode

  unfoldable pub dispatch_packet : (fuel token : ℕ) → Endpoint → (limit : ℕ) → Cmd Shield ℕ
  unfolding dispatch_loop
  dispatch_packet fuel token endpoint limit = do
    now ← core.millis
    let timeout = u32 (now + xfer_timeout)
    dispatch_loop fuel fuel token endpoint.address limit timeout 0 0 0

  read_packet : (fuel : ℕ) → Endpoint → (limit : ℕ) → Cmd Shield Packet
  read_packet fuel endpoint limit = do
    rcode ← dispatch_packet fuel tok_in endpoint limit
    if rcode == 0
        then (do
          hirq ← read core reg_hirq
          if bit_and hirq bm_rcvdavirq == 0 then pure (failed (negsuc 1)) else (do
            bytes_read ← read core reg_rcvbc
            bytes ← read_multiple core reg_rcvfifo bytes_read
            write core reg_hirq bm_rcvdavirq
            pure (packet bytes_read bytes)))
        else pure (failed (negsuc 0))

  -- The toggle is remembered for the next transfer.
  finish_read : Endpoint → (total : ℕ) → List ℕ → Cmd Shield Input
  finish_read endpoint total stored = do
    hrsl ← read core reg_hrsl
    let toggle = if bit_and hrsl bm_rcvtogrd == 0 then bm_rcvtog0 else bm_rcvtog1
    pure (record {
      result = int16 total;
      bytes = stored;
      endpoint = record endpoint { receive_toggle = toggle };
    })

  -- The rounds of `while (1)`, after `total` bytes.
  read_loop :
      (fuel rounds : ℕ) → Endpoint → (length limit : ℕ) → (total : ℕ) → List ℕ → Cmd Shield Input
  unfolding read_packet finish_read
  read_loop fuel zero endpoint length limit total stored = λ _. none
  read_loop fuel (suc rounds) endpoint length limit total stored =
      let next = read_loop fuel rounds endpoint length limit in
      do
        p ← read_packet fuel endpoint limit
        elim p [
          | failed r ↦ pure (record { result = r; bytes = stored; endpoint = endpoint })
          | packet count bytes ↦
              let sum = u16 (total + count) in
              if ltb count endpoint.max_packet_size || leb length sum
              then finish_read endpoint sum (stored ++ bytes)
              else next sum (stored ++ bytes)
        ]

  unfoldable pub usb_read : (fuel address : ℕ) → Endpoint → (length limit : ℕ) → Cmd Shield Input
  unfolding read_loop
  usb_read fuel address endpoint length limit = do
    write core reg_peraddr address
    write core reg_hctl endpoint.receive_toggle
    read_loop fuel fuel endpoint length limit 0 []

  -- `poll` asks for one try only.
  unfoldable pub bulk_read : (fuel : ℕ) → Device → (length : ℕ) → Bool → Cmd Shield (Input × Device)
  bulk_read fuel device length poll = do
    input ← usb_read fuel device.address device.bulk_in length (if poll then 1 else nak_limit)
    pure (input, record device { bulk_in = input.endpoint })
