-- ===== src/Arduino/Output.antt =====
-- OUT transfers of src/arduino/usb.cpp: USB::write and USB::bulkWrite.
pub mod Agreement
use microbridge.Base.{
  ℕ, zero, suc, ◌+◌, ◌-◌, ◌*◌, ◌/◌, ◌^◌, Bool, true, false, not, List, [], ◌∷◌, ◌++◌, Option, none,
  some, ◌==◌, ltb, leb, u8, u16, u32, sub32, bit_and, bit_or, if◌then◌else◌, ◌||◌, ◌&&◌, ℤ, pos,
  negsuc, int16, take, drop, get_or, length, is_neg, is_zero, to_word, equals,
}
use microbridge.Base.Run.{Cmd, pure, ◌>>=◌, ◌>>◌, get, modify}
use microbridge.Arduino.Core.{Core}
use microbridge.Max3421e.Constants.{
  reg_sndfifo, reg_sndbc, reg_hirq, reg_peraddr, reg_hctl, reg_hxfr, reg_hrsl, bm_hxfrdnirq,
  bm_sndtog0, bm_sndtog1, tok_out, bm_sndtogrd,
}
use microbridge.Shield.{Shield}
use microbridge.Usb.Constants.{xfer_timeout, nak_limit}
use microbridge.Usb.Device.{Endpoint, Device}
use microbridge.Usb.Transfer.{finish, again, verdict}
use microbridge.Arduino.Max3421e.{write, write_multiple, read}

module _ (core : Core) where
  -- `while (!(max3421e_read(MAX_REG_HIRQ) & bmHXFRDNIRQ));`
  wait_done : (fuel : ℕ) → Cmd Shield (Unit {0})
  wait_done zero = λ _. none
  wait_done (suc fuel) =
      let again = wait_done fuel in
      do hirq ← read core reg_hirq; if bit_and hirq bm_hxfrdnirq == 0 then again else pure tt

  -- Launch an OUT transfer, wait for its end, clear the interrupt and fetch the result.
  launch : (fuel address : ℕ) → Cmd Shield ℕ
  unfolding wait_done
  launch fuel address = do
    write core reg_hxfr (bit_or tok_out address)
    wait_done fuel
    write core reg_hirq bm_hxfrdnirq
    hrsl ← read core reg_hrsl
    pure (bit_and hrsl 0x0f)

  -- Process a NAK or a timeout: load the first byte again and launch.
  resend : (wait address first count : ℕ) → Cmd Shield ℕ
  unfolding launch
  resend wait address first count = do
    write core reg_sndbc 0
    write core reg_sndfifo first
    write core reg_sndbc count
    launch wait address

  -- The retries of one packet. The flag says that usb_write returns the result at once.
  retry_loop :
      (wait fuel : ℕ) (address timeout first count : ℕ) (rcode naks retries : ℕ)
      → Cmd Shield (Bool × ℕ)
  unfolding resend verdict
  retry_loop wait zero address timeout first count rcode naks retries = λ _. none
  retry_loop wait (suc fuel) address timeout first count rcode naks retries =
      let next = retry_loop wait fuel address timeout first count in
      if rcode == 0 then pure (false, rcode) else do
        now ← core.millis
        if ltb now timeout
            then elim (verdict nak_limit rcode naks retries) [
              | finish ↦ pure (true, rcode)
              | again n r ↦ (do result ← resend wait address first count; next result n r)
            ]
            else pure (false, rcode)

  -- One packet: load the FIFO, set the byte count, launch and retry.
  send_packet : (fuel address timeout : ℕ) → List ℕ → Cmd Shield (Bool × ℕ)
  unfolding launch retry_loop
  send_packet fuel address timeout bytes = do
    write_multiple core reg_sndfifo bytes
    write core reg_sndbc (length bytes)
    result ← launch fuel address
    retry_loop fuel fuel address timeout (get_or bytes 0 0) (length bytes) result 0 0

  -- `while (bytes_left)`: `rounds` bounds the number of packets.
  send_loop :
      (fuel rounds : ℕ) (address timeout size : ℕ) → List ℕ → (rcode : ℕ) → Cmd Shield (Bool × ℕ)
  unfolding send_packet
  send_loop fuel rounds address timeout size [] rcode = pure (false, rcode)
  send_loop fuel zero address timeout size (b ∷ bs) rcode = λ _. none
  send_loop fuel (suc rounds) address timeout size (b ∷ bs) rcode =
      let again = send_loop fuel rounds address timeout size in
      let count = if leb size (length (b ∷ bs)) then size else length (b ∷ bs) in
      do
        (stop, result) ← send_packet fuel address timeout (take count (b ∷ bs))
        if stop then pure (true, result) else again (drop count (b ∷ bs)) result

  -- `bytes` are the `length` bytes at the data pointer.
  unfoldable pub usb_write :
      (fuel address : ℕ) → Endpoint → (bytes : List ℕ) → Cmd Shield (ℕ × Endpoint)
  unfolding send_loop
  usb_write fuel address endpoint bytes = do
    write core reg_peraddr address
    now ← core.millis
    let timeout = u32 (now + xfer_timeout)
    let size = u8 endpoint.max_packet_size
    if size == 0 then pure (0xfe, endpoint) else (do
      write core reg_hctl endpoint.send_toggle
      (stop, rcode) ← send_loop fuel (length bytes) endpoint.address timeout size bytes 0
      if stop then pure (rcode, endpoint) else (do
        hrsl ← read core reg_hrsl
        let toggle = if bit_and hrsl bm_sndtogrd == 0 then bm_sndtog0 else bm_sndtog1
        pure (rcode, record endpoint { send_toggle = toggle })))

  unfoldable pub bulk_write : (fuel : ℕ) → Device → List ℕ → Cmd Shield (ℕ × Device)
  bulk_write fuel device bytes = do
    (rcode, endpoint) ← usb_write fuel device.address device.bulk_out bytes
    pure (rcode, record device { bulk_out = endpoint })
