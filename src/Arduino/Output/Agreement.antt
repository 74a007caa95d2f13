-- ===== src/Arduino/Output/Agreement.antt =====
-- OUT transfers of src/arduino/usb.cpp, beside src/mcu/max3421e/max3421e_usb.c.
use microbridge.Base.{
  ℕ, zero, suc, ◌≡◌, refl, List, [], ◌∷◌, true, false, ◌==◌, ltb, leb, u8, u32, ◌+◌, bit_and,
  length, get_or, take, drop, if◌then◌else◌,
}
use mathlib.Core.Path.{fun_ext}
use microbridge.Base.Run.{pure, ◌>>=◌, ◌>>◌}
use microbridge.Max3421e.Constants.{
  reg_sndfifo, reg_sndbc, reg_peraddr, reg_hctl, reg_hrsl, bm_sndtogrd, bm_sndtog0, bm_sndtog1,
}
use microbridge.Usb.Constants.{nak_limit, xfer_timeout}
use microbridge.Usb.Transfer.{finish, again, verdict}
use microbridge.Usb.Output
use microbridge.Arduino.Core.{Core, Agrees}
use microbridge.Arduino.Max3421e.Agreement.{write-agrees, write_multiple-agrees, read-agrees}
use microbridge.Arduino.Output.{
  wait_done, launch, resend, retry_loop, send_packet, send_loop, usb_write, bulk_write,
}

module _ {core : Core} (agrees : Agrees core) where
  open agrees use {shows}

  wait_done-agrees : (fuel : ℕ) → wait_done core fuel ≡ Output.wait_done fuel
  unfolding wait_done Output.wait_done
  wait_done-agrees zero = refl
  wait_done-agrees (suc fuel) = rw (wait_done-agrees fuel, read-agrees agrees)

  launch-agrees : (fuel : ℕ) → launch core fuel ≡ Output.launch fuel
  unfolding launch Output.launch
  launch-agrees fuel =
      fun_ext λ address. rw (wait_done-agrees fuel, write-agrees agrees, read-agrees agrees)

  resend-agrees : (wait : ℕ) → resend core wait ≡ Output.resend wait
  unfolding resend Output.resend
  resend-agrees wait = λ i address first count. do
    write-agrees agrees i reg_sndbc 0
    write-agrees agrees i reg_sndfifo first
    write-agrees agrees i reg_sndbc count
    launch-agrees wait i address

  retry_loop-agrees :
      (wait fuel address timeout first count : ℕ)
      → retry_loop core wait fuel address timeout first count
        ≡ Output.retry_loop wait fuel address timeout first count
  unfolding retry_loop Output.retry_loop
  retry_loop-agrees wait zero address timeout first count = refl
  retry_loop-agrees wait (suc fuel) address timeout first count = λ i rcode naks retries.
      let next = retry_loop-agrees wait fuel address timeout first count i in
      if rcode == 0 then pure (false, rcode) else do
        now ← shows i
        if ltb now timeout
            then elim (verdict nak_limit rcode naks retries) [
              | finish ↦ pure (true, rcode)
              | again n r ↦ (do result ← resend-agrees wait i address first count; next result n r)
            ]
            else pure (false, rcode)

  send_packet-agrees : (fuel : ℕ) → send_packet core fuel ≡ Output.send_packet fuel
  unfolding send_packet Output.send_packet
  send_packet-agrees fuel = λ i address timeout bytes. do
    write_multiple-agrees agrees i reg_sndfifo bytes
    write-agrees agrees i reg_sndbc (length bytes)
    result ← launch-agrees fuel i address
    retry_loop-agrees fuel fuel address timeout (get_or bytes 0 0) (length bytes) i result 0 0

  send_loop-agrees :
      (fuel rounds address timeout size : ℕ)
      → (bytes : List ℕ)
      → send_loop core fuel rounds address timeout size bytes
        ≡ Output.send_loop fuel rounds address timeout size bytes
  unfolding send_loop Output.send_loop
  send_loop-agrees fuel zero address timeout size [] = refl
  send_loop-agrees fuel (suc rounds) address timeout size [] = refl
  send_loop-agrees fuel zero address timeout size (b ∷ bs) = refl
  send_loop-agrees fuel (suc rounds) address timeout size (b ∷ bs) = λ i rcode.
      let count = if leb size (length (b ∷ bs)) then size else length (b ∷ bs) in
      let again = send_loop-agrees fuel rounds address timeout size (drop count (b ∷ bs)) i in
      do
        (stop, result) ← send_packet-agrees fuel i address timeout (take count (b ∷ bs))
        if stop then pure (true, result) else again result

  pub usb_write-agrees : (fuel : ℕ) → usb_write core fuel ≡ Output.usb_write fuel
  unfolding usb_write Output.usb_write
  usb_write-agrees fuel = λ i address endpoint bytes. do
    write-agrees agrees i reg_peraddr address
    now ← shows i
    let timeout = u32 (now + xfer_timeout)
    let size = u8 endpoint.max_packet_size
    if size == 0 then pure (0xfe, endpoint) else (do
      write-agrees agrees i reg_hctl endpoint.send_toggle
      (stop, rcode) ← send_loop-agrees fuel (length bytes) endpoint.address timeout size bytes i 0
      if stop then pure (rcode, endpoint) else (do
        hrsl ← read-agrees agrees i reg_hrsl
        let toggle = if bit_and hrsl bm_sndtogrd == 0 then bm_sndtog0 else bm_sndtog1
        pure (rcode, record endpoint { send_toggle = toggle })))

  pub bulk_write-agrees : (fuel : ℕ) → bulk_write core fuel ≡ Output.bulk_write fuel
  unfolding bulk_write Output.bulk_write
  bulk_write-agrees fuel = fun_ext λ device. fun_ext λ bytes. rw (usb_write-agrees fuel)
