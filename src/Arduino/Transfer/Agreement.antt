-- ===== src/Arduino/Transfer/Agreement.antt =====
-- Packets and IN transfers of src/arduino/usb.cpp, beside src/mcu/max3421e/max3421e_usb.c.
use microbridge.Base.{
  ℕ, zero, suc, ◌+◌, ◌≡◌, refl, [], ◌++◌, ltb, leb, u16, u32, ◌||◌, if◌then◌else◌,
}
use microbridge.Base.Run.{pure, ◌>>=◌, ◌>>◌}
use microbridge.Max3421e.Constants.{reg_peraddr, reg_hctl}
use microbridge.Usb.Constants.{xfer_timeout}
use mathlib.Core.Path.{fun_ext}
use microbridge.Usb.Device.{Endpoint}
use microbridge.Usb.Transfer
use microbridge.Usb.Transfer.{finish, again, verdict, Input, failed, packet}
use microbridge.Arduino.Core.{Core, Agrees}
use microbridge.Arduino.Max3421e.Agreement.{write-agrees, read-agrees, read_multiple-agrees}
use microbridge.Arduino.Transfer.{
  wait_interrupt, wait_result, dispatch_round, dispatch_loop, dispatch_packet, read_packet,
  finish_read, read_loop, usb_read, bulk_read,
}

module _ {core : Core} (agrees : Agrees core) where
  open agrees use {shows}

  wait_interrupt-agrees :
      (fuel timeout : ℕ) → wait_interrupt core fuel timeout ≡ Transfer.wait_interrupt fuel timeout
  unfolding wait_interrupt Transfer.wait_interrupt
  wait_interrupt-agrees zero timeout = refl
  wait_interrupt-agrees (suc fuel) timeout =
      rw (wait_interrupt-agrees fuel timeout, read-agrees agrees, write-agrees agrees, shows)

  wait_result-agrees :
      (fuel timeout : ℕ) → wait_result core fuel timeout ≡ Transfer.wait_result fuel timeout
  unfolding wait_result Transfer.wait_result
  wait_result-agrees zero timeout = refl
  wait_result-agrees (suc fuel) timeout =
      fun_ext λ rcode. rw (wait_result-agrees fuel timeout, read-agrees agrees, shows)

  dispatch_round-agrees : (wait : ℕ) → dispatch_round core wait ≡ Transfer.dispatch_round wait
  unfolding dispatch_round Transfer.dispatch_round
  dispatch_round-agrees wait = fun_ext λ token. fun_ext λ address. fun_ext λ timeout.
      rw (write-agrees agrees, wait_interrupt-agrees wait timeout, wait_result-agrees wait timeout)

  dispatch_loop-agrees :
      (wait fuel token address limit timeout : ℕ)
      → dispatch_loop core wait fuel token address limit timeout
        ≡ Transfer.dispatch_loop wait fuel token address limit timeout
  unfolding dispatch_loop Transfer.dispatch_loop
  dispatch_loop-agrees wait zero token address limit timeout = refl
  dispatch_loop-agrees wait (suc fuel) token address limit timeout = λ i rcode naks retries.
      let next = dispatch_loop-agrees wait fuel token address limit timeout i in
      do
        now ← shows i
        if ltb now timeout
            then (do
              (done, result) ← dispatch_round-agrees wait i token address timeout
              if done
                  then elim (verdict limit result naks retries) [
                    | finish ↦ pure result
                    | again n r ↦ next result n r
                  ]
                  else pure result)
            else pure rcode

  pub dispatch_packet-agrees :
      (fuel : ℕ) → dispatch_packet core fuel ≡ Transfer.dispatch_packet fuel
  unfolding dispatch_packet Transfer.dispatch_packet
  dispatch_packet-agrees fuel = λ i token endpoint limit. do
    now ← shows i
    let timeout = u32 (now + xfer_timeout)
    dispatch_loop-agrees fuel fuel token endpoint.address limit timeout i 0 0 0

  read_packet-agrees : (fuel : ℕ) → read_packet core fuel ≡ Transfer.read_packet fuel
  unfolding read_packet Transfer.read_packet
  read_packet-agrees fuel = fun_ext λ endpoint. fun_ext λ limit. rw (
    dispatch_packet-agrees fuel,
    read-agrees agrees,
    read_multiple-agrees agrees,
    write-agrees agrees,
  )

  finish_read-agrees : finish_read core ≡ Transfer.finish_read
  unfolding finish_read Transfer.finish_read
  finish_read-agrees =
      fun_ext λ endpoint. fun_ext λ total. fun_ext λ stored. rw (read-agrees agrees)

  read_loop-agrees :
      (fuel rounds : ℕ)
      → (endpoint : Endpoint) → (length limit : ℕ)
      → read_loop core fuel rounds endpoint length limit
        ≡ Transfer.read_loop fuel rounds endpoint length limit
  unfolding read_loop Transfer.read_loop
  read_loop-agrees fuel zero endpoint length limit = refl
  read_loop-agrees fuel (suc rounds) endpoint length limit = λ i total stored.
      let next = read_loop-agrees fuel rounds endpoint length limit i in
      do
        p ← read_packet-agrees fuel i endpoint limit
        elim p [
          | failed r ↦ pure (record { result = r; bytes = stored; endpoint = endpoint })
          | packet count bytes ↦
              let sum = u16 (total + count) in
              if ltb count endpoint.max_packet_size || leb length sum
              then finish_read-agrees i endpoint sum (stored ++ bytes)
              else next sum (stored ++ bytes)
        ]

  pub usb_read-agrees : (fuel : ℕ) → usb_read core fuel ≡ Transfer.usb_read fuel
  unfolding usb_read Transfer.usb_read
  usb_read-agrees fuel = λ i address endpoint length limit. do
    write-agrees agrees i reg_peraddr address
    write-agrees agrees i reg_hctl endpoint.receive_toggle
    read_loop-agrees fuel fuel endpoint length limit i 0 []

  pub bulk_read-agrees : (fuel : ℕ) → bulk_read core fuel ≡ Transfer.bulk_read fuel
  unfolding bulk_read Transfer.bulk_read
  bulk_read-agrees fuel =
      fun_ext λ device. fun_ext λ length. fun_ext λ poll. rw (usb_read-agrees fuel)
