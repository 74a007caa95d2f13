-- ===== src/Arduino/Max3421e/Agreement.antt =====
-- The driver of src/arduino/max3421e.cpp, beside src/mcu/max3421e/max3421e.c.
use microbridge.Base.{ℕ, zero, suc, ◌+◌, ◌≡◌, refl, List, [], ◌∷◌, u8}
use mathlib.Core.Path.{fun_ext}
use microbridge.Base.Run.{◌>>◌}
use microbridge.Max3421e.Constants.{reg_usbctl, bm_chipres}
use microbridge.Max3421e
use microbridge.Arduino.Core.{Core, Agrees}
use microbridge.Arduino.Max3421e.{
  write, write_values, write_multiple, read, read_values, read_multiple, wait_oscillator, reset,
  set_vbus, start_host, wait_sample, power_on, busprobe, interrupt_handler, gpx_interrupt_handler,
}

module _ {core : Core} (agrees : Agrees core) where
  open agrees use {selects, releases, waits, prints}

  pub write-agrees : write core ≡ Max3421e.write
  unfolding write Max3421e.write
  write-agrees = fun_ext λ reg. fun_ext λ value. rw (selects, releases)

  pub read-agrees : read core ≡ Max3421e.read
  unfolding read Max3421e.read
  read-agrees = fun_ext λ reg. rw (selects, releases)

  write_values-agrees : (values : List ℕ) → write_values core values ≡ Max3421e.write_values values
  unfolding write_values Max3421e.write_values
  write_values-agrees [] = refl
  write_values-agrees (v ∷ vs) = rw (write_values-agrees vs)

  read_values-agrees : (count : ℕ) → read_values core count ≡ Max3421e.read_values count
  unfolding read_values Max3421e.read_values
  read_values-agrees zero = refl
  read_values-agrees (suc count) = rw (read_values-agrees count)

  pub write_multiple-agrees : write_multiple core ≡ Max3421e.write_multiple
  unfolding write_multiple Max3421e.write_multiple
  write_multiple-agrees =
      fun_ext λ reg. fun_ext λ values. rw (selects, releases, write_values-agrees values)

  pub read_multiple-agrees : read_multiple core ≡ Max3421e.read_multiple
  unfolding read_multiple Max3421e.read_multiple
  read_multiple-agrees =
      fun_ext λ reg. fun_ext λ count. rw (selects, releases, read_values-agrees count)

  wait_oscillator-agrees :
      (fuel tmp : ℕ) → wait_oscillator core fuel tmp ≡ Max3421e.wait_oscillator fuel tmp
  unfolding wait_oscillator Max3421e.wait_oscillator
  wait_oscillator-agrees zero tmp = refl
  wait_oscillator-agrees (suc fuel) tmp =
      rw (read-agrees, wait_oscillator-agrees fuel (u8 (tmp + 1)))

  reset-agrees : reset core ≡ Max3421e.reset
  unfolding reset Max3421e.reset
  reset-agrees = λ i fuel. do
    write-agrees i reg_usbctl bm_chipres
    write-agrees i reg_usbctl 0
    waits i fuel 10
    wait_oscillator-agrees 256 0 i

  busprobe-agrees : busprobe core ≡ Max3421e.busprobe
  unfolding busprobe Max3421e.busprobe start_host Max3421e.start_host set_vbus Max3421e.set_vbus
  busprobe-agrees = rw (read-agrees, write-agrees)

  interrupt_handler-agrees : interrupt_handler core ≡ Max3421e.interrupt_handler
  unfolding interrupt_handler Max3421e.interrupt_handler
  interrupt_handler-agrees = rw (read-agrees, write-agrees, busprobe-agrees)

  gpx_interrupt_handler-agrees : gpx_interrupt_handler core ≡ Max3421e.gpx_interrupt_handler
  unfolding gpx_interrupt_handler Max3421e.gpx_interrupt_handler
  gpx_interrupt_handler-agrees = rw read-agrees

  wait_sample-agrees : (fuel : ℕ) → wait_sample core fuel ≡ Max3421e.wait_sample fuel
  unfolding wait_sample Max3421e.wait_sample
  wait_sample-agrees zero = refl
  wait_sample-agrees (suc fuel) = rw (read-agrees, wait_sample-agrees fuel)

  power_on-agrees : power_on core ≡ Max3421e.power_on
  unfolding power_on Max3421e.power_on
  power_on-agrees =
      fun_ext
        λ fuel. rw (write-agrees, reset-agrees, wait_sample-agrees fuel, busprobe-agrees, prints)

  -- The driver of the sketch library does what the driver of the firmware does: the register
  -- functions, the reset with its oscillator wait, power-on, the bus probe and the interrupt handler
  -- are the same commands, where the Arduino core drives slave select, waits and prints as avr does.
  pub driver_agrees :
      (write core ≡ Max3421e.write)
      × (write_multiple core ≡ Max3421e.write_multiple)
      × (read core ≡ Max3421e.read)
      × (read_multiple core ≡ Max3421e.read_multiple)
      × (reset core ≡ Max3421e.reset)
      × (power_on core ≡ Max3421e.power_on)
      × (busprobe core ≡ Max3421e.busprobe)
      × (interrupt_handler core ≡ Max3421e.interrupt_handler)
      × (gpx_interrupt_handler core ≡ Max3421e.gpx_interrupt_handler)
  driver_agrees = (
    write-agrees, write_multiple-agrees, read-agrees, read_multiple-agrees, reset-agrees,
    power_on-agrees, busprobe-agrees, interrupt_handler-agrees, gpx_interrupt_handler-agrees,
  )
