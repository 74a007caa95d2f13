-- ===== src/Arduino/Adb/Discovery/Agreement.antt =====
-- ADB::isAdbDevice of src/arduino/Adb.cpp, beside adb_isAdbDevice of src/mcu/adb.c.
use microbridge.Base.{
  ℕ, zero, suc, ◌+◌, ◌≤◌, ◌<◌, ◌≡◌, refl, sym, ap, ◌∙◌, arith, ltb, u16, none, some, true,
  Bool-cases, inl, inr,
}
use mathlib.Core.Path.{fun_ext}
use microbridge.Base.Run.{get, modify, ◌>>=◌}
use microbridge.Adb.Link.{transfer}
use microbridge.Usb.Device.{Memory}
use microbridge.Adb.Discovery
use microbridge.Adb.Discovery.{Scan, Configuration, ended, fault, descriptor_step, start_scan}
use microbridge.Arduino.Core.{Core, Agrees}
use microbridge.Arduino.Control.Agreement.{init_device-agrees}
use microbridge.Arduino.Adb.Discovery.{scan_loop, scan, prepare, init_usb}

no_wrap :
    (i step bytes_read : ℕ)
    → step < 256
    → bytes_read ≤ 0xff00
    → ltb i bytes_read ≡ true
    → u16 (i + step) ≡ i + step
no_wrap i step bytes_read small short more = grind arith

scan_loop-agrees :
    (rounds : ℕ) (buf : Memory) (bytes_read : ℕ)
    → ((k : ℕ) → buf k < 256)
    → bytes_read ≤ 0xff00
    → (i : ℕ) (s : Scan)
    → scan_loop rounds buf bytes_read i s ≡ Discovery.scan_loop rounds buf bytes_read i s
unfolding scan_loop Discovery.scan_loop
scan_loop-agrees zero buf bytes_read bytes short i s = refl
scan_loop-agrees (suc rounds) buf bytes_read bytes short i s =
    elim (Bool-cases (ltb i bytes_read)) [
      | inl more ↦ rw more (λ j. elim (descriptor_step buf i s) [
        | none ↦ fault
        | some t ↦
            (scan_loop-agrees rounds buf bytes_read bytes short (i + buf i) t
                ∙ ap (λ k. Discovery.scan_loop rounds buf bytes_read k t)
                    (sym (no_wrap i (buf i) bytes_read (bytes i) short more)))
              j
      ])
      | inr done ↦ rw done
    ]

-- In a buffer of bytes with at most 0xff00 bytes read, the descriptor loop of the sketch library, whose
-- position is an int, finds what that of the firmware finds, whose position wraps at 2 ^ 16.
scan-agrees :
    (rounds : ℕ) (buf : Memory) (bytes_read : ℕ)
    → ((k : ℕ) → buf k < 256)
    → bytes_read ≤ 0xff00
    → scan rounds buf bytes_read ≡ Discovery.scan rounds buf bytes_read
unfolding scan Discovery.scan
scan-agrees rounds buf bytes_read bytes short = λ i handle a.
    elim (scan_loop-agrees rounds buf bytes_read bytes short 0 (start_scan handle) i) [
      | ended s ↦ some ((s.found, s.handle), a)
      | _ ↦ none
    ]

module _ {core : Core} (agrees : Agrees core) (fuel : ℕ) where
  prepare-agrees : prepare core fuel ≡ Discovery.prepare fuel
  unfolding prepare Discovery.prepare
  prepare-agrees =
      fun_ext λ handle. fun_ext λ stack. fun_ext λ d. rw (init_device-agrees agrees fuel)

  pub init_usb-agrees : init_usb core fuel ≡ Discovery.init_usb fuel
  unfolding init_usb Discovery.init_usb
  init_usb-agrees = λ i index handle. do
    a ← get
    _ ← transfer (prepare-agrees i handle a.host.stack) index
    modify λ a. record a { device = some index }
