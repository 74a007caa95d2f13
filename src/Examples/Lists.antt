-- ===== src/Examples/Lists.antt =====
-- The list of connections and the descriptors of src/mcu/adb.c.
use microbridge.Base.{
  ℕ, zero, suc, ◌+◌, ◌-◌, ◌<◌, ◌≤◌, ◌≡◌, ◌≢◌, ◌⊎◌, inl, inr, refl, Bool, ◌&&◌, ltb, List, [], ◌∷◌,
  get_or, none, some, true, false, arith,
}
use microbridge.Usb.Device.{Memory, fill, disconnect}
use microbridge.Adb.Link.{writing, Adb}
use microbridge.Adb.Connection.{add_connection, close_if_open}
use microbridge.Adb.Connection
use microbridge.Adb.Discovery.{Outcome, scan_loop, start_scan, ended, out_of_rounds}
use microbridge.Adb.Poll.{usb_event_handler, handle_message, dispatch}
use microbridge.Adb.Registry.{Pointwise, Touched, handle_message-Touched}
use microbridge.Adb.Teardown.{all_end_calls, all_torn_down, disconnect_teardown}
use microbridge.Adb.Descriptors.{
  Starts, here, follows, adb_configuration, scan_loop-ends, scan_loop_hangs, scan_loop-finds,
}
use microbridge.Examples.{board, at_wrap, outcome, program, no_handle, okay}

abbrev quiet : Adb
quiet = program writing (board (λ _. 0) at_wrap)

-- An acknowledgement for the connection comes in.
abbrev handled : (Unit {0}) × Adb
handled = outcome (handle_message 2 no_handle (some okay) quiet) (tt, quiet)

handled_lem : handle_message 2 no_handle (some okay) quiet ≡ some handled
unfolding handle_message Connection.for_each dispatch Connection.handle_okay
handled_lem = refl

handle_message-Touched_example :
    Pointwise (Touched 2 no_handle okay) quiet.connections handled.1.connections
handle_message-Touched_example = handle_message-Touched 2 no_handle okay quiet handled.1 handled_lem

disconnect_teardown_example :
    usb_event_handler 2 no_handle 1 disconnect quiet
    ≡ some (
      tt,
      record quiet {
        calls = all_end_calls (some 4) quiet.connections [];
        connections = all_torn_down quiet.connections;
        device = none;
        connected = false;
      },
    )
disconnect_teardown_example = disconnect_teardown 2 1 no_handle quiet refl

-- The configuration of a phone, and zeros behind it.
abbrev phone_buffer : Memory
phone_buffer = fill (adb_configuration 1 0 0x81 2) (λ _. 0)

abbrev are_bytes : List ℕ → Bool
are_bytes [] = true
are_bytes (b ∷ bs) = ltb b 256 && are_bytes bs

get_or-byte : (bs : List ℕ) (k : ℕ) → are_bytes bs ≡ true → get_or bs k 0 < 256
get_or-byte [] k h = omega arith
get_or-byte (b ∷ bs) zero h = ground arith
get_or-byte (b ∷ bs) (suc k) h = get_or-byte bs k (ground arith)

phone_buffer-byte : (k : ℕ) → phone_buffer k < 256
unfolding fill adb_configuration
phone_buffer-byte k = ground (arith, get_or-byte (adb_configuration 1 0 0x81 2) k refl)

-- The next descriptor, or a later one.
Starts-or_later : (buf : Memory) (i k : ℕ) → Starts buf i k → (k ≡ i) ⊎ Starts buf (i + buf i) k
Starts-or_later buf i k here = inl refl
Starts-or_later buf i k (follows at) = inr at

Starts-le : (buf : Memory) (i k : ℕ) → Starts buf i k → i ≤ k
Starts-le buf i k here = omega arith
Starts-le buf i k (follows at) = omega (arith, Starts-le buf (i + buf i) k at)

phone_buffer-lengths : (k : ℕ) → Starts phone_buffer 0 k → k < 32 → 0 < phone_buffer k
unfolding fill adb_configuration
phone_buffer-lengths k at lt = elim (Starts-or_later phone_buffer 0 k at) [
  | inl e ↦ rw e (omega arith)
  | inr at9 ↦ elim (Starts-or_later phone_buffer 9 k at9) [
    | inl e ↦ rw e (omega arith)
    | inr at18 ↦ elim (Starts-or_later phone_buffer 18 k at18) [
      | inl e ↦ rw e (omega arith)
      | inr at25 ↦ elim (Starts-or_later phone_buffer 25 k at25) [
        | inl e ↦ rw e (omega arith)
        | inr at32 ↦ absurd (omega (arith, Starts-le phone_buffer 32 k at32))
      ]
    ]
  ]
]

scan_loop-ends_example : scan_loop 33 phone_buffer 32 0 (start_scan no_handle) ≢ out_of_rounds
scan_loop-ends_example =
    scan_loop-ends 33 phone_buffer 32 0 (start_scan no_handle) phone_buffer-byte
      phone_buffer-lengths (omega arith) (omega arith) (omega arith)

scan_loop_hangs_example : scan_loop 1000 (λ _. 0) 32 0 (start_scan no_handle) ≡ out_of_rounds
scan_loop_hangs_example =
    scan_loop_hangs 1000 (λ _. 0) 32 0 (start_scan no_handle) (omega arith) (omega arith) refl refl

abbrev phone_scan : Outcome
phone_scan = ended (record {
  config = some 0;
  interface = some 9;
  handle = record {
    configuration = 1;
    interface = 0;
    input_end_point_address = 0x83 - 128;
    output_end_point_address = 3;
  };
  found = true;
})

scan_loop-finds_example :
    (scan_loop 33 (fill (adb_configuration 1 0 0x83 3) (λ _. 0)) 32 0 (start_scan no_handle)
      ≡ phone_scan)
    × (scan_loop 33 (fill (adb_configuration 1 0 3 0x83) (λ _. 0)) 32 0 (start_scan no_handle)
        ≡ phone_scan)
scan_loop-finds_example =
    scan_loop-finds 1 0 0x83 3 no_handle (λ _. 0) (omega arith) (omega arith) (omega arith)
