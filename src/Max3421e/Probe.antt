-- ===== src/Max3421e/Probe.antt =====
-- max3421e_busprobe and max3421e_interruptHandler: what the samples decide.
use microbridge.Base.{
  ℕ, ◌+◌, ◌*◌, ◌/◌, ◌%◌, ◌<◌, ◌≡◌, refl, inl, inr, true, List, [], ◌∷◌, ◌++◌, some, arith, ◌==◌,
  bit_and, if◌then◌else◌, Bool-cases, ◌∙◌, ap,
}
use microbridge.Base.Bits.{holds_to, every_byte, byte}
use microbridge.Shield.{Shield}
use microbridge.Max3421e.{read, write, start_host, set_vbus, busprobe, interrupt_handler}
use microbridge.Max3421e.Constants.{reg_hirq, reg_hrsl, reg_mode}
use microbridge.Max3421e.Access.{Access, wrote, fetched, accesses}
use microbridge.Max3421e.Laws.{reply, after_read, after_write}
use microbridge.Max3421e.Frames.{accesses-read, accesses-write}

sample_table : every_byte (λ x. bit_and x 0xc0 == x / 128 % 2 * 128 + x / 64 % 2 * 64) ≡ true
unfolding holds_to
sample_table = refl

lowspeed_table : every_byte (λ x. bit_and x 2 == x / 2 % 2 * 2) ≡ true
unfolding holds_to
lowspeed_table = refl

sample_bits : (x : ℕ) → x < 256 → bit_and x 0xc0 ≡ x / 128 % 2 * 128 + x / 64 % 2 * 64
sample_bits x lt =
    ground
      (arith, byte (λ x. bit_and x 0xc0 == x / 128 % 2 * 128 + x / 64 % 2 * 64) x sample_table lt)

lowspeed_bit : (x : ℕ) → x < 256 → bit_and x 2 ≡ x / 2 % 2 * 2
lowspeed_bit x lt = ground (arith, byte (λ x. bit_and x 2 == x / 2 % 2 * 2) x lowspeed_table lt)

-- The state of the bus by the levels of J and K, and whether the host runs at low speed: no device
-- (0), illegal (1), a full-speed device (2) or a low-speed device (3). At low speed J and K swap.
unfoldable pub line_state : (j k low : ℕ) → ℕ
line_state j k low = if j == k then j else if j == low then 3 else 2

-- The accesses of a probe, newest first.
unfoldable pub probe_accesses : ℕ → List Access
probe_accesses state =
    if state == 2
    then wrote reg_mode (0xc9 ∷ []) ∷ fetched reg_mode 1 ∷ fetched reg_hrsl 1 ∷ []
    else if state == 3
    then wrote reg_mode (0xcb ∷ []) ∷ fetched reg_mode 1 ∷ fetched reg_hrsl 1 ∷ []
    else fetched reg_hrsl 1 ∷ []

-- the bus sample and, after it, the mode that a probe reads
abbrev pub probe_line : Shield → ℕ
probe_line s =
    let sample = reply s in
    let mode = reply (after_read reg_hrsl s) in
    line_state (sample / 128 % 2) (sample / 64 % 2) (mode / 2 % 2)

after_probe : ℕ → Shield → Shield
after_probe state s =
    let sampled = after_read reg_hrsl s in
    let moded = after_read reg_mode sampled in
    if state == 2
    then record (after_write reg_mode 0xc9 moded) { vbus_state = 2 }
    else if state == 3
    then record (after_write reg_mode 0xcb moded) { vbus_state = 3 }
    else record sampled { vbus_state = state }

busprobe-after : (s : Shield) → busprobe s ≡ some (tt, after_probe (probe_line s) s)
unfolding busprobe start_host set_vbus read write line_state after_probe
busprobe-after s =
    ground (arith, sample_bits (reply s), lowspeed_bit (reply (after_read reg_hrsl s)))

after_probe-accesses :
    (state : ℕ) (s : Shield) → accesses (after_probe state s) ≡ probe_accesses state ++ accesses s
unfolding after_probe probe_accesses accesses
after_probe-accesses state s =
    let sampled = after_read reg_hrsl s in
    let moded = after_read reg_mode sampled in
    ground (
      arith,
      accesses-read reg_hrsl s (omega arith),
      accesses-read reg_mode sampled (omega arith),
      accesses-write reg_mode 0xc9 moded (omega arith),
      accesses-write reg_mode 0xcb moded (omega arith),
    )

after_probe-vbus : (state : ℕ) (s : Shield) → (after_probe state s).vbus_state ≡ state
unfolding after_probe
after_probe-vbus state s = ground arith

-- A probe ends with the state of the bus in vbusState, whatever was there before, and with the mode
-- of that speed in the mode register where a device is attached.
pub busprobe_line :
    (s : Shield)
    → (t : Shield) × (busprobe s ≡ some (tt, t))
      × (t.vbus_state ≡ probe_line s)
      × (accesses t ≡ probe_accesses (probe_line s) ++ accesses s)
busprobe_line s = (
  after_probe (probe_line s) s,
  busprobe-after s,
  after_probe-vbus (probe_line s) s,
  after_probe-accesses (probe_line s) s,
)

frame_table : every_byte (λ x. bit_and x 0x40 == x / 64 % 2 * 64) ≡ true
unfolding holds_to
frame_table = refl

condet_table : every_byte (λ x. bit_and x 0x20 == x / 32 % 2 * 32) ≡ true
unfolding holds_to
condet_table = refl

frame_bit : (x : ℕ) → x < 256 → bit_and x 0x40 ≡ x / 64 % 2 * 64
frame_bit x lt = ground (arith, byte (λ x. bit_and x 0x40 == x / 64 % 2 * 64) x frame_table lt)

condet_bit : (x : ℕ) → x < 256 → bit_and x 0x20 ≡ x / 32 % 2 * 32
condet_bit x lt = ground (arith, byte (λ x. bit_and x 0x20 == x / 32 % 2 * 32) x condet_table lt)

-- the FRAMEIRQ and CONDETIRQ bits of an interrupt status
abbrev pub serviced : ℕ → ℕ
serviced status = status / 64 % 2 * 64 + status / 32 % 2 * 32

-- The handler writes back exactly the frame and connection bits of the status that it read, and
-- returns them; it probes the bus exactly if the connection bit was set, and else vbusState stays.
pub interrupt_handler_acknowledges :
    (s : Shield)
    → let status = reply s in
      let seen = after_read reg_hirq s in
      let changed = status / 32 % 2 == 1 in
      (t : Shield) × (interrupt_handler s ≡ some (serviced status, t))
      × (t.vbus_state ≡ (if changed then probe_line seen else s.vbus_state))
      × (accesses t
          ≡ wrote reg_hirq (serviced status ∷ [])
              ∷ (if changed then probe_accesses (probe_line seen) else [])
            ++ fetched reg_hirq 1 ∷ accesses s)
unfolding interrupt_handler read write
interrupt_handler_acknowledges s =
    let status = reply s in
    let seen = after_read reg_hirq s in
    let frame = frame_bit status (omega arith) in
    let condet = condet_bit status (omega arith) in
    elim (Bool-cases (status / 32 % 2 == 1)) [
      | inl changed ↦ (
        after_write reg_hirq (serviced status) (after_probe (probe_line seen) seen),
        ground (arith, frame, condet, busprobe-after seen),
        rw changed (after_probe-vbus (probe_line seen) seen),
        rw changed (
            accesses-write reg_hirq (serviced status) (after_probe (probe_line seen) seen)
              (omega arith)
            ∙ ap (◌∷◌ (wrote reg_hirq (serviced status ∷ []))) (
                after_probe-accesses (probe_line seen) seen
                ∙ ap (◌++◌ (probe_accesses (probe_line seen)))
                    (accesses-read reg_hirq s (omega arith)))),
      )
      | inr same ↦ (
        after_write reg_hirq (serviced status) seen,
        ground (arith, frame, condet),
        rw same refl,
        rw same (
            ground (
              arith,
              accesses-write reg_hirq (serviced status) seen (omega arith),
              accesses-read reg_hirq s (omega arith),
            )),
      )
    ]
