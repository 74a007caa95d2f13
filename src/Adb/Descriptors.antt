-- ===== src/Adb/Descriptors.antt =====
-- The descriptor loop of adb_isAdbDevice (src/mcu/adb.c).
use microbridge.Base.{
  ℕ, zero, suc, ◌+◌, ◌-◌, ◌%◌, ◌<◌, ◌≤◌, ◌≡◌, ◌≢◌, refl, ◌∙◌, inl, inr, true, false, List, [], ◌∷◌,
  some, arith, ◌==◌, ltb, u16, bit_and, if◌then◌else◌, Option-cases, Bool-cases,
}
use microbridge.Base.Bits.{holds_to, every_byte, byte}
use microbridge.Usb.Device.{Memory, fill}
use microbridge.Adb.Discovery.{
  Configuration, Scan, ended, out_of_rounds, is_adb_interface, interface_step, endpoint_step,
  descriptor_step, scan_loop, start_scan,
}

-- A descriptor starts at k, if one starts at i and each is followed by the next.
pub data Starts (buf : Memory) : (i k : ℕ) → Type 0 where
  here : {i : ℕ} → Starts buf i i
  follows : {i k : ℕ} → Starts buf (i + buf i) k → Starts buf i k

-- In a buffer of bytes with at most 0xff00 bytes read, the loop ends, or faults, within one round for each
-- byte, if no descriptor that starts among the bytes read has length 0.
pub scan_loop-ends :
    (rounds : ℕ) (buf : Memory) (n i : ℕ) (s : Scan)
    → ((k : ℕ) → buf k < 256)
    → ((k : ℕ) → Starts buf i k → k < n → 0 < buf k)
    → n ≤ 0xff00
    → 0 < rounds
    → n < rounds + i
    → scan_loop rounds buf n i s ≢ out_of_rounds
unfolding scan_loop
scan_loop-ends zero buf n i s byte_at pos small some_left enough = absurd (omega arith)
scan_loop-ends (suc rounds) buf n i s byte_at pos small some_left enough =
    elim (Bool-cases (ltb i n)) [
      | inr done ↦ ground arith
      | inl more ↦ elim (Option-cases (descriptor_step buf i s)) [
        | inl e ↦ ground arith
        | inr (t, e) ↦
            let lt : i < n = ground (arith, more) in
            let len : 0 < buf i = pos i here lt in
            let short : buf i < 256 = byte_at i in
            let same : u16 (i + buf i) ≡ i + buf i = omega arith in
            let rest =
              scan_loop-ends rounds buf n (i + buf i) t byte_at (λ k at. pos k (follows at)) small
                (omega arith) (omega arith) in
            ground (arith, rest)
      ]
    ]

-- From a descriptor of length 0 and type 0 on, as in a buffer of zeros, the loop never ends.
pub scan_loop_hangs :
    (rounds : ℕ) (buf : Memory) (n i : ℕ) (s : Scan)
    → i < n
    → n ≤ 256
    → buf i ≡ 0
    → buf (i + 1) ≡ 0
    → scan_loop rounds buf n i s ≡ out_of_rounds
unfolding scan_loop descriptor_step
scan_loop_hangs zero buf n i s lt small len kind = refl
scan_loop_hangs (suc rounds) buf n i s lt small len kind =
    ground (arith, scan_loop_hangs rounds buf n i s lt small len kind)

-- A configuration of one ADB interface: the configuration descriptor with value `v`, the interface
-- descriptor with number `k`, and the two bulk endpoint descriptors.
unfoldable pub adb_configuration : (v k first second : ℕ) → List ℕ
adb_configuration v k first second =
    9 ∷ 2 ∷ 32 ∷ 0 ∷ 1 ∷ v ∷ 0 ∷ 0x80 ∷ 50 ∷ 9 ∷ 4 ∷ k ∷ 0 ∷ 2 ∷ 0xff ∷ 0x42 ∷ 1 ∷ 0 ∷ 7 ∷ 5 ∷ first
    ∷ 2 ∷ 64 ∷ 0 ∷ 0 ∷ 7 ∷ 5 ∷ second ∷ 2 ∷ 64 ∷ 0 ∷ 0 ∷ []

direction_table :
    every_byte (λ x. if ltb x 128 then bit_and x 0x80 == 0 else bit_and x 0x80 == 0x80) ≡ true
unfolding holds_to
direction_table = refl

number_table : every_byte (λ x. bit_and x 0x7f == x % 128) ≡ true
unfolding holds_to
number_table = refl

out_bit : (x : ℕ) → x < 128 → (bit_and x 0x80 == 0) ≡ true
out_bit x lt = ground (
  arith,
  byte (λ x. if ltb x 128 then bit_and x 0x80 == 0 else bit_and x 0x80 == 0x80) x direction_table
      (omega arith),
)

in_bit : (x : ℕ) → 128 ≤ x → x < 256 → (bit_and x 0x80 == 0) ≡ false
in_bit x hi lt = ground (
  arith,
  byte (λ x. if ltb x 128 then bit_and x 0x80 == 0 else bit_and x 0x80 == 0x80) x direction_table
      lt,
)

in_number : (x : ℕ) → 128 ≤ x → x < 256 → bit_and x 0x7f ≡ x - 128
in_number x hi lt = ground (arith, byte (λ x. bit_and x 0x7f == x % 128) x number_table lt)

scan_next :
    (rounds : ℕ) (buf : Memory) (n i j : ℕ) (s t : Scan)
    → ltb i n ≡ true
    → descriptor_step buf i s ≡ some t
    → u16 (i + buf i) ≡ j
    → scan_loop (suc rounds) buf n i s ≡ scan_loop rounds buf n j t
unfolding scan_loop
scan_next rounds buf n i j s t lt e next = ground arith

scan_done :
    (rounds : ℕ) (buf : Memory) (n i : ℕ) (s : Scan)
    → ltb i n ≡ false
    → scan_loop (suc rounds) buf n i s ≡ ended s
unfolding scan_loop
scan_done rounds buf n i s e = ground arith

out_step :
    (buf : Memory) (i p : ℕ) (s : Scan)
    → s.interface ≡ some p
    → (buf (p + 2) == s.handle.interface) ≡ true
    → buf (i + 1) ≡ 5
    → buf (i + 2) < 128
    → descriptor_step buf i s
      ≡ some (record s { handle = record (s.handle) { output_end_point_address = buf (i + 2) } })
unfolding descriptor_step endpoint_step
out_step buf i p s at number kind lt = ground (arith, out_bit (buf (i + 2)) lt)

in_step :
    (buf : Memory) (i p : ℕ) (s : Scan)
    → s.interface ≡ some p
    → (buf (p + 2) == s.handle.interface) ≡ true
    → buf (i + 1) ≡ 5
    → 128 ≤ buf (i + 2)
    → buf (i + 2) < 256
    → descriptor_step buf i s
      ≡ some
          (record s { handle = record (s.handle) { input_end_point_address = buf (i + 2) - 128 } })
unfolding descriptor_step endpoint_step
in_step buf i p s at number kind hi lt =
    ground (arith, in_bit (buf (i + 2)) hi lt, in_number (buf (i + 2)) hi lt)

==_self : (k : ℕ) → (k == k) ≡ true
==_self k = ground arith

-- In such a configuration the loop finds the interface, with the addresses of its IN endpoint, less
-- the direction bit, and its OUT endpoint, in either order.
pub scan_loop-finds :
    (v k input output : ℕ) (handle : Configuration) (memory : Memory)
    → 128 ≤ input
    → input < 256
    → output < 128
    → let found = ended (record {
      config = some 0;
      interface = some 9;
      handle = record {
        configuration = v;
        interface = k;
        input_end_point_address = input - 128;
        output_end_point_address = output;
      };
      found = true;
    }) in
      (scan_loop 33 (fill (adb_configuration v k input output) memory) 32 0 (start_scan handle)
        ≡ found)
      × (scan_loop 33 (fill (adb_configuration v k output input) memory) 32 0 (start_scan handle)
          ≡ found)
unfolding fill adb_configuration start_scan descriptor_step interface_step is_adb_interface
scan_loop-finds v k input output handle memory hi lt lo =
    let first = fill (adb_configuration v k input output) memory in
    let second = fill (adb_configuration v k output input) memory in
    (
      scan_next 32 first 32 0 9 (start_scan handle) _ refl refl refl
          ∙ scan_next 31 first 32 9 18 _ _ refl refl refl
          ∙ scan_next 30 first 32 18 25 _ _ refl (in_step first 18 9 _ refl (==_self k) refl hi lt)
              refl
          ∙ scan_next 29 first 32 25 32 _ _ refl (out_step first 25 9 _ refl (==_self k) refl lo)
              refl
          ∙ scan_done 28 first 32 32 _ refl,
      scan_next 32 second 32 0 9 (start_scan handle) _ refl refl refl
          ∙ scan_next 31 second 32 9 18 _ _ refl refl refl
          ∙ scan_next 30 second 32 18 25 _ _ refl (out_step second 18 9 _ refl (==_self k) refl lo)
              refl
          ∙ scan_next 29 second 32 25 32 _ _ refl
              (in_step second 25 9 _ refl (==_self k) refl hi lt) refl
          ∙ scan_done 28 second 32 32 _ refl,
    )
