-- ===== src/Max3421e/Laws/Multiple.antt =====
-- The multi-byte transfers of max3421e.c.
use microbridge.Base.{
  ℕ, zero, suc, ◌+◌, ◌≡◌, refl, List, [], ◌∷◌, some, arith, u8, bit_or, length, ap,
}
use microbridge.Shield.{Shield, Wire, select, send, release}
use microbridge.Max3421e.{write_values, write_multiple, read_values, read_multiple}

-- `values` sent one after the other.
abbrev pub sends : List ℕ → List Wire → List Wire
sends [] w = w
sends (v ∷ vs) w = sends vs (send v ∷ w)

-- `count` empty bytes.
abbrev pub clocks : ℕ → List Wire → List Wire
clocks zero w = w
clocks (suc n) w = clocks n (send 0 ∷ w)

-- The `count` bytes that come back from exchange `n` on.
abbrev pub received : (ℕ → ℕ) → (count n : ℕ) → List ℕ
received replies zero n = []
received replies (suc count) n = u8 (replies n) ∷ received replies count (n + 1)

pub length-received : (replies : ℕ → ℕ) (count n : ℕ) → length (received replies count n) ≡ count
length-received replies zero n = refl
length-received replies (suc count) n = ap suc (length-received replies count (n + 1))

abbrev pub after_exchange : ℕ → Shield → Shield
after_exchange v s = record s {
  wire = send v ∷ s.wire;
  exchanges = s.exchanges + 1;
  spdr = u8 (s.replies s.exchanges);
}

-- The state after a run of exchanges.
abbrev pub after_values : List ℕ → Shield → Shield
after_values [] s = s
after_values (v ∷ vs) s = after_values vs (after_exchange v s)

abbrev pub after_clocks : ℕ → Shield → Shield
after_clocks zero s = s
after_clocks (suc n) s = after_clocks n (after_exchange 0 s)

pub after_values-wire : (vs : List ℕ) (s : Shield) → (after_values vs s).wire ≡ sends vs s.wire
after_values-wire [] s = refl
after_values-wire (v ∷ vs) s = after_values-wire vs (after_exchange v s)

pub after_clocks-wire : (n : ℕ) (s : Shield) → (after_clocks n s).wire ≡ clocks n s.wire
after_clocks-wire zero s = refl
after_clocks-wire (suc n) s = after_clocks-wire n (after_exchange 0 s)

write_values-ok : (vs : List ℕ) (s : Shield) → write_values vs s ≡ some (tt, after_values vs s)
unfolding write_values
write_values-ok [] s = refl
write_values-ok (v ∷ vs) s = write_values-ok vs (after_exchange v s)

read_values-ok :
    (n : ℕ) (s : Shield)
    → read_values n s ≡ some (received s.replies n s.exchanges, after_clocks n s)
unfolding read_values
read_values-ok zero s = refl
read_values-ok (suc n) s = ground (arith, read_values-ok n (after_exchange 0 s))

abbrev pub open_frame : ℕ → Shield → Shield
open_frame command s = after_exchange command (record s { wire = select ∷ s.wire })

abbrev pub close_frame : Shield → Shield
close_frame s = record s { wire = release ∷ s.wire }

abbrev pub after_write_multiple : ℕ → List ℕ → Shield → Shield
after_write_multiple reg vs s = close_frame (after_values vs (open_frame (bit_or reg 2) s))

abbrev pub after_read_multiple : ℕ → ℕ → Shield → Shield
after_read_multiple reg n s = close_frame (after_clocks n (open_frame reg s))

pub write_multiple-ok :
    (reg : ℕ) (vs : List ℕ) (s : Shield)
    → write_multiple reg vs s ≡ some (tt, after_write_multiple reg vs s)
unfolding write_multiple
write_multiple-ok reg vs s = ground (arith, write_values-ok vs (open_frame (bit_or reg 2) s))

pub read_multiple-ok :
    (reg n : ℕ) (s : Shield)
    → read_multiple reg n s
      ≡ some (received s.replies n (s.exchanges + 1), after_read_multiple reg n s)
unfolding read_multiple
read_multiple-ok reg n s = ground (arith, read_values-ok n (open_frame reg s))
