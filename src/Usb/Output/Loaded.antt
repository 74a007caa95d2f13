-- ===== src/Usb/Output/Loaded.antt =====
-- The bytes that a run of register accesses puts into the send FIFO (src/mcu/max3421e/max3421e_usb.c).
use microbridge.Base.{
  ℕ, ◌%◌, ◌<◌, ◌≡◌, refl, false, List, [], ◌∷◌, ◌++◌, arith, ◌==◌, bit_or, if◌then◌else◌, length,
  append-nil, ◌∙◌,
}
use microbridge.Shield.{Shield}
use microbridge.Max3421e.Constants.{
  reg_sndfifo, reg_sndbc, reg_hirq, reg_hxfr, reg_hrsl, bm_hxfrdnirq, tok_out,
}
use microbridge.Max3421e.Access.{Access, wrote, fetched, accesses}
use microbridge.Max3421e.Frames.{accesses-write, accesses-read, accesses-write_multiple}
use microbridge.Max3421e.Laws.{after_read, after_write}
use microbridge.Max3421e.Laws.Multiple.{after_write_multiple}

-- The bytes that an access puts into the send FIFO.
unfoldable pub loaded_by : Access → List ℕ
loaded_by (wrote reg bytes) = if reg == reg_sndfifo then bytes else []
loaded_by (fetched reg count) = []

-- The bytes that a run of accesses, newest first, has put into the send FIFO.
unfoldable pub loaded_of : List Access → List ℕ
loaded_of [] = []
loaded_of (a ∷ rest) = loaded_of rest ++ loaded_by a

unfoldable pub loaded : Shield → List ℕ
loaded s = loaded_of (accesses s)

abbrev pub after_launch : ℕ → Shield → Shield
after_launch address s = after_read reg_hrsl (
    after_write reg_hirq bm_hxfrdnirq
      (after_read reg_hirq (after_write reg_hxfr (bit_or tok_out address) s)))

pub loaded-write :
    (reg value : ℕ) (s : Shield)
    → reg < 256
    → reg % 8 ≡ 0
    → (reg == reg_sndfifo) ≡ false
    → loaded (after_write reg value s) ≡ loaded s
unfolding loaded loaded_of loaded_by
loaded-write reg value s lt e other =
    rw (accesses-write reg value s (lt, e), other, append-nil) refl

pub loaded-read :
    (reg : ℕ) (s : Shield) → reg < 256 → reg % 8 ≡ 0 → loaded (after_read reg s) ≡ loaded s
unfolding loaded loaded_of loaded_by
loaded-read reg s lt e = rw (accesses-read reg s (lt, e), append-nil) refl

loaded-fifo :
    (bytes : List ℕ) (s : Shield)
    → loaded (after_write_multiple reg_sndfifo bytes s) ≡ loaded s ++ bytes
unfolding loaded loaded_of loaded_by
loaded-fifo bytes s = rw (accesses-write_multiple reg_sndfifo bytes s (omega arith, refl)) refl

loaded-launch : (address : ℕ) (s : Shield) → loaded (after_launch address s) ≡ loaded s
loaded-launch address s =
    let launched = after_write reg_hxfr (bit_or tok_out address) s in
    let seen = after_read reg_hirq launched in
    let cleared = after_write reg_hirq bm_hxfrdnirq seen in
    loaded-read reg_hrsl cleared (omega arith) refl
    ∙ loaded-write reg_hirq bm_hxfrdnirq seen (omega arith) refl refl
    ∙ loaded-read reg_hirq launched (omega arith) refl
    ∙ loaded-write reg_hxfr (bit_or tok_out address) s (omega arith) refl refl

-- The state after a packet.
abbrev pub after_packet : ℕ → List ℕ → Shield → Shield
after_packet address bytes s =
    after_launch address
      (after_write reg_sndbc (length bytes) (after_write_multiple reg_sndfifo bytes s))

pub loaded-packet :
    (address : ℕ) (bytes : List ℕ) (s : Shield)
    → loaded (after_packet address bytes s) ≡ loaded s ++ bytes
loaded-packet address bytes s =
    let filled = after_write_multiple reg_sndfifo bytes s in
    loaded-launch address (after_write reg_sndbc (length bytes) filled)
    ∙ loaded-write reg_sndbc (length bytes) filled (omega arith) refl refl
    ∙ loaded-fifo bytes s

-- Reading the clock loads nothing.
pub loaded-later : (k : ℕ) (s : Shield) → loaded (record s { readings = k }) ≡ loaded s
unfolding loaded accesses
loaded-later k s = refl
