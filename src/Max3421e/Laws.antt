-- ===== src/Max3421e/Laws.antt =====
-- What each register access of max3421e.c does to the board.
pub mod Multiple
use microbridge.Base.{ℕ, ◌+◌, ◌≡◌, refl, ◌∷◌, some, u8, bit_or}
use microbridge.Shield.{Shield, select, send, release}
use microbridge.Max3421e.{write, read}

-- The byte that a register read returns.
abbrev pub reply : Shield → ℕ
reply s = u8 (s.replies (s.exchanges + 1))

abbrev pub after_read : ℕ → Shield → Shield
after_read reg s = record s {
  wire = release ∷ send 0 ∷ send reg ∷ select ∷ s.wire;
  exchanges = s.exchanges + 1 + 1;
  spdr = reply s;
}

abbrev pub after_write : ℕ → ℕ → Shield → Shield
after_write reg value s = record s {
  wire = release ∷ send value ∷ send (bit_or reg 2) ∷ select ∷ s.wire;
  exchanges = s.exchanges + 1 + 1;
  spdr = reply s;
}

pub read-ok : (reg : ℕ) (s : Shield) → read reg s ≡ some (reply s, after_read reg s)
unfolding read
read-ok reg s = refl

pub write-ok : (reg value : ℕ) (s : Shield) → write reg value s ≡ some (tt, after_write reg value s)
unfolding write
write-ok reg value s = refl
