-- ===== src/Max3421e/Access.antt =====
-- The bus as the chip sees it: which register accesses the bytes on the wire are. The command byte
-- of a frame holds the register in its upper five bits and the direction in bit 1 (MAX3421E data
-- sheet; the register numbers of src/mcu/max3421e/max3421e.h are multiples of 8).
use microbridge.Base.{
  ℕ, ◌+◌, ◌-◌, ◌/◌, ◌%◌, ◌<◌, ◌≡◌, refl, true, List, [], ◌∷◌, ◌++◌, Option, none, some, arith, ◌==◌,
  bit_or, if◌then◌else◌, length,
}
use microbridge.Base.Bits.{holds_to, every_byte, byte}
use microbridge.Shield.{Wire, select, send, release, Shield}

pub data Access : Type 0 where
  -- bytes written to a register
  wrote : ℕ → List ℕ → Access
  -- a number of bytes read from a register
  fetched : ℕ → ℕ → Access

-- The completed frames, newest first, and the frame that is open.
pub record Bus : Type 0 where
  pub frames : List (List ℕ)
  pub current : Option (List ℕ)

-- A byte that is sent while no slave is selected is lost.
unfoldable pub observe_step : Wire → Bus → Bus
observe_step select b = record b { current = some [] }
observe_step (send v) b = record b {
  current = elim b.current [ none ↦ none | some bs ↦ some (bs ++ v ∷ []) ];
}
observe_step release b = record {
  frames = elim b.current [ none ↦ b.frames | some bs ↦ bs ∷ b.frames ];
  current = none;
}

-- The wire is newest first.
unfoldable pub observe : List Wire → Bus
observe [] = record { frames = []; current = none }
observe (w ∷ ws) = observe_step w (observe ws)

-- What the chip makes of a frame.
unfoldable pub access : List ℕ → List Access
access [] = []
access (c ∷ bs) =
    if c / 2 % 2 == 1 then wrote (c - c % 8) bs ∷ [] else fetched (c - c % 8) (length bs) ∷ []

unfoldable pub accesses_of : List (List ℕ) → List Access
accesses_of [] = []
accesses_of (f ∷ fs) = access f ++ accesses_of fs

-- The register accesses so far, newest first.
unfoldable pub accesses : Shield → List Access
accesses s = accesses_of (observe s.wire).frames

-- No frame is open.
unfoldable pub IsIdle : Shield → Type 0
IsIdle s = (observe s.wire).current ≡ none

-- The numbers that the chip's registers have.
abbrev pub IsRegister : ℕ → Type 0
IsRegister reg = (reg < 256) × (reg % 8 ≡ 0)

command_table : every_byte (λ r. if r % 8 == 0 then bit_or r 2 == r + 2 else true) ≡ true
unfolding holds_to
command_table = refl

pub command_byte : (reg : ℕ) → IsRegister reg → bit_or reg 2 ≡ reg + 2
command_byte reg (lt, e) =
    ground
      (arith, byte (λ r. if r % 8 == 0 then bit_or r 2 == r + 2 else true) reg command_table lt)

pub access_write :
    (reg : ℕ) (bs : List ℕ) → IsRegister reg → access (bit_or reg 2 ∷ bs) ≡ wrote reg bs ∷ []
unfolding access
access_write reg bs r = rw (command_byte reg r) (ground arith)

pub access_read :
    (reg : ℕ) (bs : List ℕ) → IsRegister reg → access (reg ∷ bs) ≡ fetched reg (length bs) ∷ []
unfolding access
access_read reg bs r = ground arith
