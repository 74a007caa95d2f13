-- ===== src/Max3421e/Frames.antt =====
-- The register functions of max3421e.c as accesses of the chip's registers.
use microbridge.Base.{
  ℕ, zero, suc, ◌+◌, ◌≡◌, refl, List, [], ◌∷◌, ◌++◌, none, some, arith, bit_or, length, ap, ◌∙◌,
  append_assoc, append-nil,
}
use microbridge.Base.Run.{Cmd}
use microbridge.Shield.{Shield, Wire, select, send, release}
use microbridge.Max3421e.{write, write_multiple, read, read_multiple}
use microbridge.Max3421e.Access.{
  Access, wrote, fetched, observe_step, observe, access, accesses_of, accesses, IsIdle, IsRegister,
  access_write, access_read,
}
use microbridge.Max3421e.Laws.{reply, after_read, after_write, read-ok, write-ok}
use microbridge.Max3421e.Laws.Multiple.{
  sends, clocks, received, after_values-wire, after_clocks-wire, after_write_multiple,
  after_read_multiple, write_multiple-ok, read_multiple-ok,
}

observe-sends :
    (vs bs : List ℕ) (w : List Wire)
    → (observe w).current ≡ some bs
    → observe (sends vs w) ≡ record { frames = (observe w).frames; current = some (bs ++ vs) }
unfolding observe observe_step
observe-sends [] bs w e = rw append-nil (ground arith)
observe-sends (v ∷ vs) bs w e =
    observe-sends vs (bs ++ v ∷ []) (send v ∷ w) (ground arith) ∙ rw append_assoc refl

zeros : ℕ → List ℕ
zeros zero = []
zeros (suc n) = 0 ∷ zeros n

length-zeros : (n : ℕ) → length (zeros n) ≡ n
unfolding zeros
length-zeros zero = refl
length-zeros (suc n) = ap suc (length-zeros n)

clocks-sends : (n : ℕ) (w : List Wire) → clocks n w ≡ sends (zeros n) w
unfolding zeros
clocks-sends zero w = refl
clocks-sends (suc n) w = clocks-sends n (send 0 ∷ w)

-- Select, a command byte, data bytes, release: one more frame, and no frame is left open.
observe_frame :
    (c : ℕ) (vs : List ℕ) (w : List Wire)
    → observe (release ∷ sends vs (send c ∷ select ∷ w))
      ≡ record { frames = (c ∷ vs) ∷ (observe w).frames; current = none }
unfolding observe observe_step
observe_frame c vs w =
    ap (observe_step release) (observe-sends vs (c ∷ []) (send c ∷ select ∷ w) refl)

frame-access :
    (c : ℕ) (vs : List ℕ) (a : Access) (s t : Shield)
    → access (c ∷ vs) ≡ a ∷ []
    → t.wire ≡ release ∷ sends vs (send c ∷ select ∷ s.wire)
    → (accesses t ≡ a ∷ accesses s) × IsIdle t
unfolding accesses IsIdle accesses_of
frame-access c vs a s t ok e =
    (rw (e, observe_frame c vs s.wire, ok) refl, rw (e, observe_frame c vs s.wire) refl)

pub accesses-write :
    (reg value : ℕ) (s : Shield)
    → IsRegister reg
    → accesses (after_write reg value s) ≡ wrote reg (value ∷ []) ∷ accesses s
accesses-write reg value s r =
    (frame-access (bit_or reg 2) (value ∷ []) _ s (after_write reg value s)
      (access_write reg (value ∷ []) r) refl).0

pub accesses-read :
    (reg : ℕ) (s : Shield)
    → IsRegister reg
    → accesses (after_read reg s) ≡ fetched reg 1 ∷ accesses s
accesses-read reg s r =
    (frame-access reg (0 ∷ []) _ s (after_read reg s) (access_read reg (0 ∷ []) r) refl).0

pub accesses-write_multiple :
    (reg : ℕ) (values : List ℕ) (s : Shield)
    → IsRegister reg
    → accesses (after_write_multiple reg values s) ≡ wrote reg values ∷ accesses s
accesses-write_multiple reg values s r =
    (frame-access (bit_or reg 2) values _ s (after_write_multiple reg values s)
      (access_write reg values r) (ap (◌∷◌ release) (after_values-wire values _))).0

-- From `s` the command returns `r`, and the chip sees the one access `a`.
abbrev pub Performs : {A : Type 0} → Cmd Shield A → A → Access → Shield → Type 0
Performs m r a s = (t : Shield) × (m s ≡ some (r, t)) × (accesses t ≡ a ∷ accesses s) × IsIdle t

-- Each register function leaves no frame open and makes one access of the register that it names, with
-- the bytes given, or as many as asked for.
pub register_access :
    (reg value count : ℕ) (values : List ℕ) (s : Shield)
    → IsRegister reg
    → Performs (write reg value) tt (wrote reg (value ∷ [])) s
      × Performs (write_multiple reg values) tt (wrote reg values) s
      × Performs (read reg) (reply s) (fetched reg 1) s
      × Performs
          (read_multiple reg count)
          (received s.replies count (s.exchanges + 1))
          (fetched reg count)
          s
register_access reg value count values s r =
    let put = frame-access (bit_or reg 2) in
    let take = frame-access reg in
    let written =
      put (value ∷ []) (wrote reg (value ∷ [])) s (after_write reg value s)
        (access_write reg (value ∷ []) r) refl in
    let sent =
      put values (wrote reg values) s (after_write_multiple reg values s)
        (access_write reg values r) (ap (◌∷◌ release) (after_values-wire values _)) in
    let got =
      take (0 ∷ []) (fetched reg 1) s (after_read reg s) (access_read reg (0 ∷ []) r) refl in
    let many =
      take (zeros count) (fetched reg count) s (after_read_multiple reg count s)
        (access_read reg (zeros count) r ∙ rw (length-zeros count) refl)
        (ap (◌∷◌ release) (after_clocks-wire count _ ∙ clocks-sends count _)) in
    (
      (_, write-ok reg value s, written.0, written.1),
      (_, write_multiple-ok reg values s, sent.0, sent.1),
      (_, read-ok reg s, got.0, got.1),
      (_, read_multiple-ok reg count s, many.0, many.1),
    )
