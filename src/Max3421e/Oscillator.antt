-- ===== src/Max3421e/Oscillator.antt =====
-- max3421e_reset: the wait for the oscillator.
use microbridge.Base.{
  ℕ, zero, suc, ◌+◌, ◌*◌, ◌≤◌, ◌<◌, ◌≡◌, refl, inl, inr, Bool, true, false, some, arith, ◌==◌, u8,
  bit_and, if◌then◌else◌, Bool-cases,
}
use microbridge.Shield.{Shield}
use microbridge.Shield.Clock.{Passes, delay-ends}
use microbridge.Max3421e.{read, write, wait_oscillator, reset}
use microbridge.Max3421e.Constants.{reg_usbirq, reg_usbctl, bm_chipres}
use microbridge.Max3421e.Laws.{after_read, after_write}

-- OSCOKIRQ is set in one of `n` successive register reads, the first of which ends with exchange
-- `e + 1`.
unfoldable pub ready_within : ℕ → (ℕ → ℕ) → ℕ → Bool
ready_within zero replies e = false
ready_within (suc n) replies e =
    if bit_and (u8 (replies (e + 1))) 1 == 0 then ready_within n replies (e + 1 + 1) else true

wait_oscillator-ready :
    (fuel tmp : ℕ) (s : Shield)
    → tmp + suc fuel ≡ 256
    → (t : Shield) × (wait_oscillator (suc fuel) tmp s
        ≡ some (ready_within (suc fuel) s.replies s.exchanges, t))
      × (t.exchanges ≤ s.exchanges + 2 * suc fuel)
unfolding wait_oscillator ready_within read
wait_oscillator-ready zero tmp s e = (after_read reg_usbirq s, ground arith, omega arith)
wait_oscillator-ready (suc fuel) tmp s e =
    elim (Bool-cases (bit_and (u8 (s.replies (s.exchanges + 1))) 1 == 0)) [
      | inl clear ↦
          let (t, ends, bound) =
            wait_oscillator-ready fuel (u8 (tmp + 1)) (after_read reg_usbirq s) (omega arith) in
          (t, ground (arith, ends), omega (arith, bound))
      | inr set ↦ (after_read reg_usbirq s, ground arith, omega arith)
    ]

-- Once the 10 ms have passed, a reset ends with true exactly when the oscillator is reported stable
-- by one of the 256 status reads that follow the two writes; it makes at most those.
pub reset-ready :
    (i fuel : ℕ) (s : Shield)
    → i < fuel
    → Passes i 10 s
    → (t : Shield) × (reset fuel s ≡ some (ready_within 256 s.replies (s.exchanges + 4), t))
      × (t.exchanges ≤ s.exchanges + 4 + 2 * 256)
unfolding reset write
reset-ready i fuel s lt late =
    let start = after_write reg_usbctl 0 (after_write reg_usbctl bm_chipres s) in
    let (k, waited) = delay-ends i fuel 10 start lt late in
    let (t, ends, bound) = wait_oscillator-ready 255 0 (record start { readings = k }) refl in
    (t, ground (arith, waited, ends), omega (arith, bound))
