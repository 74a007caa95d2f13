-- ===== src/Usb/Control/Strings.antt =====
-- usb_getString of src/mcu/max3421e/max3421e_usb.c.
use microbridge.Base.{
  ℕ, ◌+◌, ◌*◌, ◌≤◌, ◌≡◌, arith, ltb, if◌then◌else◌, ◌==◌, u8, ℤ, pos, negsuc, is_neg, some, true,
  false, ◌⊎◌, Bool,
}
use microbridge.Base.Run.{Cmd, pure, ◌>>=◌}
use microbridge.Shield.{Shield}
use microbridge.Usb.Constants.{descriptor_string}
use microbridge.Usb.Device.{Memory, Device}
use microbridge.Usb.Control.{store, narrow, narrow_count, transfer_request, descriptor_request}

-- The string at `str` after the conversion of a descriptor of n bytes that came in as `raw`.
abbrev pub Narrowed : (n : ℕ) (raw str : Memory) → Type 0
Narrowed n raw str =
    (k : ℕ)
    → str k ≡ (
        if k == narrow_count n
        then 0
        else if ltb k (narrow_count n)
        then raw (2 + k * 2)
        else raw k)

-- The length asked for: what the device reports, or what the buffer has.
abbrev pub trimmed : (length reported : ℕ) → ℕ
trimmed length reported = if ltb length reported then u8 length else reported

-- What usb_getString does from the device `e` and the board `u` on, with n bytes to fetch.
unfoldable pub Fetched :
    (fuel index language n : ℕ) (str str' : Memory) (e d : Device) (u t : Shield) (r : ℤ) → Type 0
Fetched fuel index language n str str' e d u t r =
    (raw : Memory) × (q : ℤ) × (transfer_request fuel e
        (descriptor_request descriptor_string index n language) str u
      ≡ some ((q, d, raw), t))
    × (((is_neg q ≡ true) × (r ≡ negsuc 1) × (str' ≡ raw))
        ⊎ ((is_neg q ≡ false) × (r ≡ pos 0) × Narrowed n raw str'))

-- The end of usb_getString, after a second request that failed or not.
abbrev ending : (n : ℕ) → (failed : Bool) → Device → Memory → Cmd Shield (ℤ × Device × Memory)
ending n failed d raw =
    if failed
    then pure (negsuc 1, d, raw)
    else pure (pos 0, d, store (narrow (narrow_count n) 0 raw) (narrow_count n) 0)

-- A string descriptor of n ≥ 2 bytes fits.
narrow_count_lem : (n : ℕ) → 2 ≤ n → narrow_count n * 2 + 2 ≤ n
unfolding narrow_count
narrow_count_lem n h = ground arith
