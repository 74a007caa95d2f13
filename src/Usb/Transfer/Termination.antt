-- ===== src/Usb/Transfer/Termination.antt =====
-- usb_dispatchPacket (src/mcu/max3421e/max3421e_usb.c) comes back once the clock passes its timeout.
use microbridge.Base.{
  ℕ, zero, suc, ◌+◌, ◌≤◌, ◌<◌, ◌≡◌, refl, sym, subst, inl, inr, ◌⊎◌, Bool, true, false, some, arith,
  ◌==◌, ltb, u32, bit_and, bit_or, if◌then◌else◌, Bool-cases,
}
use microbridge.Base.Bits.{holds_to, every_byte, byte}
use microbridge.Base.Run.{Cmd}
use microbridge.Shield.{Shield, millis}
use microbridge.Max3421e.{read, write}
use microbridge.Max3421e.Constants.{reg_hirq, reg_hxfr, reg_hrsl, bm_hxfrdnirq, hr_busy}
use microbridge.Max3421e.Laws.{reply, after_read, after_write}
use microbridge.Usb.Constants.{xfer_timeout}
use microbridge.Usb.Device.{Endpoint}
use microbridge.Usb.Transfer.{
  Verdict, finish, again, verdict, wait_interrupt, wait_result, dispatch_round, dispatch_loop,
  dispatch_packet,
}

-- From reading number `from` on, the clock shows `timeout` or more.
abbrev pub Late : (ℕ → ℕ) → (from timeout : ℕ) → Type 0
Late clock from timeout = (n : ℕ) → from ≤ n → timeout ≤ u32 (clock n)

-- What the USB functions leave to the environment.
pub record After (s t : Shield) : Type 0 where
  pub clock : t.clock ≡ s.clock
  pub replies : t.replies ≡ s.replies
  pub readings : s.readings ≤ t.readings

-- The command ends with a result for which P holds.
abbrev pub Ends : Cmd Shield ℕ → (ℕ → Type 0) → Shield → Type 0
Ends m P s = (r : ℕ) × (t : Shield) × (m s ≡ some (r, t)) × After s t × P r

nibble_table : every_byte (λ x. ltb (bit_and x 0x0f) 16) ≡ true
unfolding holds_to
nibble_table = refl

low_nibble : (x : ℕ) → x < 256 → bit_and x 0x0f < 16
low_nibble x lt = ground (arith, byte (λ x. ltb (bit_and x 0x0f) 16) x nibble_table lt)

-- The state after a reading of the clock.
abbrev ticked : Shield → Shield
ticked s = record s { readings = s.readings + 1 }

After-trans : (s t u : Shield) → After s t → After t u → After s u
After-trans s t u f g = ground arith

-- A reading before the timeout is not one of the late ones.
early_reading :
    (from timeout : ℕ) (s : Shield)
    → Late s.clock from timeout
    → ltb (u32 (s.clock s.readings)) timeout ≡ true
    → s.readings < from
early_reading from timeout s late early = ground (arith, late s.readings)

wait_interrupt-Ends :
    (fuel from timeout : ℕ) (s : Shield)
    → Late s.clock from timeout
    → 0 < fuel
    → from < fuel + s.readings
    → Ends (wait_interrupt fuel timeout) (λ r. (r ≡ 0) ⊎ (r ≡ 0xff)) s
unfolding wait_interrupt millis read write
wait_interrupt-Ends zero from timeout s late pos enough = absurd (omega arith)
wait_interrupt-Ends (suc fuel) from timeout s late pos enough =
    let seen = after_read reg_hirq (ticked s) in
    elim (Bool-cases (ltb (u32 (s.clock s.readings)) timeout)) [
      | inl early ↦
          let before = early_reading from timeout s late early in
          elim (Bool-cases (bit_and (reply (ticked s)) bm_hxfrdnirq == 0)) [
            | inl clear ↦
                let (r, t, e, kept, p) =
                  wait_interrupt-Ends fuel from timeout seen late (omega arith) (omega arith) in
                (r, t, rw (early, clear) e, ground arith, p)
            | inr set ↦
                (0, after_write reg_hirq bm_hxfrdnirq seen, ground arith, ground arith, inl refl)
          ]
      | inr done ↦ (0xff, ticked s, ground arith, ground arith, inr refl)
    ]

wait_result-Ends :
    (fuel from timeout rcode : ℕ) (s : Shield)
    → Late s.clock from timeout
    → 0 < fuel
    → from < fuel + s.readings
    → rcode < 16
    → Ends (wait_result fuel timeout rcode) (λ r. r < 16) s
unfolding wait_result millis read
wait_result-Ends zero from timeout rcode s late pos enough small = absurd (omega arith)
wait_result-Ends (suc fuel) from timeout rcode s late pos enough small =
    let seen = after_read reg_hrsl (ticked s) in
    let result = bit_and (reply (ticked s)) 0x0f in
    let bound : result < 16 = low_nibble (reply (ticked s)) (omega arith) in
    elim (Bool-cases (ltb (u32 (s.clock s.readings)) timeout)) [
      | inl early ↦
          let before = early_reading from timeout s late early in
          elim (Bool-cases (result == hr_busy)) [
            | inl busy ↦
                let (r, t, e, kept, p) =
                  wait_result-Ends fuel from timeout result seen late (omega arith) (omega arith)
                    bound in
                (r, t, rw (early, busy) e, ground arith, p)
            | inr set ↦ (result, seen, ground arith, ground arith, bound)
          ]
      | inr done ↦ (rcode, ticked s, ground arith, ground arith, small)
    ]

-- A result code: the low four bits of HRSL, or the code of a timeout.
abbrev pub IsResult : ℕ → Type 0
IsResult r = (r < 16) ⊎ (r ≡ 0xff)

-- A round ends with a result or a timeout.
dispatch_round-Ends :
    (wait token address from timeout : ℕ) (s : Shield)
    → Late s.clock from timeout
    → 0 < wait
    → from < wait + s.readings
    → (done : Bool) × (r : ℕ) × (t : Shield) × (dispatch_round wait token address timeout s
        ≡ some ((done, r), t))
      × After s t
      × (if done then r < 16 else r ≡ 0xff)
unfolding dispatch_round write
dispatch_round-Ends wait token address from timeout s late pos enough =
    let started = after_write reg_hxfr (bit_or token address) s in
    let (done, t, e, kept, p) = wait_interrupt-Ends wait from timeout started late pos enough in
    elim (Bool-cases (done == 0)) [
      | inr failed ↦ (false, done, t, ground (arith, e), ground arith, ground arith)
      | inl ok ↦
          let late' : Late t.clock from timeout =
            subst (λ c. Late c from timeout) (sym kept.clock) late in
          let (r, u, f, kept', q) =
            wait_result-Ends wait from timeout done t late' pos (omega arith) (ground arith) in
          (true, r, u, ground (arith, e, f), ground arith, q)
    ]

Verdict-cases : (v : Verdict) → (v ≡ finish) ⊎ ((n : ℕ) × (r : ℕ) × (v ≡ again n r))
Verdict-cases finish = inl refl
Verdict-cases (again n r) = inr (n, r, refl)

module _ (wait token address limit from timeout : ℕ) where
  dispatch_loop-Ends :
      (fuel rcode naks retries : ℕ) (s : Shield)
      → Late s.clock from timeout
      → 0 < wait
      → from < wait + s.readings
      → 0 < fuel
      → from < fuel + s.readings
      → rcode < 16
      → Ends (dispatch_loop wait fuel token address limit timeout rcode naks retries) IsResult s
  unfolding dispatch_loop millis
  dispatch_loop-Ends zero rcode naks retries s late pos enough pos' enough' small =
      absurd (omega arith)
  dispatch_loop-Ends (suc fuel) rcode naks retries s late pos enough pos' enough' small =
      elim (Bool-cases (ltb (u32 (s.clock s.readings)) timeout)) [
        | inr done ↦ (rcode, ticked s, ground arith, ground arith, inl small)
        | inl early ↦
            let before = early_reading from timeout s late early in
            let (done, r, t, e, kept, p) =
              dispatch_round-Ends wait token address from timeout (ticked s) late pos
                (omega arith) in
            let late' : Late t.clock from timeout =
              subst (λ c. Late c from timeout) (sym kept.clock) late in
            elim (Bool-cases done) [
              | inr lost ↦ (r, t, ground (arith, e), ground arith, inr (rw lost at p))
              | inl answered ↦
                  let small' : r < 16 = rw answered at p in
                  elim (Verdict-cases (verdict limit r naks retries)) [
                    | inl over ↦ (r, t, ground (arith, e), ground arith, inl small')
                    | inr (n, k, more) ↦
                        let (r', u, f, kept', q) =
                          dispatch_loop-Ends fuel r n k t late' pos (omega arith) (omega arith)
                            (omega arith) small' in
                        (r', u, ground (arith, e, f), ground arith, q)
                  ]
            ]
      ]

-- A packet is dispatched, and a result or the timeout code comes back, if from some reading on the
-- clock stands at the timeout or later, and the wait loops have more rounds than there are readings
-- before that one.
pub dispatch_packet-Ends :
    (fuel token limit from : ℕ) (endpoint : Endpoint) (s : Shield)
    → Late s.clock from (u32 (u32 (s.clock s.readings) + xfer_timeout))
    → from < fuel
    → Ends (dispatch_packet fuel token endpoint limit) IsResult s
unfolding dispatch_packet millis
dispatch_packet-Ends fuel token limit from endpoint s late enough =
    let (r, t, e, kept, p) =
      dispatch_loop-Ends fuel token endpoint.address limit from
        (u32 (u32 (s.clock s.readings) + xfer_timeout)) fuel 0 0 0 (ticked s) late (omega arith)
        (omega arith) (omega arith) (omega arith) (omega arith) in
    (r, t, ground (arith, e), ground arith, p)
