-- ===== src/Usb/Transfer/Ending.antt =====
-- usb_dispatchPacket (src/mcu/max3421e/max3421e_usb.c) on a board that does not stall.
pub mod Reading
use microbridge.Base.{
  ℕ, zero, suc, ◌+◌, ◌*◌, ◌≤◌, ◌<◌, ◌≡◌, ◌∙◌, ap, refl, inl, inr, true, false, List, [], ◌++◌, some,
  arith, ◌==◌, ltb, leb, ◌||◌, u8, u16, u32, bit_and, bit_or, if◌then◌else◌, Bool-cases, negsuc,
}
use microbridge.Base.Run.{Cmd, pure, bind-at}
use microbridge.Base.Ends.{pure-IsEnding, bind-IsEnding, if_IsEnding}
use microbridge.Shield.{Shield, millis}
use microbridge.Max3421e.{write, read}
use microbridge.Max3421e.Constants.{
  reg_hirq, reg_hrsl, reg_hxfr, reg_rcvbc, reg_rcvfifo, reg_peraddr, reg_hctl, tok_in, bm_hxfrdnirq,
  bm_rcvdavirq, hr_busy,
}
use microbridge.Max3421e.Laws.{reply, after_read, after_write}
use microbridge.Max3421e.Ending.{
  IsLively, Ending, millis-Ending, write-Ending, read-Ending, read_multiple-Ending,
}
use microbridge.Usb.Constants.{retry_limit, xfer_timeout}
use microbridge.Usb.Device.{Endpoint}
use microbridge.Usb.Transfer.{
  Verdict, finish, again, verdict, wait_interrupt, wait_result, dispatch_round, dispatch_loop,
  dispatch_packet, Packet, failed, packet, read_packet, Input, finish_read, read_loop, usb_read,
}
use microbridge.Usb.Transfer.Reading.{packet-length}

module _ (rounds : ℕ) where
  -- The state after a reading of the clock.
  abbrev ticked : Shield → Shield
  ticked s = record s { readings = s.readings + 1 }

  -- The wait is over with the read after `k` others, or before.
  wait_interrupt_at :
      (k fuel timeout : ℕ) (s : Shield)
      → k < fuel
      → (bit_and (u8 (s.replies (s.exchanges + 1 + 2 * k))) bm_hxfrdnirq == 0) ≡ false
      → IsLively rounds s
      → (r : ℕ) × (t : Shield) × (wait_interrupt fuel timeout s ≡ some (r, t)) × IsLively rounds t
  unfolding wait_interrupt millis read write
  wait_interrupt_at k zero timeout s lt set p = absurd (omega arith)
  wait_interrupt_at zero (suc fuel) timeout s lt set p =
      elim (Bool-cases (ltb (u32 (s.clock s.readings)) timeout)) [
        | inr late ↦ (0xff, ticked s, ground arith, p)
        | inl early ↦
            (0, after_write reg_hirq bm_hxfrdnirq (after_read reg_hirq (ticked s)), ground arith, p)
      ]
  wait_interrupt_at (suc k) (suc fuel) timeout s lt set p =
      let seen = after_read reg_hirq (ticked s) in
      let step : s.exchanges + 1 + 1 + 1 + 2 * k ≡ s.exchanges + 1 + 2 * suc k = omega arith in
      let (r, t, e, q) = wait_interrupt_at k fuel timeout seen (omega arith) (rw step set) p in
      elim (Bool-cases (ltb (u32 (s.clock s.readings)) timeout)) [
        | inr late ↦ (0xff, ticked s, ground arith, p)
        | inl early ↦ elim (Bool-cases (bit_and (reply (ticked s)) bm_hxfrdnirq == 0)) [
          | inr now ↦ (0, after_write reg_hirq bm_hxfrdnirq seen, ground arith, p)
          | inl clear ↦ (r, t, rw (early, clear) e, q)
        ]
      ]

  wait_result_at :
      (k fuel timeout rcode : ℕ) (s : Shield)
      → k < fuel
      → (bit_and (u8 (s.replies (s.exchanges + 1 + 2 * k))) 0x0f == hr_busy) ≡ false
      → IsLively rounds s
      → (r : ℕ) × (t : Shield) × (wait_result fuel timeout rcode s ≡ some (r, t))
        × IsLively rounds t
  unfolding wait_result millis read
  wait_result_at k zero timeout rcode s lt set p = absurd (omega arith)
  wait_result_at zero (suc fuel) timeout rcode s lt set p =
      elim (Bool-cases (ltb (u32 (s.clock s.readings)) timeout)) [
        | inr late ↦ (rcode, ticked s, ground arith, p)
        | inl early ↦
            (bit_and (reply (ticked s)) 0x0f, after_read reg_hrsl (ticked s), ground arith, p)
      ]
  wait_result_at (suc k) (suc fuel) timeout rcode s lt set p =
      let seen = after_read reg_hrsl (ticked s) in
      let result = bit_and (reply (ticked s)) 0x0f in
      let step : s.exchanges + 1 + 1 + 1 + 2 * k ≡ s.exchanges + 1 + 2 * suc k = omega arith in
      let (r, t, e, q) = wait_result_at k fuel timeout result seen (omega arith) (rw step set) p in
      elim (Bool-cases (ltb (u32 (s.clock s.readings)) timeout)) [
        | inr late ↦ (rcode, ticked s, ground arith, p)
        | inl early ↦ elim (Bool-cases (result == hr_busy)) [
          | inr now ↦ (result, seen, ground arith, p)
          | inl busy ↦ (r, t, rw (early, busy) e, q)
        ]
      ]

  -- The rounds given are enough for the waits.
  module _ (wait : ℕ) (enough : rounds ≤ wait) where
    wait_interrupt-Ending : (timeout : ℕ) → Ending rounds (wait_interrupt wait timeout)
    wait_interrupt-Ending timeout = record {
      ends = λ s p.
          let (k, lt, set) = p.done (s.exchanges + 1) in
          wait_interrupt_at k wait timeout s (omega arith) set p;
    }

    wait_result-Ending : (timeout rcode : ℕ) → Ending rounds (wait_result wait timeout rcode)
    wait_result-Ending timeout rcode = record {
      ends = λ s p.
          let (k, lt, set) = p.idle (s.exchanges + 1) in
          wait_result_at k wait timeout rcode s (omega arith) set p;
    }

    dispatch_round-Ending :
        (token address timeout : ℕ) → Ending rounds (dispatch_round wait token address timeout)
    unfolding dispatch_round
    dispatch_round-Ending token address timeout =
        bind-IsEnding (write-Ending rounds reg_hxfr (bit_or token address)) λ _.
          bind-IsEnding (wait_interrupt-Ending timeout) λ done.
            if_IsEnding (done == 0)
              (bind-IsEnding (wait_result-Ending timeout done)
                λ result. pure-IsEnding {a = (true, result)})
              (pure-IsEnding {a = (false, done)})

    verdict-Ending :
        (v : Verdict) (result : ℕ) (next : ℕ → ℕ → ℕ → Cmd Shield ℕ)
        → ((n r : ℕ) → v ≡ again n r → Ending rounds (next result n r))
        → Ending rounds (elim v [ finish ↦ pure result | again n r ↦ next result n r ])
    verdict-Ending finish result next rest = pure-IsEnding
    verdict-Ending (again n r) result next rest = rest n r refl

    -- A verdict that asks for another try counts a NAK or a timeout, and stays within the limits.
    pub verdict_counts :
        (limit result naks retries n r : ℕ)
        → naks < limit
        → limit < 0x1_0000
        → retries < retry_limit
        → verdict limit result naks retries ≡ again n r
        → (n < limit) × (r < retry_limit) × (n + r ≡ naks + retries + 1)
    unfolding verdict
    verdict_counts limit result naks retries n r lt small rt e = ground arith

    -- The tries that are left: the limits less the counts.
    dispatch_loop-Ending :
        (fuel token address limit timeout rcode naks retries : ℕ)
        → limit < 0x1_0000
        → naks < limit
        → retries < retry_limit
        → limit + retry_limit ≤ fuel + naks + retries
        → Ending rounds (dispatch_loop wait fuel token address limit timeout rcode naks retries)
    unfolding dispatch_loop
    dispatch_loop-Ending zero token address limit timeout rcode naks retries small lt rt left =
        absurd (omega arith)
    dispatch_loop-Ending (suc fuel) token address limit timeout rcode naks retries small lt rt
          left =
        bind-IsEnding (millis-Ending rounds) λ now.
          if_IsEnding (ltb now timeout)
            (bind-IsEnding (dispatch_round-Ending token address timeout) λ (done, result).
              if_IsEnding done
                (verdict-Ending (verdict limit result naks retries) result
                  (dispatch_loop wait fuel token address limit timeout)
                  λ n r e.
                    let (lt', rt', counted) =
                      verdict_counts limit result naks retries n r lt small rt e in
                    dispatch_loop-Ending fuel token address limit timeout result n r small lt' rt'
                      (omega arith))
                (pure-IsEnding {a = result}))
            (pure-IsEnding {a = rcode})

    -- A packet is dispatched, whatever results the chip reports, if the rounds cover the limit of NAKs and
    -- of timeouts.
    pub dispatch_packet-Ending :
        (token limit : ℕ) (endpoint : Endpoint)
        → 0 < limit
        → limit < 0x1_0000
        → limit + retry_limit ≤ wait
        → Ending rounds (dispatch_packet wait token endpoint limit)
    unfolding dispatch_packet
    dispatch_packet-Ending token limit endpoint pos small left =
        bind-IsEnding (millis-Ending rounds) λ now.
          dispatch_loop-Ending wait token endpoint.address limit (u32 (now + xfer_timeout)) 0 0 0
            small pos (omega arith) (omega arith)
