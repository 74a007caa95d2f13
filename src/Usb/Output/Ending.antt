-- ===== src/Usb/Output/Ending.antt =====
-- usb_write (src/mcu/max3421e/max3421e_usb.c) on a board that does not stall: it ends whatever results
-- the chip reports.
use microbridge.Base.{
  ℕ, zero, suc, ◌+◌, ◌*◌, ◌≤◌, ◌<◌, ◌≡◌, refl, inl, inr, Bool, true, false, List, [], ◌∷◌, some,
  arith, ◌==◌, ltb, leb, u8, u32, bit_and, bit_or, if◌then◌else◌, Bool-cases, take, drop, length,
  length-drop, get_or,
}
use microbridge.Base.Run.{Cmd, pure, ◌>>=◌}
use microbridge.Base.Ends.{pure-IsEnding, bind-IsEnding, if_IsEnding, else_IsEnding}
use microbridge.Shield.{Shield}
use microbridge.Max3421e.{read}
use microbridge.Max3421e.Constants.{
  reg_hirq, reg_hrsl, reg_hxfr, reg_sndbc, reg_sndfifo, reg_peraddr, reg_hctl, tok_out,
  bm_hxfrdnirq, bm_sndtogrd, bm_sndtog0, bm_sndtog1,
}
use microbridge.Max3421e.Laws.{reply, after_read}
use microbridge.Max3421e.Ending.{
  IsLively, Ending, millis-Ending, write-Ending, read-Ending, write_multiple-Ending,
}
use microbridge.Usb.Constants.{nak_limit, retry_limit, xfer_timeout}
use microbridge.Usb.Device.{Endpoint}
use microbridge.Usb.Transfer.{Verdict, finish, again, verdict}
use microbridge.Usb.Transfer.Ending.{verdict_counts}
use microbridge.Usb.Output.{
  wait_done, launch, resend, retry_loop, send_packet, send_loop, usb_write,
}

module _ (rounds : ℕ) where
  -- The wait is over with the read after `k` others.
  wait_done_at :
      (k fuel : ℕ) (s : Shield)
      → k < fuel
      → (bit_and (u8 (s.replies (s.exchanges + 1 + 2 * k))) bm_hxfrdnirq == 0) ≡ false
      → IsLively rounds s
      → (t : Shield) × (wait_done fuel s ≡ some (tt, t)) × IsLively rounds t
  unfolding wait_done read
  wait_done_at k zero s lt set p = absurd (omega arith)
  wait_done_at zero (suc fuel) s lt set p = (after_read reg_hirq s, ground arith, p)
  wait_done_at (suc k) (suc fuel) s lt set p =
      let step : s.exchanges + 1 + 1 + 1 + 2 * k ≡ s.exchanges + 1 + 2 * suc k = omega arith in
      let rest = wait_done_at k fuel (after_read reg_hirq s) (omega arith) (rw step set) p in
      elim (Bool-cases (bit_and (reply s) bm_hxfrdnirq == 0)) [
        | inl clear ↦ (rest.0, rw clear rest.1, rest.2)
        | inr now ↦ (after_read reg_hirq s, ground arith, p)
      ]

  -- The rounds given are enough for the waits, and for every NAK and timeout that is let pass.
  module _ (wait : ℕ) (enough : rounds ≤ wait) (tries : nak_limit + retry_limit ≤ wait) where
    wait_done-Ending : Ending rounds (wait_done wait)
    wait_done-Ending = record {
      ends = λ s p.
          let (k, lt, set) = p.done (s.exchanges + 1) in
          let (t, e, q) = wait_done_at k wait s (omega arith) set p in (tt, t, e, q);
    }

    launch-Ending : (address : ℕ) → Ending rounds (launch wait address)
    unfolding launch
    launch-Ending address =
        bind-IsEnding (write-Ending rounds reg_hxfr (bit_or tok_out address)) λ _.
          bind-IsEnding wait_done-Ending λ _.
            bind-IsEnding (write-Ending rounds reg_hirq bm_hxfrdnirq) λ _.
              bind-IsEnding (read-Ending rounds reg_hrsl)
                λ hrsl. pure-IsEnding {a = bit_and hrsl 0x0f}

    resend-Ending : (address first count : ℕ) → Ending rounds (resend wait address first count)
    unfolding resend
    resend-Ending address first count = bind-IsEnding (write-Ending rounds reg_sndbc 0) λ _.
        bind-IsEnding (write-Ending rounds reg_sndfifo first)
          λ _. bind-IsEnding (write-Ending rounds reg_sndbc count) λ _. launch-Ending address

    -- What usb_write does with a verdict; `next` are its further tries.
    abbrev after_verdict :
        (address first count rcode : ℕ)
        → (ℕ → ℕ → ℕ → Cmd Shield (Bool × ℕ))
        → Verdict
        → Cmd Shield (Bool × ℕ)
    after_verdict address first count rcode next v = elim v [
      | finish ↦ pure (true, rcode)
      | again n r ↦ (do result ← resend wait address first count; next result n r)
    ]

    verdict-Ending :
        (v : Verdict) (address first count rcode : ℕ) (next : ℕ → ℕ → ℕ → Cmd Shield (Bool × ℕ))
        → ((n r result : ℕ) → v ≡ again n r → Ending rounds (next result n r))
        → Ending rounds (after_verdict address first count rcode next v)
    verdict-Ending finish address first count rcode next rest = pure-IsEnding
    verdict-Ending (again n r) address first count rcode next rest =
        bind-IsEnding (resend-Ending address first count) λ result. rest n r result refl

    retry_loop-Ending :
        (fuel address timeout first count rcode naks retries : ℕ)
        → naks < nak_limit
        → retries < retry_limit
        → nak_limit + retry_limit ≤ fuel + naks + retries
        → Ending rounds (retry_loop wait fuel address timeout first count rcode naks retries)
    unfolding retry_loop
    retry_loop-Ending zero address timeout first count rcode naks retries lt rt left =
        absurd (omega arith)
    retry_loop-Ending (suc fuel) address timeout first count rcode naks retries lt rt left =
        if_IsEnding (rcode == 0) (pure-IsEnding {a = (false, rcode)}) (
          bind-IsEnding (millis-Ending rounds) λ now.
            if_IsEnding (ltb now timeout)
              (verdict-Ending (verdict nak_limit rcode naks retries) address first count rcode
                (retry_loop wait fuel address timeout first count)
                λ n r result e.
                  let (lt', rt', counted) =
                    verdict_counts rounds wait enough nak_limit rcode naks retries n r lt
                      (omega arith) rt e in
                  retry_loop-Ending fuel address timeout first count result n r lt' rt'
                    (omega arith))
              (pure-IsEnding {a = (false, rcode)}))

    send_packet-Ending :
        (address timeout : ℕ) (bytes : List ℕ)
        → Ending rounds (send_packet wait address timeout bytes)
    unfolding send_packet
    send_packet-Ending address timeout bytes =
        bind-IsEnding (write_multiple-Ending rounds reg_sndfifo bytes) λ _.
          bind-IsEnding (write-Ending rounds reg_sndbc (length bytes)) λ _.
            bind-IsEnding (launch-Ending address) λ result.
              retry_loop-Ending wait address timeout (get_or bytes 0 0) (length bytes) result 0 0
                (omega arith) (omega arith) (omega arith)

    -- Every packet takes at least one byte.
    send_loop-Ending :
        (loop address timeout size : ℕ) (bytes : List ℕ) (rcode : ℕ)
        → 0 < size
        → length bytes ≤ loop
        → Ending rounds (send_loop wait loop address timeout size bytes rcode)
    unfolding send_loop
    send_loop-Ending loop address timeout size [] rcode pos left = pure-IsEnding
    send_loop-Ending zero address timeout size (b ∷ bs) rcode pos left = absurd (omega arith)
    send_loop-Ending (suc loop) address timeout size (b ∷ bs) rcode pos left =
        let count = if leb size (length (b ∷ bs)) then size else length (b ∷ bs) in
        bind-IsEnding (send_packet-Ending address timeout (take count (b ∷ bs))) λ (stop, result).
          if_IsEnding stop (pure-IsEnding {a = (true, result)}) (
            send_loop-Ending loop address timeout size (drop count (b ∷ bs)) result pos
              (ground (arith, length-drop count (b ∷ bs))))

    pub usb_write-Ending :
        (address : ℕ) (endpoint : Endpoint) (bytes : List ℕ)
        → Ending rounds (usb_write wait address endpoint bytes)
    unfolding usb_write
    usb_write-Ending address endpoint bytes =
        let size = u8 endpoint.max_packet_size in
        bind-IsEnding (write-Ending rounds reg_peraddr address) λ _.
          bind-IsEnding (millis-Ending rounds) λ now.
            else_IsEnding (size == 0) (pure-IsEnding {a = (0xfe, endpoint)}) λ sized.
              bind-IsEnding (write-Ending rounds reg_hctl endpoint.send_toggle) λ _.
                bind-IsEnding
                  (send_loop-Ending (length bytes) endpoint.address (u32 (now + xfer_timeout)) size
                    bytes 0 (ground arith) (omega arith))
                  λ (stop, rcode). if_IsEnding stop (pure-IsEnding {a = (rcode, endpoint)}) (
                    bind-IsEnding (read-Ending rounds reg_hrsl) λ hrsl.
                      pure-IsEnding
                        {a = (
                          rcode,
                          record endpoint {
                            send_toggle =
                                if bit_and hrsl bm_sndtogrd == 0 then bm_sndtog0 else bm_sndtog1;
                          },
                        )})
