-- ===== src/Usb/Transfer/Ending/Reading.antt =====
-- usb_read (src/mcu/max3421e/max3421e_usb.c) on a board that does not stall.
use microbridge.Base.{
  ℕ, zero, suc, ◌+◌, ◌≤◌, ◌<◌, ◌≡◌, ◌∙◌, ap, refl, inl, inr, false, List, [], ◌++◌, some, arith,
  ◌==◌, ltb, leb, ◌||◌, u16, bit_and, if◌then◌else◌, Bool-cases, negsuc,
}
use microbridge.Base.Run.{Cmd, pure, bind-at}
use microbridge.Base.Ends.{pure-IsEnding, bind-IsEnding, if_IsEnding}
use microbridge.Shield.{Shield}
use microbridge.Max3421e.{read}
use microbridge.Max3421e.Constants.{
  reg_hirq, reg_rcvbc, reg_rcvfifo, reg_peraddr, reg_hctl, tok_in, bm_rcvdavirq,
}
use microbridge.Max3421e.Ending.{Ending, write-Ending, read-Ending, read_multiple-Ending}
use microbridge.Usb.Constants.{retry_limit}
use microbridge.Usb.Device.{Endpoint}
use microbridge.Usb.Transfer.{
  Packet, failed, packet, read_packet, Input, finish_read, read_loop, usb_read,
}
use microbridge.Usb.Transfer.Reading.{packet-length}
use microbridge.Usb.Transfer.Ending.{dispatch_packet-Ending}

module _ (rounds : ℕ) where
  -- The rounds given are enough for the waits.
  module _ (wait : ℕ) (enough : rounds ≤ wait) where
    read_packet-Ending :
        (endpoint : Endpoint) (limit : ℕ)
        → 0 < limit
        → limit < 0x1_0000
        → limit + retry_limit ≤ wait
        → Ending rounds (read_packet wait endpoint limit)
    unfolding read_packet
    read_packet-Ending endpoint limit pos small left =
        bind-IsEnding
          (dispatch_packet-Ending rounds wait enough tok_in limit endpoint pos small left)
          λ rcode.
            if_IsEnding (rcode == 0)
              (bind-IsEnding (read-Ending rounds reg_hirq) λ hirq.
                if_IsEnding (bit_and hirq bm_rcvdavirq == 0) (pure-IsEnding {a = failed (negsuc 1)})
                  (bind-IsEnding (read-Ending rounds reg_rcvbc) λ count.
                    bind-IsEnding (read_multiple-Ending rounds reg_rcvfifo count) λ bytes.
                      bind-IsEnding (write-Ending rounds reg_hirq bm_rcvdavirq)
                        λ _. pure-IsEnding {a = packet count bytes}))
              (pure-IsEnding {a = failed (negsuc 0)})

    finish_read-Ending :
        (endpoint : Endpoint) (total : ℕ) (stored : List ℕ)
        → Ending rounds (finish_read endpoint total stored)
    unfolding finish_read read
    finish_read-Ending endpoint total stored = record { ends = λ s p. (_, _, refl, p) }

    -- What usb_read does with a packet; `next` are its further rounds.
    abbrev after_packet :
        Endpoint
        → (length total : ℕ) → List ℕ
        → (ℕ → List ℕ → Cmd Shield Input)
        → Packet
        → Cmd Shield Input
    after_packet endpoint length total stored next k = elim k [
      | failed r ↦ pure (record { result = r; bytes = stored; endpoint = endpoint })
      | packet count bytes ↦
          let sum = u16 (total + count) in
          if ltb count endpoint.max_packet_size || leb length sum
          then finish_read endpoint sum (stored ++ bytes)
          else next sum (stored ++ bytes)
    ]

    packet-Ending :
        (k : Packet) (endpoint : Endpoint) (length total : ℕ) (stored : List ℕ)
        (next : ℕ → List ℕ → Cmd Shield Input)
        → ((count : ℕ) (bytes : List ℕ)
            → k ≡ packet count bytes
            → (ltb count endpoint.max_packet_size || leb length (u16 (total + count))) ≡ false
            → Ending rounds (next (u16 (total + count)) (stored ++ bytes)))
        → Ending rounds (after_packet endpoint length total stored next k)
    packet-Ending (failed r) endpoint length total stored next rest = pure-IsEnding
    packet-Ending (packet count bytes) endpoint length total stored next rest =
        let sum = u16 (total + count) in
        elim (Bool-cases (ltb count endpoint.max_packet_size || leb length sum)) [
          | inl last ↦ rw last (finish_read-Ending endpoint sum (stored ++ bytes))
          | inr more ↦ rw more (rest count bytes refl more)
        ]

    -- Every packet but the last brings at least one byte, since it is a full one.
    read_loop-Ending :
        (loop : ℕ) (endpoint : Endpoint) (length limit total : ℕ) (stored : List ℕ)
        → 0 < limit
        → limit < 0x1_0000
        → limit + retry_limit ≤ wait
        → 0 < endpoint.max_packet_size
        → length ≤ 0xff00
        → total ≤ length
        → length < loop + total
        → Ending rounds (read_loop wait loop endpoint length limit total stored)
    unfolding read_loop
    read_loop-Ending zero endpoint length limit total stored pos small left size short within more =
        absurd (omega arith)
    read_loop-Ending (suc loop) endpoint length limit total stored pos small left size short within
          more =
        record {
          ends = λ s p.
              let (k, t, e, q) = (read_packet-Ending endpoint limit pos small left).ends s p in
              let tail =
                packet-Ending k endpoint length total stored
                  (read_loop wait loop endpoint length limit)
                  (λ count bytes same unread.
                    let byte : count < 256 =
                      (packet-length wait limit count endpoint bytes s t
                        (e ∙ ap (λ x. some (x, t)) same)).1 in
                    read_loop-Ending loop endpoint length limit (u16 (total + count))
                      (stored ++ bytes) pos small left size short (ground arith) (ground arith)) in
              let (i, u, f, r) = tail.ends t q in
              (i, u, bind-at (read_packet wait endpoint limit) _ s e ∙ f, r);
        }

    pub usb_read-Ending :
        (address : ℕ) (endpoint : Endpoint) (length limit : ℕ)
        → 0 < limit
        → limit < 0x1_0000
        → limit + retry_limit ≤ wait
        → 0 < endpoint.max_packet_size
        → length ≤ 0xff00
        → length < wait
        → Ending rounds (usb_read wait address endpoint length limit)
    unfolding usb_read
    usb_read-Ending address endpoint length limit pos small left size short more =
        bind-IsEnding (write-Ending rounds reg_peraddr address) λ _.
          bind-IsEnding (write-Ending rounds reg_hctl endpoint.receive_toggle) λ _.
            read_loop-Ending wait endpoint length limit 0 [] pos small left size short (omega arith)
              (omega arith)
