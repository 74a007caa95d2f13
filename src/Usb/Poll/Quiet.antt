-- ===== src/Usb/Poll/Quiet.antt =====
-- What servicing the interrupt does in a poll (max3421e_poll of src/mcu/max3421e/max3421e.c) while nothing
-- changes on the bus.
use microbridge.Base.{
  ℕ, ◌+◌, ◌≡◌, refl, ap, none, true, false, bit_and, some, ◌==◌, u8, arith, Bool, Bool-cases, inl,
  inr, if◌then◌else◌,
}
use microbridge.Base.Run.{Cmd, pure}
use microbridge.Shield.{Shield}
use microbridge.Max3421e
use microbridge.Max3421e.{max_int, max_gpx, interrupt_handler, gpx_interrupt_handler}
use microbridge.Max3421e.Constants.{fs_host, bm_condetirq, reg_gpinirq, bm_busrst, bm_frameirq}
use microbridge.Max3421e.Laws.{after_read}
use microbridge.Usb.Constants.{state_mask, state_detached}
use microbridge.Usb.Host.{Host, on_shield, vbus_changed}

-- A full-speed device is on the bus, and whatever register is read, the chip shows no change on the bus, a
-- bus reset that has ended, and a frame that it has sent.
pub record Ready (s : Shield) : Type 0 where
  pub full_speed : s.vbus_state ≡ fs_host
  pub unchanged : (n : ℕ) → (bit_and (u8 (s.replies n)) bm_condetirq == 0) ≡ true
  pub reset_over : (n : ℕ) → (bit_and (u8 (s.replies n)) bm_busrst == 0) ≡ true
  pub framed : (n : ℕ) → (bit_and (u8 (s.replies n)) bm_frameirq == 0) ≡ false

-- The states of the shield in which the wire, the exchanges and the clock have gone on.
abbrev pub Onward : (s t : Shield) → Type 0
Onward s t = (t.replies ≡ s.replies) × (t.vbus_state ≡ s.vbus_state)

pub Ready-Onward : (s t : Shield) → Onward s t → Ready s → Ready t
Ready-Onward s t o r = record {
  full_speed = rw o.1 r.full_speed;
  unchanged = λ n. rw o.0 (r.unchanged n);
  reset_over = λ n. rw o.0 (r.reset_over n);
  framed = λ n. rw o.0 (r.framed n);
}

-- Only the wire and the exchanges have gone on.
pub record Quiet (s t : Shield) : Type 0 where
  pub replies : t.replies ≡ s.replies
  pub vbus_state : t.vbus_state ≡ s.vbus_state
  pub clock : t.clock ≡ s.clock
  pub readings : t.readings ≡ s.readings

Quiet-self : (s : Shield) → Quiet s s
Quiet-self s = record { replies = refl; vbus_state = refl; clock = refl; readings = refl }

interrupt-Quiet :
    (s : Shield)
    → Ready s
    → (r : ℕ) × (t : Shield) × (interrupt_handler s ≡ some (r, t)) × Quiet s t
unfolding interrupt_handler Max3421e.read Max3421e.write
interrupt-Quiet s ready =
    rw (ready.unchanged (s.exchanges + 1))
      (_, _, refl, record { replies = refl; vbus_state = refl; clock = refl; readings = refl })

-- Servicing the interrupt or not, and reading the GPX register or not, changes nothing else.
pub poll-Quiet :
    (s : Shield) → Ready s → (r : ℕ) × (t : Shield) × (Max3421e.poll s ≡ some (r, t)) × Quiet s t
unfolding Max3421e.poll gpx_interrupt_handler Max3421e.read
poll-Quiet s ready =
    let (r, t, served, quiet) = after_int (max_int s == 0) in
    elim (Bool-cases (max_gpx t == 0)) [
      | inl low ↦ (
        r,
        after_read reg_gpinirq t,
        ground (arith, served, low),
        record {
          replies = quiet.replies;
          vbus_state = quiet.vbus_state;
          clock = quiet.clock;
          readings = quiet.readings;
        },
      )
      | inr high ↦ (r, t, ground (arith, served, high), quiet)
    ]
  where
    after_int :
        (low : Bool)
        → (r : ℕ) × (t : Shield) × ((if low then interrupt_handler else pure 0) s ≡ some (r, t))
          × Quiet s t
    after_int true = interrupt-Quiet s ready
    after_int false = (0, s, refl, Quiet-self s)

-- The bus does not move the state of an attached device.
pub vbus-stays :
    (h : Host)
    → Ready h.shield
    → (bit_and h.task_state state_mask == state_detached) ≡ false
    → vbus_changed h ≡ some (tt, h)
unfolding vbus_changed
vbus-stays h r e = rw (r.full_speed, e)

pub on_shield-at :
    {A : Type 0} (m : Cmd Shield A) (h : Host) (s : Shield) (a : A)
    → m h.shield ≡ some (a, s)
    → on_shield m h ≡ some (a, record h { shield = s })
on_shield-at m h s a p =
    ap (λ o. elim o [ none ↦ none | some (x, t) ↦ some (x, record h { shield = t }) ]) p
