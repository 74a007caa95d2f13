-- ===== src/Usb/Control/Errors.antt =====
-- Error results of the control requests (src/mcu/max3421e/max3421e_usb.c).
use microbridge.Base.{
  ℕ, ◌<◌, ◌≤◌, ◌≡◌, ◌⊎◌, Option, some, arith, ℤ, pos, negsuc, Bool, true, false, ◌==◌, refl,
  if◌then◌else◌, bit_and, ◌∙◌,
}
use microbridge.Base.Run.{Cmd, pure, ◌>>=◌, ◌>>◌, bind-inv, bind-at}
use microbridge.Shield.{Shield}
use microbridge.Max3421e.{write, write_multiple}
use microbridge.Max3421e.Constants.{reg_sudfifo, reg_peraddr, tok_setup, tok_inhs, tok_ouths}
use microbridge.Usb.Constants.{nak_limit}
use microbridge.Usb.Transfer.{dispatch_packet}
use microbridge.Usb.Device.{Device, Memory}
use microbridge.Usb.Control.{
  Request, control_request, get_configuration_descriptor, data_stage, setup_packet, promoted,
}

-- The direction bit of a request: the data come in.
abbrev is_in : Request → Bool
is_in r = if bit_and r.request_type 0x80 == 0 then false else true

abbrev token : Request → ℕ
token r = if is_in r then tok_ouths else tok_inhs

-- The data stage, with any result, and then the status stage, whose result decides.
pub Staged :
    (fuel : ℕ) (device d : Device) (r : Request) (buffer b : Option Memory) (code : ℤ)
    (s t : Shield)
    → Type 0
Staged fuel device d r buffer b code s t =
    (result : ℕ) × (u : Shield) × (data_stage fuel device (is_in r) r.length buffer s
      ≡ some ((result, d, b), u))
    × ((status : ℕ) × (dispatch_packet fuel (token r) d.control nak_limit u ≡ some (status, t))
        × (code ≡ (if status == 0 then pos 0 else negsuc 2)))

-- What a request does behind a SETUP packet that has ended with q, and its result: nothing and -1, if that
-- is a failure; else the two stages.
pub Concluded :
    (fuel q : ℕ) (device d : Device) (r : Request) (buffer b : Option Memory) (code : ℤ)
    (s t : Shield)
    → Type 0
Concluded fuel q device d r buffer b code s t =
    if q == 0
    then Staged fuel device d r buffer b code s t
    else (code ≡ negsuc 0) × (d ≡ device) × (b ≡ buffer) × (t ≡ s)

-- The end of a request with the status of its last stage.
abbrev closing : (fine : Bool) → Device → Option Memory → Cmd Shield (ℤ × Device × Option Memory)
closing fine d b = if fine then pure (pos 0, d, b) else pure (negsuc 2, d, b)

abbrev stages :
    (fuel : ℕ) → Device → Request → Option Memory → Cmd Shield (ℤ × Device × Option Memory)
stages fuel device r buffer = do
  (result, d, b) ← data_stage fuel device (is_in r) r.length buffer
  status ← dispatch_packet fuel (token r) d.control nak_limit
  closing (status == 0) d b

stages-Staged :
    (fuel : ℕ) (device d : Device) (r : Request) (buffer b : Option Memory) (code : ℤ)
    (s t : Shield)
    → stages fuel device r buffer s ≡ some ((code, d, b), t)
    → Staged fuel device d r buffer b code s t
unfolding Staged
stages-Staged fuel device d r buffer b code s t h =
    let ((result, d1, b1), u, e1, p1) =
      bind-inv (data_stage fuel device (is_in r) r.length buffer) _ s h in
    let (status, v, e2, p2) =
      bind-inv (dispatch_packet fuel (token r) d1.control nak_limit) _ u p1 in
    finish result status d1 b1 u v e1 e2 (status == 0) refl p2
  where
    finish :
        (result status : ℕ) (d1 : Device) (b1 : Option Memory) (u v : Shield)
        → data_stage fuel device (is_in r) r.length buffer s ≡ some ((result, d1, b1), u)
        → dispatch_packet fuel (token r) d1.control nak_limit u ≡ some (status, v)
        → (c : Bool) → (status == 0) ≡ c
        → closing c d1 b1 v ≡ some ((code, d, b), t)
        → Staged fuel device d r buffer b code s t
    finish result status d1 b1 u v e1 e2 true good h =
        (result, u, ground arith, (status, ground arith, ground arith))
    finish result status d1 b1 u v e1 e2 false failed h =
        (result, u, ground arith, (status, ground arith, ground arith))

-- The setup packet goes into its FIFO, and then to the device.
abbrev pub set_up : (fuel : ℕ) (device : Device) (r : Request) → Cmd Shield ℕ
set_up fuel device r =
    write reg_peraddr device.address
    >> (write_multiple reg_sudfifo (setup_packet r)
        >> dispatch_packet fuel tok_setup device.control nak_limit)

-- A control request that comes back ends with 0, -1 (no SETUP) or -3 (no status): never with -2, which
-- would report a failed data stage. It has put the setup packet into the FIFO and sent it, has stopped
-- there if that failed, and else has gone through the data stage and on to the status stage, whatever came
-- of the data stage; with 0 exactly if the status stage has succeeded.
pub control_request-result :
    (fuel : ℕ) (device d : Device) (r : Request) (buffer b : Option Memory) (code : ℤ)
    (s t : Shield)
    → control_request fuel device r buffer s ≡ some ((code, d, b), t)
    → ((code ≡ pos 0) ⊎ (code ≡ negsuc 0) ⊎ (code ≡ negsuc 2))
      × ((q : ℕ) × (u : Shield) × (set_up fuel device r s ≡ some (q, u))
          × Concluded fuel q device d r buffer b code u t)
unfolding control_request promoted Concluded
control_request-result fuel device d r buffer b code s t h =
    let sent = dispatch_packet fuel tok_setup device.control nak_limit in
    let (_, s1, e1, p1) = bind-inv (write reg_peraddr device.address) _ s h in
    let (_, s2, e2, p2) = bind-inv (write_multiple reg_sudfifo (setup_packet r)) _ s1 p1 in
    let (q, u, e3, p3) = bind-inv sent _ s2 p2 in
    (
      ground arith,
      (
        q,
        u,
        bind-at (write reg_peraddr device.address)
              (λ _. write_multiple reg_sudfifo (setup_packet r) >> sent) s e1
            ∙ bind-at (write_multiple reg_sudfifo (setup_packet r)) (λ _. sent) s1 e2
            ∙ e3,
        decide (q == 0) q u refl p3,
      ),
    )
  where
    decide :
        (c : Bool) (q : ℕ) (u : Shield)
        → (q == 0) ≡ c
        → (if c then stages fuel device r buffer else pure (negsuc 0, device, buffer)) u
          ≡ some ((code, d, b), t)
        → Concluded fuel q device d r buffer b code u t
    decide true q u good h = rw good (stages-Staged fuel device d r buffer b code u t h)
    decide false q u bad h = rw bad (ground arith, ground arith, ground arith, ground arith)

-- Reading the configuration into a buffer of less than 0x8000 bytes, where it comes back, ends with -1, -2 or
-- a count of at most the length of the buffer.
get_configuration_descriptor-le :
    (fuel conf size : ℕ) (device d : Device) (buffer b : Memory) (code : ℤ) (s t : Shield)
    → size < 0x8000
    → get_configuration_descriptor fuel device conf size buffer s ≡ some ((code, d, b), t)
    → (code ≡ negsuc 0) ⊎ (code ≡ negsuc 1) ⊎ ((n : ℕ) × (code ≡ pos n) × (n ≤ size))
unfolding get_configuration_descriptor
get_configuration_descriptor-le fuel conf size device d buffer b code s t small h = ground arith
