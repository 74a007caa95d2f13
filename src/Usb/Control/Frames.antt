-- ===== src/Usb/Control/Frames.antt =====
-- The transfers of src/mcu/max3421e/max3421e_usb.c and src/mcu/usb.c leave the address and the activity of the
-- device that they work on alone.
use microbridge.Base.{
  ℕ, ◌≡◌, arith, Bool, List, Option, none, some, ◌==◌, ℤ, Option-cases, inl, inr, if◌then◌else◌,
  true, false, bit_and, bit_or, ltb, u8, ◌*◌,
}
use microbridge.Base.Run.{bind-inv}
use microbridge.Shield.{Shield}
use microbridge.Usb.Device.{Device, Memory}
use microbridge.Usb.Transfer.{Input, bulk_read, dispatch_packet}
use microbridge.Usb.Constants.{nak_limit, descriptor_configuration, descriptor_string}
use microbridge.Max3421e.{write, write_multiple}
use microbridge.Max3421e.Constants.{reg_peraddr, reg_sudfifo, tok_setup}
use microbridge.Usb.Output.{bulk_write}
use microbridge.Usb.Control.{
  ctrl_data, data_stage, Request, control_request, transfer_request, get_configuration_descriptor,
  set_configuration, get_string, init_device, descriptor_request, setup_packet,
}

-- The device is where it was.
abbrev pub Same : (d e : Device) → Type 0
Same d e = (e.active ≡ d.active) × (e.address ≡ d.address)

pub bulk_read-Same :
    (fuel : ℕ) (d e : Device) (length : ℕ) (poll : Bool) (s t : Shield) (r : Input)
    → bulk_read fuel d length poll s ≡ some ((r, e), t)
    → Same d e
unfolding bulk_read
bulk_read-Same fuel d e length poll s t r p = ground arith

pub bulk_write-Same :
    (fuel : ℕ) (d e : Device) (bytes : List ℕ) (s t : Shield) (r : ℕ)
    → bulk_write fuel d bytes s ≡ some ((r, e), t)
    → Same d e
unfolding bulk_write
bulk_write-Same fuel d e bytes s t r p = ground arith

ctrl_data-Same :
    (fuel : ℕ) (d e : Device) (direction : Bool) (length : ℕ) (buf buf' : Memory) (s t : Shield)
    (r : ℕ)
    → ctrl_data fuel d direction length buf s ≡ some ((r, e, buf'), t)
    → Same d e
unfolding ctrl_data
ctrl_data-Same fuel d e direction length buf buf' s t r p = ground arith

data_stage-Same :
    (fuel : ℕ) (d e : Device) (direction : Bool) (length : ℕ) (buf buf' : Option Memory)
    (s t : Shield) (r : ℕ)
    → data_stage fuel d direction length buf s ≡ some ((r, e, buf'), t)
    → Same d e
unfolding data_stage
data_stage-Same fuel d e direction length none buf' s t k p = ground arith
data_stage-Same fuel d e direction length (some buf) buf' s t k p =
    let ((r, e1, buf1), s1, e2, p2) = bind-inv (ctrl_data fuel d direction length buf) _ s p in
    ground (arith, ctrl_data-Same fuel d e1 direction length buf buf1 s s1 r e2)

control_request-Same :
    (fuel : ℕ) (d e : Device) (q : Request) (buf buf' : Option Memory) (s t : Shield) (r : ℤ)
    → control_request fuel d q buf s ≡ some ((r, e, buf'), t)
    → Same d e
unfolding control_request
control_request-Same fuel d e q buf buf' s t r p =
    let (_, s1, e1, p1) = bind-inv (write reg_peraddr d.address) _ s p in
    let direction : Bool = if bit_and q.request_type 0x80 == 0 then false else true in
    let (_, s2, e2, p2) = bind-inv (write_multiple reg_sudfifo (setup_packet q)) _ s1 p1 in
    let (rcode, s3, e3, p3) =
      bind-inv (dispatch_packet fuel tok_setup d.control nak_limit) _ s2 p2 in
    elim (Option-cases (data_stage fuel d direction q.length buf s3)) [
      | inl q ↦ ground arith
      | inr (((k, d1, buf1), s4), f) ↦
          ground (arith, data_stage-Same fuel d d1 direction q.length buf buf1 s3 s4 k f)
    ]

transfer_request-Same :
    (fuel : ℕ) (d e : Device) (q : Request) (buf buf' : Memory) (s t : Shield) (r : ℤ)
    → transfer_request fuel d q buf s ≡ some ((r, e, buf'), t)
    → Same d e
unfolding transfer_request
transfer_request-Same fuel d e q buf buf' s t r p =
    let ((r1, e1, buf1), s1, e2, p2) = bind-inv (control_request fuel d q (some buf)) _ s p in
    ground (arith, control_request-Same fuel d e1 q (some buf) buf1 s s1 r1 e2)

-- The second requests of usb_getConfigurationDescriptor and of usb_getString.
abbrev configuration_request : (conf length : ℕ) → Memory → Request
configuration_request conf length buf =
    let n = bit_or (buf 3 * 256) (buf 2) in
    descriptor_request descriptor_configuration conf (if ltb n length then n else length) 0

abbrev string_request : (index language length size : ℕ) → Request
string_request index language length size =
    descriptor_request descriptor_string index (if ltb length size then u8 length else size)
      language

pub get_configuration-Same :
    (fuel : ℕ) (d e : Device) (conf length : ℕ) (buf buf' : Memory) (s t : Shield) (r : ℤ)
    → get_configuration_descriptor fuel d conf length buf s ≡ some ((r, e, buf'), t)
    → Same d e
unfolding get_configuration_descriptor
get_configuration-Same fuel d e conf length buf buf' s t r p =
    let ((r1, e1, buf1), s1, e2, p2) = bind-inv (transfer_request fuel d _ buf) _ s p in
    elim (Option-cases
      (transfer_request fuel e1 (configuration_request conf length buf1) buf1 s1)) [
        | inl q ↦ ground (arith, transfer_request-Same fuel d e1 _ buf buf1 s s1 r1 e2)
        | inr (((r3, e3, buf3), s3), f) ↦ ground (
          arith,
          transfer_request-Same fuel d e1 _ buf buf1 s s1 r1 e2,
          transfer_request-Same fuel e1 e3 _ buf1 buf3 s1 s3 r3 f,
        )
      ]

set_configuration-Same :
    (fuel : ℕ) (d e : Device) (conf : ℕ) (s t : Shield) (r : ℤ)
    → set_configuration fuel d conf s ≡ some ((r, e), t)
    → Same d e
unfolding set_configuration
set_configuration-Same fuel d e conf s t r p =
    let ((r1, e1, buf1), s1, e2, p2) = bind-inv (control_request fuel d _ none) _ s p in
    ground (arith, control_request-Same fuel d e1 _ none buf1 s s1 r1 e2)

get_string-Same :
    (fuel : ℕ) (d e : Device) (index language length : ℕ) (buf buf' : Memory) (s t : Shield) (r : ℤ)
    → get_string fuel d index language length buf s ≡ some ((r, e, buf'), t)
    → Same d e
unfolding get_string
get_string-Same fuel d e index language length buf buf' s t r p =
    let ((r1, e1, buf1), s1, e2, p2) = bind-inv (transfer_request fuel d _ _) _ s p in
    elim (Option-cases
      (transfer_request fuel e1 (string_request index language length (buf1 0)) buf s1)) [
        | inl q ↦ ground (arith, transfer_request-Same fuel d e1 _ _ buf1 s s1 r1 e2)
        | inr (((r3, e3, buf3), s3), f) ↦ ground (
          arith,
          transfer_request-Same fuel d e1 _ _ buf1 s s1 r1 e2,
          transfer_request-Same fuel e1 e3 _ buf buf3 s1 s3 r3 f,
        )
      ]

pub init_device-Same :
    (fuel : ℕ) (d e : Device) (conf : ℕ) (buf : Memory) (s t : Shield) (r : ℕ)
    → init_device fuel d conf buf s ≡ some ((r, e), t)
    → Same d e
unfolding init_device
init_device-Same fuel d e conf buf s t r p =
    let ((r1, e1), s1, e2, p2) = bind-inv (set_configuration fuel d conf) _ s p in
    let ((r3, e3, buf3), s3, e4, p4) = bind-inv (get_string fuel e1 0 0 4 buf) _ s1 p2 in
    ground (
      arith,
      set_configuration-Same fuel d e1 conf s s1 r1 e2,
      get_string-Same fuel e1 e3 0 0 4 buf buf3 s1 s3 r3 e4,
    )
