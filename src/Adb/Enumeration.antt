-- ===== src/Adb/Enumeration.antt =====
-- The USB event handler of src/mcu/adb.c and the task state of the USB host that calls it.
use microbridge.Base.{ℕ, ◌≡◌, refl, Bool, some, arith, Bool-cases, inl, inr}
use microbridge.Base.Run.{Cmd, bind-inv}
use microbridge.Shield.{Shield}
use microbridge.Usb.Device.{Device, EventType, connect, disconnect, addressing_error}
use microbridge.Usb.Poll.States.{IsCalm}
use microbridge.Adb.Link.{Adb, transfer}
use microbridge.Adb.Discovery.{
  Configuration, is_adb_device, init_usb, scan, read_configuration, prepare,
}
use microbridge.Adb.Poll.{client, usb_event_handler, is_device}
use microbridge.Adb.Teardown.{disconnect_teardown}

abbrev Same : Adb → Adb → Type 0
Same a b = b.host.task_state ≡ a.host.task_state

transfer-Same :
    {A : Type 0} (m : Device → Cmd Shield (A × Device)) (i : ℕ) (a b : Adb) (r : A)
    → transfer m i a ≡ some (r, b)
    → Same a b
unfolding transfer
transfer-Same m i a b r p = ground arith

scan-Same :
    (rounds n : ℕ) (buf : ℕ → ℕ) (handle : Configuration) (a b : Adb) (r : Bool × Configuration)
    → scan rounds buf n handle a ≡ some (r, b)
    → Same a b
unfolding scan
scan-Same rounds n buf handle a b r p = ground arith

is_adb_device-Same :
    (fuel i conf : ℕ) (handle : Configuration) (a b : Adb) (r : Bool × Configuration)
    → is_adb_device fuel i conf handle a ≡ some (r, b)
    → Same a b
unfolding is_adb_device
is_adb_device-Same fuel i conf handle a b r p =
    let ((n, buf), s2, e2, p2) =
      bind-inv (transfer (read_configuration fuel conf a.host.stack) i) _ a p in
    ground (
      arith,
      transfer-Same (read_configuration fuel conf a.host.stack) i a s2 (n, buf) e2,
      (λ (k : ℕ). scan-Same fuel k buf handle s2 b r),
    )

init_usb-Same :
    (fuel i : ℕ) (handle : Configuration) (a b : Adb)
    → init_usb fuel i handle a ≡ some (tt, b)
    → Same a b
unfolding init_usb
init_usb-Same fuel i handle a b p =
    let (r, s2, e2, p2) = bind-inv (transfer (prepare fuel handle a.host.stack) i) _ a p in
    ground (arith, transfer-Same (prepare fuel handle a.host.stack) i a s2 r e2)

handler-Same :
    (fuel : ℕ) (handle : Configuration) (i : ℕ) (e : EventType) (a b : Adb)
    → usb_event_handler fuel handle i e a ≡ some (tt, b)
    → Same a b
unfolding usb_event_handler
handler-Same fuel handle i connect a b p =
    let ((adb, found), s1, e1, p1) = bind-inv (is_adb_device fuel i 0 handle) _ a p in
    ground (arith, is_adb_device-Same fuel i 0 handle a s1 _ e1, init_usb-Same fuel i found s1 b)
handler-Same fuel handle i disconnect a b p = elim (Bool-cases (is_device i a.device)) [
  | inl d ↦ ground (arith, disconnect_teardown fuel i handle a d)
  | inr d ↦ ground arith
]
handler-Same fuel handle i addressing_error a b p = ground arith

pub client-IsCalm : (fuel : ℕ) (handle : Configuration) → IsCalm (client fuel handle)
client-IsCalm fuel handle = record { host-with_host = λ s h. refl; same = handler-Same fuel handle }
