-- ===== src/Adb/Table/Polling.antt =====
-- The entries of deviceTable over programs that use src/mcu/adb.c.
use microbridge.Base.{
  ℕ, ℤ, ◌≡◌, refl, Bool, List, Option, some, arith, Option-cases, inl, inr, subst, sym,
}
use microbridge.Base.Run.{modify, bind-inv}
use microbridge.Base.Keeps.{IsKeeping, modify-IsKeeping}
use microbridge.Shield.{Shield, delay, millis, print}
use microbridge.Usb.Device.{Device, Memory}
use microbridge.Adb.Link.{Connection, Adb}
use microbridge.Adb.Connection.{open_closed, close_if_open, add_connection}
use microbridge.Adb.Discovery.{Configuration, scan, read_configuration, prepare, bulk_end_points}
use microbridge.Adb.Poll.{client, dispatch, adb_init}
use microbridge.Adb.Keeping.{
  Calm, open_closed-IsKeeping, dispatch-IsKeeping, close_if_open-IsKeeping, written-IsKeeping,
  written_string-IsKeeping,
}
use microbridge.Usb.Control.{get_configuration_descriptor, init_device}
use microbridge.Usb.Control.Frames.{Same, get_configuration-Same, init_device-Same}
use microbridge.Usb.Host.{Host, init}
use microbridge.Usb.Poll.{on_host}
use microbridge.Usb.Poll.Table.{IsAddressed, init-IsAddressed}
use microbridge.Usb.Poll.Table.Polling.{IsOrderly, table-Steps}
use microbridge.Adb.Program.{Action, run, session, written, written_string}
use microbridge.Adb.Keeping.Lists.{for_each-IsKeeping, for_place-IsKeeping}
use microbridge.Adb.Keeping.Polling.{Parts, handler-IsKeeping, run-IsKeeping}
use microbridge.Adb.Table.{
  Addressed, table-IsKeeping, transfer-IsKeeping, adb_read-IsKeeping, adb_bulk_write-IsKeeping,
  on_board-IsKeeping,
}

scan-IsKeeping :
    (rounds n : ℕ) (buf : Memory) (handle : Configuration)
    → IsKeeping Addressed (scan rounds buf n handle)
unfolding scan
scan-IsKeeping rounds n buf handle = table-IsKeeping λ a b r e. ground arith

read-Same :
    (fuel conf : ℕ) (stack : Memory) (d e : Device) (s t : Shield) (r : ℤ × Memory)
    → read_configuration fuel conf stack d s ≡ some ((r, e), t)
    → Same d e
unfolding read_configuration
read-Same fuel conf stack d e s t r p =
    let ((n, d1, buf), s1, e1, p1) =
      bind-inv (get_configuration_descriptor fuel d conf 256 stack) _ s p in
    ground (arith, get_configuration-Same fuel d d1 conf 256 stack buf s s1 n e1)

prepare-Same :
    (fuel : ℕ) (handle : Configuration) (stack : Memory) (d e : Device) (s t : Shield) (r : ℕ)
    → prepare fuel handle stack d s ≡ some ((r, e), t)
    → Same d e
unfolding prepare bulk_end_points
prepare-Same fuel handle stack d e s t r p =
    let ((n, d1), s1, e1, p1) = bind-inv (init_device fuel d handle.configuration stack) _ s p in
    ground (arith, init_device-Same fuel d d1 handle.configuration stack s s1 n e1)

table-Calm : Calm Addressed
table-Calm = record {
  read = adb_read-IsKeeping;
  bulk_write = adb_bulk_write-IsKeeping;
  clock = on_board-IsKeeping millis;
  wait = λ fuel ms. on_board-IsKeeping (delay fuel ms);
  notice = λ n. on_board-IsKeeping (print n);
  call = λ c. modify-IsKeeping λ a p. p;
  greeted = modify-IsKeeping λ a p. p;
}

replaced : (cs : List Connection) → IsKeeping Addressed (modify λ a. record a { connections = cs })
replaced cs = modify-IsKeeping λ a p. p

table-Parts : (fuel : ℕ) (handle : Configuration) → Parts fuel handle Addressed
table-Parts fuel handle = record {
  calm = table-Calm;
  configuration = λ conf i stack. transfer-IsKeeping (read-Same fuel conf stack) i;
  scanned = λ n buf. scan-IsKeeping fuel n buf handle;
  preparation = λ i found stack. transfer-IsKeeping (prepare-Same fuel found stack) i;
  chosen = λ i. modify-IsKeeping λ a p. p;
  dropped = modify-IsKeeping λ a p. p;
  closing =
      for_each-IsKeeping Addressed replaced close_if_open
        (close_if_open-IsKeeping Addressed table-Calm);
  opening =
      for_each-IsKeeping Addressed replaced (open_closed fuel)
        (open_closed-IsKeeping Addressed table-Calm fuel);
  dispatching = λ m.
      for_each-IsKeeping Addressed replaced (dispatch fuel handle m)
        (dispatch-IsKeeping Addressed table-Calm fuel handle m);
}

client-IsOrderly : (fuel : ℕ) (handle : Configuration) → IsOrderly (client fuel handle)
client-IsOrderly fuel handle = record {
  host-with_host = λ s h. refl;
  keeps = handler-IsKeeping fuel handle Addressed (table-Parts fuel handle);
}

add-IsKeeping :
    (block : Option Connection) (copied : Bool) (string : List ℕ) (reconnect : Bool) (h : Option ℕ)
    → IsKeeping Addressed (add_connection block copied string reconnect h)
unfolding add_connection
add-IsKeeping block copied string reconnect h = table-IsKeeping λ a b r e. ground arith

program-IsKeeping :
    (fuel : ℕ) (handle : Configuration) (es : List Action)
    → IsKeeping Addressed (run fuel handle es)
program-IsKeeping fuel handle =
    run-IsKeeping fuel handle Addressed (table-Parts fuel handle)
      (table-Steps (client fuel handle) (client-IsOrderly fuel handle)) add-IsKeeping
      (λ k bytes.
        for_place-IsKeeping Addressed replaced k (written fuel bytes)
          (written-IsKeeping Addressed table-Calm fuel bytes))
      λ k str.
        for_place-IsKeeping Addressed replaced k (written_string fuel str)
          (written_string-IsKeeping Addressed table-Calm fuel str)

host_after :
    (fuel : ℕ) (handle : Configuration) (a b : Adb) (h : Host)
    → init fuel a.host ≡ some (tt, h)
    → adb_init fuel handle a ≡ some (tt, b)
    → b.host.table ≡ h.table
unfolding adb_init on_host
host_after fuel handle a b h e p = ground arith

adb_init-IsAddressed :
    (fuel : ℕ) (handle : Configuration) (a b : Adb)
    → adb_init fuel handle a ≡ some (tt, b)
    → Addressed b
unfolding adb_init on_host
adb_init-IsAddressed fuel handle a b p = elim (Option-cases (init fuel a.host)) [
  | inl e ↦ ground arith
  | inr ((_, h), e) ↦
      subst IsAddressed (sym (host_after fuel handle a b h e p)) (init-IsAddressed fuel a.host h e)
]

-- Whatever the chip and the device answer, and whatever calls of the event handler the polls make: after
-- adb_init and any calls of adb_poll, adb_addConnection, adb_write and adb_writeString, in any order,
-- that all return, every entry of the device table but entry 0 that is active holds its own index as
-- its address.
pub session-IsAddressed :
    (fuel : ℕ) (handle : Configuration) (es : List Action) (a b : Adb)
    → session fuel handle es a ≡ some (tt, b)
    → IsAddressed b.host.table
unfolding session
session-IsAddressed fuel handle es a b p =
    let (_, s, e, q) = bind-inv (adb_init fuel handle) _ a p in
    (program-IsKeeping fuel handle es).after s b tt q (adb_init-IsAddressed fuel handle a s e)
