-- ===== src/Adb/Table.antt =====
-- The entries of deviceTable over the transfers, messages and events of src/mcu/adb.c.
pub mod Polling
use microbridge.Base.{
  ◌+◌, is_neg, equals, sub32, to_word, ℕ, zero, suc, ◌≡◌, refl, Bool, true, false, ◌==◌, ltb, u16,
  ◌&&◌, not, List, [], ◌∷◌, Option, none, some, arith, subst, sym, ℤ, pos, negsuc, if◌then◌else◌,
  Bool-cases, Option-cases, inl, inr,
}
use microbridge.Base.Run.{Cmd, pure, bind-inv, modify}
use microbridge.Base.Keeps.{
  IsKeeping, pure-IsKeeping, modify-IsKeeping, bind-IsKeeping, get-IsKeeping, stuck-IsKeeping,
  if_IsKeeping,
}
use microbridge.Shield.{Shield, delay, millis, print, read_mismatch}
use microbridge.Usb.Device.{
  Device, Memory, fill, bytes_from, EventType, connect, disconnect, addressing_error,
}
use microbridge.Usb.Host.{Host, set_device}
use microbridge.Usb.Poll.{usb_poll}
use microbridge.Usb.Poll.Table.{IsAddressed}
use microbridge.Usb.Control.Frames.{
  Same, bulk_read-Same, bulk_write-Same, get_configuration-Same, init_device-Same,
}
use microbridge.Adb.Link.{
  Connection, Adb, transfer, adb_transfer, on_board, adb_read, adb_bulk_write,
}
use microbridge.Adb.Link
use microbridge.Adb.Message.{
  Message, decode, write_empty_message, write_message, write_string_message, poll_message,
}
use microbridge.Adb.Connection.{
  packet_length, is_error, call_handler, fire_event, fire_global_event, visit, for_each,
  open_closed, handle_okay, handle_close, receive_packet, receive_loop, handle_write, close_if_open,
  close_all,
}
use microbridge.Adb.Discovery.{
  Configuration, is_adb_device, init_usb, scan, read_configuration, prepare, bulk_end_points,
}
use microbridge.Adb.Poll.{
  client, usb_event_handler, dispatch, handle_connect, handle_message, device_poll, adb_poll,
  is_device,
}

-- deviceTable of the program
abbrev pub Addressed : Adb → Type 0
Addressed a = IsAddressed a.host.table

replace-IsAddressed :
    (table : ℕ → Device) (i : ℕ) (e : Device)
    → Same (table i) e
    → IsAddressed table
    → IsAddressed (λ j. if j == i then e else table j)
unfolding IsAddressed
replace-IsAddressed table i e same p j n l = ground (arith, p j n l)

-- A command that leaves the table alone.
pub table-IsKeeping :
    {A : Type 0} {m : Cmd Adb A}
    → ((a b : Adb) (r : A) → m a ≡ some (r, b) → b.host.table ≡ a.host.table)
    → IsKeeping Addressed m
table-IsKeeping same = record { after = λ a b r e p. subst IsAddressed (sym (same a b r e)) p }

-- A transfer that keeps the address and the activity of its device.
pub transfer-IsKeeping :
    {A : Type 0} {m : Device → Cmd Shield (A × Device)}
    → ((d e : Device) (s t : Shield) (r : A) → m d s ≡ some ((r, e), t) → Same d e)
    → (i : ℕ) → IsKeeping Addressed (transfer m i)
unfolding transfer
transfer-IsKeeping {A} {m} same i = record {
  after = λ a b r p q. elim (Option-cases (m (a.host.table i) a.host.shield)) [
    | inl f ↦ ground arith
    | inr (((x, d), s), f) ↦
        subst IsAddressed (sym (table_after a b r x d s f p))
          (replace-IsAddressed a.host.table i d (same (a.host.table i) d a.host.shield s x f) q)
  ];
}
  where
    table_after :
        (a b : Adb) (r x : A) (d : Device) (s : Shield)
        → m (a.host.table i) a.host.shield ≡ some ((x, d), s)
        → transfer m i a ≡ some (r, b)
        → b.host.table ≡ (λ j. if j == i then d else a.host.table j)
    table_after a b r x d s f p = ground arith

adb_transfer-IsKeeping :
    {A : Type 0} {m : Device → Cmd Shield (A × Device)}
    → ((d e : Device) (s t : Shield) (r : A) → m d s ≡ some ((r, e), t) → Same d e)
    → IsKeeping Addressed (adb_transfer m)
unfolding adb_transfer
adb_transfer-IsKeeping {A} {m} same = record {
  after = λ a b r p q. elim (Option-cases a.device) [
    | inl f ↦ ground arith
    | inr (i, f) ↦ (transfer-IsKeeping same i).after a b r (ground arith) q
  ];
}

pub adb_read-IsKeeping :
    (fuel length : ℕ) (poll : Bool) → IsKeeping Addressed (adb_read fuel length poll)
unfolding adb_read
adb_read-IsKeeping fuel length poll =
    adb_transfer-IsKeeping λ d e s t r. bulk_read-Same fuel d e length poll s t r

pub adb_bulk_write-IsKeeping :
    (fuel : ℕ) (bytes : List ℕ) → IsKeeping Addressed (adb_bulk_write fuel bytes)
unfolding adb_bulk_write
adb_bulk_write-IsKeeping fuel bytes =
    adb_transfer-IsKeeping λ d e s t r. bulk_write-Same fuel d e bytes s t r

pub on_board-IsKeeping : {A : Type 0} (m : Cmd Shield A) → IsKeeping Addressed (on_board m)
unfolding on_board
on_board-IsKeeping m = table-IsKeeping λ a b r e. ground arith
