-- ===== src/Adb/Flow.antt =====
-- Writing to a connection: adb_write and adb_writeString of src/mcu/adb.c, and the OKAY that makes the
-- connection writable again.
use microbridge.Base.{
  Option, ℕ, ◌≡◌, refl, Bool, false, ◌==◌, not, ◌&&◌, ◌||◌, List, some, arith, pos, negsuc,
  if◌then◌else◌,
}
use microbridge.Adb.Teardown.{told}
use microbridge.Adb.Link.{
  opened, writing, opening, Call, connection_open, Connection, Adb, adb_bulk_write,
}
use microbridge.Adb.Message.{Message, write_message, a_okay}
use microbridge.Adb.Connection.{
  is, is_null, write, write_string, handle_okay, handle_close, handle_write, open_closed,
  close_if_open, fire_event,
}
use microbridge.Adb.Discovery.{Configuration}
use microbridge.Adb.Poll.{dispatch}
use microbridge.Adb.History.{Step, received, retried, dropped, wrote, wrote_string}

pub bulk_write-frame :
    (fuel : ℕ) (bytes : List ℕ) (r : ℕ) (a b : Adb)
    → adb_bulk_write fuel bytes a ≡ some (r, b)
    → b ≡ record a { host = b.host }
unfolding adb_bulk_write
bulk_write-frame fuel bytes r a b h = ground arith

message-frame :
    (fuel command arg0 arg1 : ℕ) (payload : List ℕ) (r : ℕ) (a b : Adb)
    → write_message fuel command arg0 arg1 payload a ≡ some (r, b)
    → b ≡ record a { host = b.host }
unfolding write_message adb_bulk_write
message-frame fuel command arg0 arg1 payload r a b h = ground arith

-- The connection can take a payload now.
abbrev pub is_writable : Connection → Adb → Bool
is_writable c a = not (is_null a.device) && a.connected && is c.status opened

-- A refused write changes nothing and sends nothing: the result is -1 without a connected device, and
-- -2 if the connection is not open.
write_refused :
    (fuel : ℕ) (c : Connection) (bytes : List ℕ) (a : Adb)
    → is_writable c a ≡ false
    → let refusal = if is_null a.device || not a.connected then negsuc 0 else negsuc 1 in
      (write fuel c bytes a ≡ some ((refusal, c), a))
      × (write_string fuel c bytes a ≡ some ((refusal, c), a))
unfolding write write_string
write_refused fuel c bytes a h = (ground arith, ground arith)

-- The calls that tell of a connection that is open: the global handler's, then its own.
abbrev pub open_calls : Option ℕ → Connection → List Call → List Call
open_calls global c calls =
    told c.event_handler c connection_open (told global c connection_open calls)

-- The connection after an OKAY for it: one that was writing or being opened is open.
abbrev pub okayed : Connection → Message → Connection
okayed c m = record c {
  status = if is c.status writing || is c.status opening then opened else c.status;
  remote_id = if is c.status opening then m.arg0 else c.remote_id;
}

-- A payload that is taken in leaves the state as it was.
handle_write-same :
    (fuel : ℕ) (c d : Connection) (m : Message) (a b : Adb)
    → handle_write fuel c m a ≡ some (d, b)
    → d.status ≡ c.status
unfolding handle_write
handle_write-same fuel c d m a b h = ground arith

write-Busy :
    (fuel : ℕ) (c d : Connection) (xs : List ℕ) (a b : Adb)
    → write fuel c xs a ≡ some ((pos 0, d), b)
    → is d.status opened ≡ false
unfolding write
write-Busy fuel c d xs a b h = ground arith

module _ (fuel : ℕ) (handle : Configuration) where
  -- A step in which no OKAY for the connection comes in.
  abbrev pub IsQuiet : {d e : Connection} → Step fuel handle d e → Type 0
  IsQuiet {d} {e} (received m a b h) = (m.command == a_okay && m.arg1 == d.local_id) ≡ false
  IsQuiet {d} {e} (retried a b h) = Unit {0}
  IsQuiet {d} {e} (dropped a b h) = Unit {0}
  IsQuiet {d} {e} (wrote bytes r a b h) = Unit {0}
  IsQuiet {d} {e} (wrote_string str r a b h) = Unit {0}

  -- The histories of such steps.
  pub data Waiting (c : Connection) : Connection → Type 0 where
    sent : Waiting c c
    goes_on :
        {d e : Connection} → Waiting c d → (s : Step fuel handle d e) → IsQuiet s → Waiting c e

  abbrev Busy : Connection → Type 0
  Busy c = is c.status opened ≡ false

  dispatch-Busy :
      (m : Message) (d e : Connection) (a b : Adb)
      → (m.command == a_okay && m.arg1 == d.local_id) ≡ false
      → dispatch fuel handle m d a ≡ some (e, b)
      → Busy d
      → Busy e
  unfolding dispatch handle_close fire_event
  dispatch-Busy m d e a b quiet h busy = ground (arith, handle_write-same fuel d e m a b)

  Step-Busy : {d e : Connection} (s : Step fuel handle d e) → IsQuiet s → Busy d → Busy e
  unfolding open_closed close_if_open handle_close fire_event write write_string
  Step-Busy {d} {e} (received m a b h) quiet busy = dispatch-Busy m d e a b quiet h busy
  Step-Busy {d} {e} (retried a b h) quiet busy = ground arith
  Step-Busy {d} {e} (dropped a b h) quiet busy = ground arith
  Step-Busy {d} {e} (wrote bytes r a b h) quiet busy = ground arith
  Step-Busy {d} {e} (wrote_string str r a b h) quiet busy = ground arith

  Waiting-Busy : {c d : Connection} → Waiting c d → Busy c → Busy d
  Waiting-Busy sent busy = busy
  Waiting-Busy (goes_on past step quiet) busy = Step-Busy step quiet (Waiting-Busy past busy)

  dispatch-okayed :
      (m : Message) (e : Connection) (x : Adb)
      → m.command ≡ a_okay
      → m.arg1 ≡ e.local_id
      → (y : Adb) × (dispatch fuel handle m e x ≡ some (okayed e m, y))
        × (y ≡ (
            if is e.status opening
            then record x { calls = open_calls x.event_handler e x.calls }
            else x))
  unfolding dispatch handle_okay fire_event
  dispatch-okayed m e x okay own = (
    if is e.status opening then record x { calls = open_calls x.event_handler e x.calls } else x,
    ground arith,
    refl,
  )

  -- After a payload has gone out, adb_write and adb_writeString refuse every other one, and change nothing,
  -- as long as no OKAY for the connection has come in, whatever else has: messages (OKAYs for other
  -- connections among them), retries, disconnections and writes. An OKAY for it then makes the connection
  -- writable again if it is still writing, and changes nothing else in that case; it opens one that has
  -- been closed and is being opened again, and does nothing to any other.
  pub write-write :
      (c d e : Connection) (xs ys : List ℕ) (a b x : Adb) (m : Message)
      → write fuel c xs a ≡ some ((pos 0, d), b)
      → Waiting d e
      → m.command ≡ a_okay
      → m.arg1 ≡ e.local_id
      → let refusal = if is_null x.device || not x.connected then negsuc 0 else negsuc 1 in
        (write fuel e ys x ≡ some ((refusal, e), x))
        × (write_string fuel e ys x ≡ some ((refusal, e), x))
        × ((y : Adb) × (dispatch fuel handle m e x ≡ some (okayed e m, y))
            × (y ≡ (
                if is e.status opening
                then record x { calls = open_calls x.event_handler e x.calls }
                else x)))
  unfolding write write_string
  write-write c d e xs ys a b x m h waiting okay own =
      let busy = Waiting-Busy waiting (write-Busy fuel c d xs a b h) in
      (ground (arith, busy), ground (arith, busy), dispatch-okayed m e x okay own)
