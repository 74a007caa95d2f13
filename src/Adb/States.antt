-- ===== src/Adb/States.antt =====
-- The state machine of a connection in src/mcu/adb.c.
use microbridge.Base.{
  ℕ, zero, suc, ◌≡◌, inl, inr, Bool, true, false, not, ◌&&◌, some, arith, ◌==◌, Option-cases, u16,
}
use microbridge.Adb.Link.{
  Status, unused, closed, opened, opening, receiving, writing, Connection, Adb,
}
use microbridge.Adb.Message.{Message}
use microbridge.Adb.Connection.{
  is, fire_event, open_closed, handle_okay, handle_close, handle_write, receive_packet,
  receive_loop,
}
use microbridge.Usb.Device.{Memory}
use microbridge.Adb.Poll.{dispatch}
use microbridge.Adb.Discovery.{Configuration}

-- The moves of the protocol: OPEN sent, OPEN accepted, WRTE sent, WRTE acknowledged, and the end of a
-- connection in use, which is closed if it is persistent and else never used again.
unfoldable pub may_move : (reconnect : Bool) → Status → Status → Bool
may_move r unused unused = true
may_move r unused _ = false
may_move r closed closed = true
may_move r closed opening = true
may_move r opening opening = true
may_move r opening opened = true
may_move r opened opened = true
may_move r opened writing = true
may_move r writing writing = true
may_move r writing opened = true
may_move r receiving receiving = true
may_move true _ closed = true
may_move false _ unused = true
may_move r _ _ = false

-- What an operation leaves alone: the connection is the same, and its state moves as allowed.
pub record Follows (c d : Connection) : Type 0 where
  pub string : d.connection_string ≡ c.connection_string
  pub id : d.local_id ≡ c.local_id
  pub reconnect : d.reconnect ≡ c.reconnect
  pub handler : d.event_handler ≡ c.event_handler
  pub status : may_move c.reconnect c.status d.status ≡ true

pub okay-Follows :
    (c d : Connection) (m : Message) (a b : Adb) → handle_okay c m a ≡ some (d, b) → Follows c d
unfolding handle_okay fire_event may_move
okay-Follows c d m a b h = ground arith

pub close-Follows :
    (c d : Connection) (a b : Adb)
    → is c.status unused ≡ false
    → handle_close c a ≡ some (d, b)
    → Follows c d
unfolding handle_close fire_event may_move
close-Follows c d a b u h = ground arith

pub open-Follows :
    (fuel : ℕ) (c d : Connection) (a b : Adb) → open_closed fuel c a ≡ some (d, b) → Follows c d
unfolding open_closed may_move
open-Follows fuel c d a b h = ground arith

packet-same :
    (fuel left : ℕ) (buf : Memory) (c : Connection) (a a' : Adb)
    → (x : Bool × ℕ × Memory × Connection) → receive_packet fuel left buf c a ≡ some (x, a')
    → x.3 ≡ record c { data_read = x.3.data_read }
unfolding receive_packet fire_event
packet-same fuel left buf c a a' x h = ground arith

-- A payload changes data_read only.
pub receive-same :
    (fuel rounds left : ℕ) (buf : Memory) (c d : Connection) (a b : Adb)
    → receive_loop fuel rounds left buf c a ≡ some (d, b)
    → d ≡ record c { data_read = d.data_read }
unfolding receive_loop
receive-same fuel zero left buf c d a b h = cc
receive-same fuel (suc rounds) left buf c d a b h =
    elim (Option-cases (receive_packet fuel left buf c a)) [
      | inl e ↦ ground arith
      | inr ((x, a'), e) ↦
          ground
            (arith, packet-same fuel left buf c a a' x, receive-same fuel rounds x.1 x.2 x.3 d a' b)
    ]

write-Follows :
    (fuel : ℕ) (c d : Connection) (m : Message) (a b : Adb)
    → handle_write fuel c m a ≡ some (d, b)
    → Follows c d
unfolding handle_write may_move
write-Follows fuel c d m a b h =
    let started = record c { status = receiving; data_read = 0; data_size = u16 m.data_length } in
    elim (Option-cases (receive_loop fuel fuel m.data_length a.host.stack started a)) [
      | inl e ↦ ground arith
      | inr ((c', a'), e) ↦
          ground (arith, receive-same fuel fuel m.data_length a.host.stack started c' a a')
    ]

module _ (fuel : ℕ) (handle : Configuration) (m : Message) where
  pub dispatch-Follows :
      (c d : Connection) (a b : Adb) → dispatch fuel handle m c a ≡ some (d, b) → Follows c d
  unfolding dispatch may_move
  dispatch-Follows c d a b h =
      ground (arith, okay-Follows c d m a b, close-Follows c d a b, write-Follows fuel c d m a b)

  -- A message does nothing to a connection that it is not for, or that is unused.
  pub dispatch_other :
      (c : Connection) (a : Adb)
      → (not (is c.status unused) && c.local_id == m.arg1) ≡ false
      → dispatch fuel handle m c a ≡ some (c, a)
  unfolding dispatch
  dispatch_other c a h = ground arith
