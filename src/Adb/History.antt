-- ===== src/Adb/History.antt =====
-- Histories of one connection: the messages, retries, disconnections and writes of src/mcu/adb.c in any
-- order.
use microbridge.Base.{ℕ, ◌≡◌, false, not, ◌&&◌, List, some, arith, ℤ}
use microbridge.Adb.Link.{unused, Connection, Adb}
use microbridge.Adb.Message.{Message}
use microbridge.Adb.Connection.{is, open_closed, close_if_open, write, write_string}
use microbridge.Adb.Discovery.{Configuration}
use microbridge.Adb.Poll.{dispatch}
use microbridge.Adb.States.{Follows, may_move, close-Follows, open-Follows, dispatch-Follows}

module _ (fuel : ℕ) (handle : Configuration) where
  -- One operation on the connection, from any state of the rest.
  pub data Step (c d : Connection) : Type 0 where
    received : (m : Message) (a b : Adb) → dispatch fuel handle m c a ≡ some (d, b) → Step c d
    retried : (a b : Adb) → open_closed fuel c a ≡ some (d, b) → Step c d
    dropped : (a b : Adb) → close_if_open c a ≡ some (d, b) → Step c d
    wrote :
        (bytes : List ℕ) (r : ℤ) (a b : Adb) → write fuel c bytes a ≡ some ((r, d), b) → Step c d
    wrote_string :
        (str : List ℕ) (r : ℤ) (a b : Adb) → write_string fuel c str a ≡ some ((r, d), b) → Step c d

  pub data History (c : Connection) : Connection → Type 0 where
    start : History c c
    then_step : {d e : Connection} → History c d → Step d e → History c e

  dropped-Follows : (c d : Connection) (a b : Adb) → close_if_open c a ≡ some (d, b) → Follows c d
  unfolding close_if_open may_move
  dropped-Follows c d a b h = ground (arith, close-Follows c d a b)

  wrote-Follows :
      (c d : Connection) (bytes : List ℕ) (r : ℤ) (a b : Adb)
      → write fuel c bytes a ≡ some ((r, d), b)
      → Follows c d
  unfolding write may_move
  wrote-Follows c d bytes r a b h = ground arith

  wrote_string-Follows :
      (c d : Connection) (str : List ℕ) (r : ℤ) (a b : Adb)
      → write_string fuel c str a ≡ some ((r, d), b)
      → Follows c d
  unfolding write_string may_move
  wrote_string-Follows c d str r a b h = ground arith

  -- Every operation on a connection keeps its string, id, reconnect flag and handler, and makes a move
  -- of the protocol or none.
  pub Step-Follows : {c d : Connection} → Step c d → Follows c d
  Step-Follows {c} {d} (received m a b h) = dispatch-Follows fuel handle m c d a b h
  Step-Follows {c} {d} (retried a b h) = open-Follows fuel c d a b h
  Step-Follows {c} {d} (dropped a b h) = dropped-Follows c d a b h
  Step-Follows {c} {d} (wrote bytes r a b h) = wrote-Follows c d bytes r a b h
  Step-Follows {c} {d} (wrote_string str r a b h) = wrote_string-Follows c d str r a b h

  -- What the life of a connection cannot change.
  pub record Lives (c d : Connection) : Type 0 where
    pub string : d.connection_string ≡ c.connection_string
    pub id : d.local_id ≡ c.local_id
    pub reconnect : d.reconnect ≡ c.reconnect
    pub retired : (is c.status unused && not (is d.status unused)) ≡ false
    pub persistent : (c.reconnect && not (is c.status unused) && is d.status unused) ≡ false

  Lives-Follows : (c d e : Connection) → Lives c d → Follows d e → Lives c e
  unfolding may_move
  Lives-Follows c d e l f = ground arith

  Lives-start : (c : Connection) → Lives c c
  Lives-start c = ground arith

  -- In every history a connection keeps its string, id and reconnect flag; one that is unused stays
  -- unused, and a persistent one in use never becomes unused.
  pub History-Lives : {c d : Connection} → History c d → Lives c d
  History-Lives {c} start = Lives-start c
  History-Lives {c} (then_step {d} {e} past step) =
      Lives-Follows c d e (History-Lives past) (Step-Follows step)
