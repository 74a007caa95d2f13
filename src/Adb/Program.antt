-- ===== src/Adb/Program.antt =====
-- Programs over src/mcu/adb.c: adb_init, and then calls of adb_poll, adb_addConnection, adb_write and
-- adb_writeString in any order.
pub mod Frames
pub mod Life
pub mod Loops
pub mod Registry
use microbridge.Base.{ℕ, zero, suc, Bool, List, [], ◌∷◌, Option}
use microbridge.Base.Run.{Cmd, pure, ◌>>=◌, ◌>>◌, get, modify}
use microbridge.Adb.Link.{Connection, Adb}
use microbridge.Adb.Connection.{add_connection, write, write_string}
use microbridge.Adb.Discovery.{Configuration}
use microbridge.Adb.Poll.{adb_poll, adb_init}

-- A call on the connection at place `k` of the list, if there is one.
unfoldable pub at_place :
    (k : ℕ) → (Connection → Cmd Adb Connection) → List Connection → Cmd Adb (List Connection)
at_place k body [] = pure []
at_place zero body (c ∷ cs) = do c' ← body c; pure (c' ∷ cs)
at_place (suc k) body (c ∷ cs) = do cs' ← at_place k body cs; pure (c ∷ cs')

unfoldable pub for_place : (k : ℕ) → (Connection → Cmd Adb Connection) → Cmd Adb (Unit {0})
unfolding at_place
for_place k body = do
  a ← get
  cs ← at_place k body a.connections
  modify λ a. record a { connections = cs }

unfoldable pub written : (fuel : ℕ) → (bytes : List ℕ) → Connection → Cmd Adb Connection
written fuel bytes c = do (_, c') ← write fuel c bytes; pure c'

unfoldable pub written_string : (fuel : ℕ) → (str : List ℕ) → Connection → Cmd Adb Connection
written_string fuel str c = do (_, c') ← write_string fuel c str; pure c'

pub data Action : Type 0 where
  poll : Action
  add :
      (block : Option Connection) (copied : Bool) (string : List ℕ) (reconnect : Bool)
      (handler : Option ℕ)
      → Action
  send : (k : ℕ) (bytes : List ℕ) → Action
  send_string : (k : ℕ) (str : List ℕ) → Action

module _ (fuel : ℕ) (handle : Configuration) where
  unfoldable pub act : Action → Cmd Adb (Unit {0})
  unfolding for_place written written_string
  act poll = adb_poll fuel handle
  act (add block copied string reconnect handler) = do
    _ ← add_connection block copied string reconnect handler
    pure tt
  act (send k bytes) = for_place k (written fuel bytes)
  act (send_string k str) = for_place k (written_string fuel str)

  unfoldable pub run : List Action → Cmd Adb (Unit {0})
  unfolding act
  run [] = pure tt
  run (e ∷ es) = do act e; run es

  unfoldable pub session : List Action → Cmd Adb (Unit {0})
  unfolding run
  session es = do adb_init fuel handle; run es
