-- ===== src/Adb/Handshake.antt =====
-- The handshake of src/mcu/adb.c: what adb_poll sends to a device before a connection to it is up, and
-- what becomes of the answer.
use microbridge.Base.{
  ℕ, ◌+◌, ◌≤◌, ◌≡◌, Bool, true, false, List, [], ◌∷◌, ◌++◌, Option, none, some, ◌==◌, ltb,
  if◌then◌else◌, length,
}
use microbridge.Usb.Constants.{nak_limit, retry_limit}
use microbridge.Adb.Link.{Adb, Call, Connection, connect}
use microbridge.Adb.Message.{Message, a_cnxn}
use microbridge.Adb.Connection.{for_each}
use microbridge.Adb.Discovery.{Configuration}
use microbridge.Adb.Poll.{banner, dispatch, device_poll}

-- The host's banner, with its final zero.
abbrev pub greeting : List ℕ
greeting = banner ++ 0 ∷ []

-- The call of the program's handler, if it is set.
abbrev pub announced : Option ℕ → List ℕ → List Call
announced none bytes = []
announced (some h) bytes =
    record { handler = h; connection = none; event = connect; bytes = bytes } ∷ []

-- From `a` to `b` the device has been connected, and the program told so, with the bytes.
abbrev pub Connected : List ℕ → Adb → Adb → Type 0
Connected bytes a b =
    (b.connected ≡ true)
    × (b.device ≡ a.device)
    × (b.connections ≡ a.connections)
    × (b.calls ≡ announced a.event_handler bytes ++ a.calls)

-- The bytes of the banner of the device that are read.
abbrev pub banner_length : Message → ℕ
banner_length m = if ltb m.data_length 256 then m.data_length else 256

module _ (rounds fuel i : ℕ) (enough : rounds ≤ fuel) (tries : nak_limit + retry_limit ≤ fuel) where
  module _ (handle : Configuration) where
    -- A CNXN message connects; any other is handed to the connections that it is for.
    abbrev pub Answered : Adb → Adb → Message → Bool → Type 0
    Answered a c m true =
        (b : Adb) × (bytes : List ℕ) × (device_poll fuel handle a ≡ some (tt, b))
        × (length bytes ≡ banner_length m)
        × Connected bytes a b
    Answered a c m false = device_poll fuel handle a ≡ for_each (dispatch fuel handle m) c

    -- What a poll from `a` makes of the message that it has let in, in `c`.
    abbrev pub Outcome : Adb → Adb → Option Message → Type 0
    Outcome a c none = device_poll fuel handle a ≡ some (tt, c)
    Outcome a c (some m) = Answered a c m (m.command == a_cnxn)
