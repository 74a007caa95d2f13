-- ===== src/Adb/Link.antt =====
-- The static state of src/mcu/adb.c, the types of src/mcu/adb.h, and the bulk transfers of the ADB
-- device. Handler functions are numbered; a call of one is recorded, and changes nothing else.
use microbridge.Base.{ℕ, Bool, List, Option, none, some}
use microbridge.Base.Run.{Cmd}
use microbridge.Shield.{Shield}
use microbridge.Usb.Device.{Device}
use microbridge.Usb.Host.{Host, set_device}
use microbridge.Usb.Output.{bulk_write}
use microbridge.Usb.Transfer.{Input, bulk_read}

pub data Status : Type 0 where
  unused : Status
  closed : Status
  opened : Status
  opening : Status
  receiving : Status
  writing : Status

pub data EventType : Type 0 where
  connect : EventType
  disconnect : EventType
  connection_open : EventType
  connection_close : EventType
  connection_failed : EventType
  connection_receive : EventType

pub record Connection : Type 0 where
  -- the characters, without the final zero
  pub connection_string : List ℕ
  pub local_id : ℕ
  pub remote_id : ℕ
  pub last_connection_attempt : ℕ
  pub data_size : ℕ
  pub data_read : ℕ
  pub status : Status
  pub reconnect : Bool
  -- `none` is NULL
  pub event_handler : Option ℕ

-- One call of a handler: the connection by its local id, or NULL.
pub record Call : Type 0 where
  pub handler : ℕ
  pub connection : Option ℕ
  pub event : EventType
  pub bytes : List ℕ

pub record Adb : Type 0 where
  pub host : Host
  -- adbDevice: an index of deviceTable, or NULL
  pub device : Option ℕ
  -- the list from firstConnection on
  pub connections : List Connection
  pub connected : Bool
  pub connection_local_id : ℕ
  pub event_handler : Option ℕ
  -- newest first
  pub calls : List Call

-- A command of the board, on the whole state.
unfoldable pub on_board : {A : Type 0} → Cmd Shield A → Cmd Adb A
on_board m a = elim (m a.host.shield) [
  | none ↦ none
  | some (r, s) ↦ some (r, record a { host = record (a.host) { shield = s } })
]

-- A transfer of the device with the given index, which is written back.
unfoldable pub transfer : {A : Type 0} → (Device → Cmd Shield (A × Device)) → ℕ → Cmd Adb A
transfer m i a = elim (m (a.host.table i) a.host.shield) [
  | none ↦ none
  | some ((r, d), s) ↦ some (r, record a { host = set_device (record (a.host) { shield = s }) i d })
]

-- A transfer of adbDevice. Through a NULL pointer there is none.
unfoldable pub adb_transfer : {A : Type 0} → (Device → Cmd Shield (A × Device)) → Cmd Adb A
unfolding transfer
adb_transfer m a = elim a.device [ none ↦ none | some i ↦ transfer m i a ]

unfoldable pub adb_read : (fuel : ℕ) → (length : ℕ) → (poll : Bool) → Cmd Adb Input
unfolding adb_transfer
adb_read fuel length poll = adb_transfer (λ d. bulk_read fuel d length poll)

unfoldable pub adb_bulk_write : (fuel : ℕ) → List ℕ → Cmd Adb ℕ
unfolding adb_transfer
adb_bulk_write fuel bytes = adb_transfer (λ d. bulk_write fuel d bytes)
