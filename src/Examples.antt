-- ===== src/Examples.antt =====
-- The theorems about src/mcu at concrete boards, devices and connections.
mod Protocol
mod Receiving
mod Sending
mod Board
mod Handshake
mod Lists
mod Usb
mod Arduino
mod Progress
mod Returning
mod Table
use microbridge.Base.{ℕ, List, [], ◌∷◌, Option, none, some, true}
use microbridge.Shield.{Shield}
use microbridge.Usb.Constants.{attached_settle}
use microbridge.Usb.Device.{Endpoint, Device}
use microbridge.Usb.Host.{Host}
use microbridge.Adb.Link.{Status, Connection, Adb}
use microbridge.Adb.Message.{Message, a_okay}
use microbridge.Adb.Discovery.{Configuration}

-- A board of which the chip sends the bytes `replies` and the clock shows `clock`.
abbrev pub board : (replies clock : ℕ → ℕ) → Shield
board replies clock = record {
  wire = [];
  replies = replies;
  exchanges = 0;
  spdr = 0;
  clock = clock;
  readings = 0;
  ports = record { ddrb = 0; portb = 0; ddrh = 0; porth = 0; spcr = 0 };
  vbus_state = 0;
  console = [];
}

-- The clock at its last value: a timeout wraps.
abbrev pub at_wrap : ℕ → ℕ
at_wrap _ = 0xffff_ffff

-- The result of a command that ends, or `d`.
abbrev pub outcome : {A : Type 0} → Option A → A → A
outcome none d = d
outcome (some a) d = a

abbrev pub pipe : Endpoint
pipe = record {
  address = 1;
  attributes = 2;
  max_packet_size = 64;
  send_toggle = 64;
  receive_toggle = 16;
}

abbrev pub phone : Device
phone = record {
  address = 1;
  active = true;
  control = pipe;
  bulk_in = pipe;
  bulk_out = pipe;
  first_string_language = 0;
}

abbrev pub host_of : Shield → Host
host_of s = record {
  shield = s;
  usb_error = 0;
  task_state = attached_settle;
  settle = 0;
  table = λ _. phone;
  stack = λ _. 0;
}

abbrev pub shell : Status → Connection
shell status = record {
  connection_string = 115 ∷ 104 ∷ [];
  local_id = 1;
  remote_id = 7;
  last_connection_attempt = 0;
  data_size = 0;
  data_read = 0;
  status = status;
  reconnect = true;
  event_handler = some 5;
}

-- A program with one connection, and a device that is connected.
abbrev pub program : Status → Shield → Adb
program status s = record {
  host = host_of s;
  device = some 1;
  connections = shell status ∷ [];
  connected = true;
  connection_local_id = 2;
  event_handler = some 4;
  calls = [];
}

abbrev pub no_handle : Configuration
no_handle = record {
  configuration = 0;
  interface = 0;
  input_end_point_address = 0;
  output_end_point_address = 0;
}

abbrev pub okay : Message
okay = record { command = a_okay; arg0 = 7; arg1 = 1; data_length = 0; data_check = 0; magic = 0 }
