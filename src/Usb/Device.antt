-- ===== src/Usb/Device.antt =====
-- Endpoints, devices, events (src/mcu/usb.h), usb_initEndPoint (src/mcu/usb.c), and the memory that
-- a transfer fills.
use microbridge.Base.{ℕ, zero, suc, ◌+◌, Bool, List, [], ◌∷◌, length, get_or, ltb, if◌then◌else◌}
use microbridge.Max3421e.Constants.{bm_rcvtog0, bm_sndtog0}

pub record Endpoint : Type 0 where
  pub address : ℕ
  pub attributes : ℕ
  pub max_packet_size : ℕ
  pub send_toggle : ℕ
  pub receive_toggle : ℕ

pub record Device : Type 0 where
  pub address : ℕ
  pub active : Bool
  pub control : Endpoint
  pub bulk_in : Endpoint
  pub bulk_out : Endpoint
  pub first_string_language : ℕ

pub data EventType : Type 0 where
  connect : EventType
  disconnect : EventType
  addressing_error : EventType

unfoldable pub init_end_point : Endpoint → ℕ → Endpoint
init_end_point e address = record e {
  address = address;
  send_toggle = bm_sndtog0;
  receive_toggle = bm_rcvtog0;
}

-- Memory from a pointer on, byte by byte.
abbrev pub Memory : Type 0
Memory = ℕ → ℕ

-- The memory after `bytes` have been stored from the pointer on.
unfoldable pub fill : List ℕ → Memory → Memory
fill bytes m i = if ltb i (length bytes) then get_or bytes i 0 else m i

-- The first `count` bytes of a memory, from `i` on.
unfoldable pub bytes_from : (count i : ℕ) → Memory → List ℕ
bytes_from zero i m = []
bytes_from (suc count) i m = m i ∷ bytes_from count (i + 1) m
