-- ===== src/Adb/Keeping/Polling.antt =====
-- Properties of the state that adb_poll of src/mcu/adb.c and programs over it keep, if their parts keep
-- them.
use microbridge.Base.{ℕ, ℤ, pos, negsuc, ◌∷◌, Bool, true, false, List, Option, none, some, [], Bool}
use microbridge.Base.Run.{pure, modify}
use microbridge.Base.Keeps.{IsKeeping, pure-IsKeeping, bind-IsKeeping, get-IsKeeping, if_IsKeeping}
use microbridge.Usb.Device.{Memory, EventType, connect, disconnect, addressing_error}
use microbridge.Usb.Poll.Keeping.{Steps, usb_poll-IsKeeping}
use microbridge.Adb.Link.{Connection, Adb, transfer}
use microbridge.Adb.Message.{Message, a_cnxn}
use microbridge.Adb.Connection.{open_closed, close_if_open, for_each, close_all, add_connection}
use microbridge.Adb.Discovery.{
  Configuration, is_adb_device, init_usb, scan, read_configuration, prepare,
}
use microbridge.Adb.Poll.{
  banner, client, usb_event_handler, dispatch, handle_message, device_poll, adb_poll,
}
use microbridge.Adb.Keeping.{
  Calm, write_string_message-IsKeeping, poll_message-IsKeeping, handle_connect-IsKeeping,
}
use microbridge.Adb.Program.{
  Action, poll, add, send, send_string, act, run, for_place, written, written_string,
}

-- The parts of adb_poll that are not calls of commands of Calm keep the property.
pub record Parts (fuel : ℕ) (handle : Configuration) (P : Adb → Type 0) : Type 0 where
  pub calm : Calm P
  pub configuration :
      (conf i : ℕ) (stack : Memory) → IsKeeping P (transfer (read_configuration fuel conf stack) i)
  pub scanned : (n : ℕ) (buf : Memory) → IsKeeping P (scan fuel buf n handle)
  pub preparation :
      (i : ℕ) (found : Configuration) (stack : Memory)
      → IsKeeping P (transfer (prepare fuel found stack) i)
  pub chosen : (i : ℕ) → IsKeeping P (modify λ a. record a { device = some i })
  pub dropped : IsKeeping P (modify λ a. record a { device = none; connected = false })
  pub closing : IsKeeping P (for_each close_if_open)
  pub opening : IsKeeping P (for_each (open_closed fuel))
  pub dispatching : (m : Message) → IsKeeping P (for_each (dispatch fuel handle m))

module _ (fuel : ℕ) (handle : Configuration) (P : Adb → Type 0) (parts : Parts fuel handle P) where
  open parts use {
    calm, configuration, scanned, preparation, chosen, dropped, closing, opening, dispatching,
  }

  found-IsKeeping :
      (n : ℤ) (buf : Memory)
      → IsKeeping P (elim n [ pos n ↦ scan fuel buf n handle | negsuc _ ↦ pure (false, handle) ])
  found-IsKeeping (pos n) buf = scanned n buf
  found-IsKeeping (negsuc n) buf = pure-IsKeeping

  is_adb_device-IsKeeping : (i conf : ℕ) → IsKeeping P (is_adb_device fuel i conf handle)
  unfolding is_adb_device
  is_adb_device-IsKeeping i conf =
      bind-IsKeeping get-IsKeeping
        λ a. bind-IsKeeping (configuration conf i a.host.stack) λ (n, buf). found-IsKeeping n buf

  init_usb-IsKeeping : (i : ℕ) (found : Configuration) → IsKeeping P (init_usb fuel i found)
  unfolding init_usb
  init_usb-IsKeeping i found =
      bind-IsKeeping get-IsKeeping
        λ a. bind-IsKeeping (preparation i found a.host.stack) λ _. chosen i

  pub handler-IsKeeping : (i : ℕ) (e : EventType) → IsKeeping P (usb_event_handler fuel handle i e)
  unfolding usb_event_handler close_all
  handler-IsKeeping i connect =
      bind-IsKeeping (is_adb_device-IsKeeping i 0)
        λ (adb, found). if_IsKeeping _ (init_usb-IsKeeping i found) pure-IsKeeping
  handler-IsKeeping i disconnect =
      bind-IsKeeping get-IsKeeping
        λ a. if_IsKeeping _ (bind-IsKeeping closing λ _. dropped) pure-IsKeeping
  handler-IsKeeping i addressing_error = pure-IsKeeping

  pub handle_message-IsKeeping : (o : Option Message) → IsKeeping P (handle_message fuel handle o)
  unfolding handle_message
  handle_message-IsKeeping none = pure-IsKeeping
  handle_message-IsKeeping (some m) =
      bind-IsKeeping (if_IsKeeping _ (handle_connect-IsKeeping P calm fuel m) pure-IsKeeping)
        λ _. dispatching m

  pub device_poll-IsKeeping : IsKeeping P (device_poll fuel handle)
  unfolding device_poll
  device_poll-IsKeeping = bind-IsKeeping get-IsKeeping λ a.
      bind-IsKeeping
        (if_IsKeeping a.connected pure-IsKeeping (
          bind-IsKeeping (write_string_message-IsKeeping P calm fuel a_cnxn 0x0100_0000 4096 banner)
            λ _. calm.wait fuel 500))
        λ _. bind-IsKeeping get-IsKeeping λ b.
          bind-IsKeeping (if_IsKeeping b.connected opening pure-IsKeeping)
            λ _. bind-IsKeeping (poll_message-IsKeeping P calm fuel true) handle_message-IsKeeping

  -- The host and its polls keep the property too.
  module _ (steps : Steps (client fuel handle) P) where
    adb_poll-IsKeeping : IsKeeping P (adb_poll fuel handle)
    unfolding adb_poll
    adb_poll-IsKeeping =
        bind-IsKeeping (usb_poll-IsKeeping (client fuel handle) P steps fuel)
          λ _. bind-IsKeeping get-IsKeeping λ a. if_IsKeeping _ pure-IsKeeping device_poll-IsKeeping

    module _
        (adding : (block : Option Connection) (copied : Bool) (string : List ℕ) (reconnect : Bool)
            (h : Option ℕ)
          → IsKeeping P (add_connection block copied string reconnect h))
        (sending : (k : ℕ) (bytes : List ℕ) → IsKeeping P (for_place k (written fuel bytes)))
        (sending_string : (k : ℕ) (str : List ℕ)
          → IsKeeping P (for_place k (written_string fuel str))) where
      act-IsKeeping : (e : Action) → IsKeeping P (act fuel handle e)
      unfolding act
      act-IsKeeping poll = adb_poll-IsKeeping
      act-IsKeeping (add block copied string reconnect h) =
          bind-IsKeeping (adding block copied string reconnect h) λ _. pure-IsKeeping
      act-IsKeeping (send k bytes) = sending k bytes
      act-IsKeeping (send_string k str) = sending_string k str

      -- A program that returns keeps what its actions keep.
      pub run-IsKeeping : (es : List Action) → IsKeeping P (run fuel handle es)
      unfolding run
      run-IsKeeping [] = pure-IsKeeping
      run-IsKeeping (e ∷ es) = bind-IsKeeping (act-IsKeeping e) λ _. run-IsKeeping es
