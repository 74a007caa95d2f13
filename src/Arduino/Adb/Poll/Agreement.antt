-- ===== src/Arduino/Adb/Poll/Agreement.antt =====
-- ADB::poll of src/arduino/Adb.cpp, beside src/mcu/adb.c: it does the same, but that the
-- sketch library does not print a mismatch of the bytes read.
use microbridge.Base.{
  ℕ, ◌≡◌, refl, sym, List, [], ◌∷◌, true, not, ◌&&◌, Option, none, some, ◌==◌, if◌then◌else◌,
}
use microbridge.Base.Run.{Cmd, pure, get, ◌>>=◌}
use microbridge.Base.Mute.{IsMute, pure-IsMute, bind-IsMute, if_IsMute}
use microbridge.Base.Alike.{
  IsAlike, same-IsAlike, if_IsAlike, bind-IsAlike, then-IsAlike, path-IsAlike,
}
use microbridge.Shield.{Notice, print, read_mismatch}
use microbridge.Adb.Link.{Connection, Adb, on_board, unused}
use mathlib.Core.Path.{fun_ext}
use microbridge.Adb.Message.{Message, a_okay, a_clse, a_wrte, a_cnxn}
use microbridge.Adb.Message
use microbridge.Adb.Connection
use microbridge.Adb.Console.{handle_okay-IsMute, handle_close-IsMute, visit-IsMute}
use microbridge.Arduino.Core.{Core, Agrees}
use microbridge.Arduino.Adb.Message.Agreement.{
  adb_read-agrees, write_string_message-agrees, poll_message-agrees,
}
use microbridge.Arduino.Adb.Connection.Agreement.{
  handle_okay-agrees, handle_close-agrees, fire_global_event-agrees, open_closed-agrees,
}
use microbridge.Adb.Discovery.{Configuration}
use microbridge.Adb.Poll
use microbridge.Adb.Poll.{banner}
use microbridge.Shield
use microbridge.Arduino.Adb.Poll.{handle_connect, dispatch, handle_message, device_poll}
use microbridge.Arduino.Adb.Connection.Writing.{silent, handle_write-IsMute, handle_write-IsAlike}

module _ {core : Core} (agrees : Agrees core) (fuel : ℕ) (handle : Configuration) where
  dispatch-IsMute : (m : Message) (c : Connection) → IsMute silent (dispatch core fuel handle m c)
  unfolding dispatch
  dispatch-IsMute m c =
      rw (handle_okay-agrees, handle_close-agrees)
        (if_IsMute _
          (if_IsMute _ (handle_okay-IsMute c m) (
            if_IsMute _ (handle_close-IsMute c)
              (if_IsMute _ (handle_write-IsMute agrees fuel c m) pure-IsMute)))
          pure-IsMute)

  dispatch-IsAlike :
      (m : Message) (c : Connection)
      → IsAlike silent (Poll.dispatch fuel handle m c) (dispatch core fuel handle m c)
  unfolding dispatch Poll.dispatch
  dispatch-IsAlike m c =
      rw (handle_okay-agrees, handle_close-agrees)
        (if_IsAlike (not (Connection.is c.status unused) && c.local_id == m.arg1)
          (if_IsAlike (m.command == a_okay) (same-IsAlike {m = Connection.handle_okay c m} refl) (
            if_IsAlike (m.command == a_clse) (same-IsAlike {m = Connection.handle_close c} refl) (
              if_IsAlike (m.command == a_wrte) (handle_write-IsAlike agrees fuel c m)
                (same-IsAlike {m = pure c} refl))))
          (same-IsAlike {m = pure c} refl))

  visit-IsAlike :
      (m : Message) (cs : List Connection)
      → IsAlike silent
          (Connection.visit (Poll.dispatch fuel handle m) cs)
          (Connection.visit (dispatch core fuel handle m) cs)
  unfolding Connection.visit
  visit-IsAlike m [] = same-IsAlike refl
  visit-IsAlike m (c ∷ cs) =
      bind-IsAlike (λ s. refl) (dispatch-IsAlike m c)
        (λ c'.
          bind-IsAlike (λ s. refl) (visit-IsAlike m cs) (λ cs'. same-IsAlike refl)
            λ cs'. pure-IsMute {a = c' ∷ cs'})
        (λ c'.
          bind-IsMute (visit-IsMute (dispatch core fuel handle m) (dispatch-IsMute m) cs)
            λ cs'. pure-IsMute {a = c' ∷ cs'})

  for_each-IsAlike :
      (m : Message)
      → IsAlike silent
          (Connection.for_each (Poll.dispatch fuel handle m))
          (Connection.for_each (dispatch core fuel handle m))
  unfolding Connection.for_each
  for_each-IsAlike m = then-IsAlike get λ a.
      bind-IsAlike (λ s. refl) (visit-IsAlike m a.connections) (λ cs. same-IsAlike refl)
        λ cs. record { at = λ s. refl }

  handle_connect-agrees : handle_connect core fuel ≡ Poll.handle_connect fuel
  unfolding handle_connect Poll.handle_connect
  handle_connect-agrees = fun_ext λ m. rw (adb_read-agrees agrees fuel, fire_global_event-agrees)

  handle_message-IsAlike :
      (m : Option Message)
      → IsAlike silent (Poll.handle_message fuel handle m) (handle_message core fuel handle m)
  unfolding handle_message Poll.handle_message
  handle_message-IsAlike none = same-IsAlike refl
  handle_message-IsAlike (some m) =
      rw handle_connect-agrees (then-IsAlike _ λ _. for_each-IsAlike m)

  greeting :
      (a : Adb)
      → Path
          (Cmd Adb (Unit {0}))
          (if a.connected then pure tt else (do
            _ ← Message.write_string_message fuel a_cnxn 0x0100_0000 4096 banner
            on_board (Shield.delay fuel 500)))
          (if a.connected then pure tt else (do
            _ ← Message.write_string_message fuel a_cnxn 0x0100_0000 4096 banner
            on_board (core.delay fuel 500)))
  greeting a = λ i. if a.connected then pure tt else (do
    _ ← Message.write_string_message fuel a_cnxn 0x0100_0000 4096 banner
    on_board (sym agrees.waits i fuel 500))

  -- With a device, a poll of the sketch library ends exactly where one of the firmware ends, and leaves
  -- the same program behind but for what is on the console: the connections, the handler calls, the
  -- devices and everything on the wire are the same, where the Arduino core agrees with avr.
  pub device_poll-IsAlike :
      IsAlike silent (Poll.device_poll fuel handle) (device_poll core fuel handle)
  unfolding device_poll Poll.device_poll
  device_poll-IsAlike =
      rw
        (
          write_string_message-agrees agrees fuel,
          open_closed-agrees agrees fuel,
          poll_message-agrees agrees fuel,
        )
        (then-IsAlike get λ a. path-IsAlike (greeting a) λ _. then-IsAlike get λ b.
          then-IsAlike
            (if b.connected then Connection.for_each (Connection.open_closed fuel) else pure tt)
            λ _. then-IsAlike (Message.poll_message fuel true) handle_message-IsAlike)
