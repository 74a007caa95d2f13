-- ===== src/Arduino/Adb/Connection/Writing.antt =====
-- ADB::handleWrite of src/arduino/Adb.cpp, beside adb_handleWrite of src/mcu/adb.c: it does the same, but
-- that it does not print a mismatch.
use microbridge.Base.{ℕ, zero, suc, refl, [], ◌==◌}
use microbridge.Base.Run.{pure, get}
use microbridge.Base.Mute.{IsMute, pure-IsMute, stuck-IsMute, bind-IsMute, if_IsMute, get-IsMute}
use microbridge.Base.Alike.{
  IsAlike, same-IsAlike, if_IsAlike, bind-IsAlike, then-IsAlike, quiet_if, drop-IsAlike,
}
use microbridge.Shield.{Notice, print}
use microbridge.Usb.Device.{Memory}
use microbridge.Adb.Link
use microbridge.Adb.Link.{Connection, Adb, on_board, unused}
use microbridge.Adb.Message.{Message}
use microbridge.Adb.Connection
use microbridge.Adb.Console.{
  chatted, adb_read-IsMute, write_empty_message-IsMute, fire_event-IsMute,
}
use microbridge.Arduino.Core.{Core, Agrees}
use microbridge.Arduino.Adb.Message.Agreement.{adb_read-agrees, write_empty_message-agrees}
use microbridge.Arduino.Adb.Connection.{receive_packet, receive_loop, handle_write}
use microbridge.Arduino.Adb.Connection.Agreement.{fire_event-agrees}

-- The program with an empty console.
abbrev pub silent : Adb → Adb
silent = chatted []

print-silent : (n : Notice) → IsAlike silent (on_board (print n)) (pure tt)
unfolding on_board print
print-silent n = record { at = λ a. refl }

module _ {core : Core} (agrees : Agrees core) where
  receive_packet-IsMute :
      (fuel left : ℕ) (buf : Memory) (c : Connection)
      → IsMute silent (receive_packet core fuel left buf c)
  unfolding receive_packet
  receive_packet-IsMute fuel left buf c =
      rw (adb_read-agrees agrees fuel, fire_event-agrees)
        (bind-IsMute (adb_read-IsMute fuel _ _)
          λ input. if_IsMute _ pure-IsMute (bind-IsMute (fire_event-IsMute _ _ _) λ _. pure-IsMute))

  receive_packet-IsAlike :
      (fuel left : ℕ) (buf : Memory) (c : Connection)
      → IsAlike silent
          (Connection.receive_packet fuel left buf c)
          (receive_packet core fuel left buf c)
  unfolding receive_packet Connection.receive_packet
  receive_packet-IsAlike fuel left buf c =
      rw (adb_read-agrees agrees fuel, fire_event-agrees)
        (then-IsAlike (Link.adb_read fuel _ _) λ input.
          drop-IsAlike (λ s. refl) (quiet_if _ (same-IsAlike refl) (print-silent _))
            (if_IsMute _ pure-IsMute (bind-IsMute (fire_event-IsMute _ _ _) λ _. pure-IsMute)))

  receive_loop-IsMute :
      (fuel rounds left : ℕ) (buf : Memory) (c : Connection)
      → IsMute silent (receive_loop core fuel rounds left buf c)
  unfolding receive_loop
  receive_loop-IsMute fuel zero left buf c = stuck-IsMute
  receive_loop-IsMute fuel (suc rounds) left buf c =
      let next = receive_loop-IsMute fuel rounds in
      if_IsMute _ pure-IsMute (
        bind-IsMute (receive_packet-IsMute fuel left buf c)
          λ r. if_IsMute r.0 pure-IsMute (next r.1 r.2 r.3))

  receive_loop-IsAlike :
      (fuel rounds left : ℕ) (buf : Memory) (c : Connection)
      → IsAlike silent
          (Connection.receive_loop fuel rounds left buf c)
          (receive_loop core fuel rounds left buf c)
  unfolding receive_loop Connection.receive_loop
  receive_loop-IsAlike fuel zero left buf c = same-IsAlike refl
  receive_loop-IsAlike fuel (suc rounds) left buf c =
      let next = receive_loop-IsAlike fuel rounds in
      let mute = receive_loop-IsMute fuel rounds in
      if_IsAlike (left == 0) (same-IsAlike {m = pure c} refl) (
        bind-IsAlike (λ s. refl) (receive_packet-IsAlike fuel left buf c)
          (λ r. if_IsAlike r.0 (same-IsAlike refl) (next r.1 r.2 r.3))
          (λ r. if_IsMute r.0 (pure-IsMute {a = r.3}) (mute r.1 r.2 r.3)))

  pub handle_write-IsMute :
      (fuel : ℕ) (c : Connection) (m : Message) → IsMute silent (handle_write core fuel c m)
  unfolding handle_write
  handle_write-IsMute fuel c m = rw (write_empty_message-agrees agrees fuel) (
      get-IsMute (λ a. refl)
        λ a.
          bind-IsMute (receive_loop-IsMute fuel fuel _ _ _)
            λ c'. bind-IsMute (write_empty_message-IsMute fuel _ _ _) λ _. pure-IsMute)

  pub handle_write-IsAlike :
      (fuel : ℕ) (c : Connection) (m : Message)
      → IsAlike silent (Connection.handle_write fuel c m) (handle_write core fuel c m)
  unfolding handle_write Connection.handle_write
  handle_write-IsAlike fuel c m = rw (write_empty_message-agrees agrees fuel) (
      then-IsAlike get λ a.
        bind-IsAlike (λ s. refl) (receive_loop-IsAlike fuel fuel _ _ _) (λ c'. same-IsAlike refl)
          λ c'. bind-IsMute (write_empty_message-IsMute fuel _ _ _) λ _. pure-IsMute)
