-- ===== src/Arduino/Adb/Connection/Agreement.antt =====
-- Connections of src/arduino/Adb.cpp, beside src/mcu/adb.c.
use microbridge.Base.{ℕ, ◌≡◌, refl, ap}
use mathlib.Core.Path.{fun_ext}
use microbridge.Adb.Message
use microbridge.Adb.Connection
use microbridge.Adb.Discovery
use microbridge.Arduino.Adb.Discovery.{init_usb}
use microbridge.Arduino.Adb.Discovery.Agreement.{init_usb-agrees}
use microbridge.Arduino.Core.{Core, Agrees}
use microbridge.Arduino.Adb.Message.{poll_message}
use microbridge.Arduino.Adb.Message.Agreement.{
  poll_message-agrees, write_message-agrees, write_string_message-agrees,
}
use microbridge.Arduino.Adb.Connection.{
  fire_event, fire_global_event, handle_okay, handle_close, close_if_open, close_all, open_closed,
  write, write_string, connection_write, connection_write_string,
}

pub fire_event-agrees : fire_event ≡ Connection.fire_event
unfolding fire_event Connection.fire_event
fire_event-agrees = refl

pub fire_global_event-agrees : fire_global_event ≡ Connection.fire_global_event
unfolding fire_global_event Connection.fire_global_event
fire_global_event-agrees = refl

pub handle_okay-agrees : handle_okay ≡ Connection.handle_okay
unfolding handle_okay Connection.handle_okay
handle_okay-agrees = fun_ext λ c. fun_ext λ m. rw fire_event-agrees

pub handle_close-agrees : handle_close ≡ Connection.handle_close
unfolding handle_close Connection.handle_close
handle_close-agrees = fun_ext λ c. rw fire_event-agrees

close_if_open-agrees : close_if_open ≡ Connection.close_if_open
unfolding close_if_open Connection.close_if_open
close_if_open-agrees = fun_ext λ c. rw handle_close-agrees

close_all-agrees : close_all ≡ Connection.close_all
unfolding close_all Connection.close_all
close_all-agrees = ap Connection.for_each close_if_open-agrees

module _ {core : Core} (agrees : Agrees core) (fuel : ℕ) where
  open agrees use {shows}

  pub open_closed-agrees : open_closed core fuel ≡ Connection.open_closed fuel
  unfolding open_closed Connection.open_closed
  open_closed-agrees = fun_ext λ c. rw (write_string_message-agrees agrees fuel, shows)

  pub write-agrees : write core fuel ≡ Connection.write fuel
  unfolding write Connection.write
  write-agrees = fun_ext λ c. fun_ext λ bytes. rw (write_message-agrees agrees fuel)

  write_string-agrees : write_string core fuel ≡ Connection.write_string fuel
  unfolding write_string Connection.write_string
  write_string-agrees = fun_ext λ c. fun_ext λ str. rw (write_string_message-agrees agrees fuel)

  -- The connections of the sketch library: writing, opening the closed ones, OKAY, CLSE, closing all,
  -- reading the next message and setting up a device are the commands of the firmware, also through the
  -- methods of Connection, where the Arduino core agrees with avr.
  pub operations_agree :
      (connection_write core fuel ≡ Connection.write fuel)
      × (connection_write_string core fuel ≡ Connection.write_string fuel)
      × (open_closed core fuel ≡ Connection.open_closed fuel)
      × (handle_okay ≡ Connection.handle_okay)
      × (handle_close ≡ Connection.handle_close)
      × (close_all ≡ Connection.close_all)
      × (poll_message core fuel ≡ Message.poll_message fuel)
      × (init_usb core fuel ≡ Discovery.init_usb fuel)
  unfolding connection_write connection_write_string
  operations_agree = (
    write-agrees,
    write_string-agrees,
    open_closed-agrees,
    handle_okay-agrees,
    handle_close-agrees,
    close_all-agrees,
    poll_message-agrees agrees fuel,
    init_usb-agrees agrees fuel,
  )
