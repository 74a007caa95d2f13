-- ===== src/Arduino/Adb/Message/Agreement.antt =====
-- Messages of src/arduino/Adb.cpp, beside src/mcu/adb.c.
use microbridge.Base.{ℕ, ◌≡◌}
use mathlib.Core.Path.{fun_ext}
use microbridge.Adb.Link
use microbridge.Adb.Message
use microbridge.Arduino.Core.{Core, Agrees}
use microbridge.Arduino.Transfer.Agreement.{bulk_read-agrees}
use microbridge.Arduino.Output.Agreement.{bulk_write-agrees}
use microbridge.Arduino.Adb.Message.{
  adb_read, adb_bulk_write, write_empty_message, write_message, write_string_message, poll_message,
}

module _ {core : Core} (agrees : Agrees core) (fuel : ℕ) where
  pub adb_read-agrees : adb_read core fuel ≡ Link.adb_read fuel
  unfolding adb_read Link.adb_read
  adb_read-agrees = fun_ext λ length. fun_ext λ poll. rw (bulk_read-agrees agrees fuel)

  adb_bulk_write-agrees : adb_bulk_write core fuel ≡ Link.adb_bulk_write fuel
  unfolding adb_bulk_write Link.adb_bulk_write
  adb_bulk_write-agrees = fun_ext λ bytes. rw (bulk_write-agrees agrees fuel)

  pub write_empty_message-agrees : write_empty_message core fuel ≡ Message.write_empty_message fuel
  unfolding write_empty_message Message.write_empty_message
  write_empty_message-agrees =
      fun_ext λ command. fun_ext λ arg0. fun_ext λ arg1. rw adb_bulk_write-agrees

  pub write_message-agrees : write_message core fuel ≡ Message.write_message fuel
  unfolding write_message Message.write_message
  write_message-agrees =
      fun_ext λ command. fun_ext λ arg0. fun_ext λ arg1. fun_ext λ payload. rw adb_bulk_write-agrees

  pub write_string_message-agrees :
      write_string_message core fuel ≡ Message.write_string_message fuel
  unfolding write_string_message Message.write_string_message
  write_string_message-agrees =
      fun_ext λ command. fun_ext λ arg0. fun_ext λ arg1. fun_ext λ str. rw write_message-agrees

  pub poll_message-agrees : poll_message core fuel ≡ Message.poll_message fuel
  unfolding poll_message Message.poll_message
  poll_message-agrees = fun_ext λ poll. rw adb_read-agrees
