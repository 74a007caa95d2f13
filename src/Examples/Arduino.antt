-- ===== src/Examples/Arduino.antt =====
-- The sketch library of src/arduino on an Uno, whose SS is pin 10.
use microbridge.Base.{◌≡◌, ◌==◌, refl, arith, if◌then◌else◌}
use microbridge.Base.Run.{pure}
use microbridge.Shield.{put_wire, select, release, millis, delay, print}
use microbridge.Max3421e
use microbridge.Usb.Transfer
use microbridge.Usb.Output
use microbridge.Usb.Control
use microbridge.Usb.Poll
use microbridge.Adb.Message
use microbridge.Adb.Connection
use microbridge.Adb.Discovery
use microbridge.Adb.Poll.{client, device_poll as adb_device_poll}
use microbridge.Adb.Link.{writing, Adb}
use microbridge.Arduino.Core.{Core, Agrees}
use microbridge.Arduino.Max3421e.{
  write, write_multiple, read, read_multiple, reset, power_on, busprobe, interrupt_handler,
  gpx_interrupt_handler, poll,
}
use microbridge.Arduino.Max3421e.Agreement.{driver_agrees}
use microbridge.Arduino.Max3421e.Lines.{with_gpx, serviced, poll_lines}
use microbridge.Arduino.Transfer.{dispatch_packet, usb_read}
use microbridge.Arduino.Output.{usb_write}
use microbridge.Arduino.Control.{
  control_request, get_device_descriptor, get_configuration_descriptor, set_address,
  set_configuration, get_string, init_device,
}
use microbridge.Arduino.Control.Agreement.{transfers_agree}
use microbridge.Arduino.Poll.{task_step}
use microbridge.Arduino.Poll.Agreement.{task_step-agrees}
use microbridge.Arduino.Adb.Message.{poll_message}
use microbridge.Arduino.Adb.Connection.{
  connection_write, connection_write_string, open_closed, handle_okay, handle_close, close_all,
}
use microbridge.Arduino.Adb.Connection.Agreement.{operations_agree}
use microbridge.Base.Alike.{IsAlike}
use microbridge.Arduino.Adb.Connection.Writing.{silent}
use microbridge.Arduino.Adb.Poll.{device_poll}
use microbridge.Arduino.Adb.Poll.Agreement.{device_poll-IsAlike}
use microbridge.Usb.Host
use microbridge.Arduino.Host.{vbus_changed}
use microbridge.Arduino.Adb.Discovery.{init_usb}
use microbridge.Examples.{board, program, no_handle}

-- A write to SS moves slave select, and every pin shows 1.
abbrev uno : Core
uno = record {
  input = 0;
  output = 1;
  ss = 10;
  pin_mode = λ pin mode. pure tt;
  digital_write = λ pin value.
      if pin == 10 then (if value == 0 then put_wire select else put_wire release) else pure tt;
  digital_read = λ pin. pure 1;
  spi_begin = pure tt;
  millis = millis;
  delay = delay;
  print = print;
}

uno-Agrees : Agrees uno
uno-Agrees = record { selects = refl; releases = refl; shows = refl; waits = refl; prints = refl }

driver_agrees_example :
    (write uno ≡ Max3421e.write)
    × (write_multiple uno ≡ Max3421e.write_multiple)
    × (read uno ≡ Max3421e.read)
    × (read_multiple uno ≡ Max3421e.read_multiple)
    × (reset uno ≡ Max3421e.reset)
    × (power_on uno ≡ Max3421e.power_on)
    × (busprobe uno ≡ Max3421e.busprobe)
    × (interrupt_handler uno ≡ Max3421e.interrupt_handler)
    × (gpx_interrupt_handler uno ≡ Max3421e.gpx_interrupt_handler)
driver_agrees_example = driver_agrees uno-Agrees

poll_lines_example : (poll (with_gpx (pure 0) uno) ≡ poll uno) × (poll uno ≡ serviced uno (1 == 0))
poll_lines_example = poll_lines (pure 0) uno 1 refl

transfers_agree_example :
    (dispatch_packet uno 9 ≡ Transfer.dispatch_packet 9)
    × (usb_read uno 9 ≡ Transfer.usb_read 9)
    × (usb_write uno 9 ≡ Output.usb_write 9)
    × (control_request uno 9 ≡ Control.control_request 9)
    × (get_device_descriptor uno 9 ≡ Control.get_device_descriptor 9)
    × (get_configuration_descriptor uno 9 ≡ Control.get_configuration_descriptor 9)
    × (set_address uno 9 ≡ Control.set_address 9)
    × (set_configuration uno 9 ≡ Control.set_configuration 9)
    × (get_string uno 9 ≡ Control.get_string 9)
    × (init_device uno 9 ≡ Control.init_device 9)
transfers_agree_example = transfers_agree uno-Agrees 9

abbrev attached : Adb
attached = program writing (board (λ _. 0) (λ n. n))

task_step-agrees_example :
    (vbus_changed uno ≡ Host.vbus_changed)
    × (task_step uno (client 9 no_handle) 9 attached
        ≡ Poll.task_step (client 9 no_handle) 9 attached)
task_step-agrees_example = task_step-agrees uno-Agrees (client 9 no_handle) 9 attached (omega arith)

operations_agree_example :
    (connection_write uno 9 ≡ Connection.write 9)
    × (connection_write_string uno 9 ≡ Connection.write_string 9)
    × (open_closed uno 9 ≡ Connection.open_closed 9)
    × (handle_okay ≡ Connection.handle_okay)
    × (handle_close ≡ Connection.handle_close)
    × (close_all ≡ Connection.close_all)
    × (poll_message uno 9 ≡ Message.poll_message 9)
    × (init_usb uno 9 ≡ Discovery.init_usb 9)
operations_agree_example = operations_agree uno-Agrees 9

device_poll-IsAlike_example :
    IsAlike silent (adb_device_poll 9 no_handle) (device_poll uno 9 no_handle)
device_poll-IsAlike_example = device_poll-IsAlike uno-Agrees 9 no_handle
