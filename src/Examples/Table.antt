-- ===== src/Examples/Table.antt =====
-- A program over src/mcu/adb.c on a board where a full-speed device is enumerated.
use microbridge.Base.{arith, none, List, [], ◌∷◌, ◌≡◌, refl, ltb, if◌then◌else◌, ◌*◌, some, true}
use microbridge.Usb.Constants.{state_running}
use microbridge.Max3421e
use microbridge.Max3421e.{
  power_on, reset, wait_oscillator, wait_sample, busprobe, start_host, set_vbus, read_multiple,
  write_multiple,
}
use microbridge.Adb.Poll.{adb_init, adb_poll, device_poll, usb_event_handler}
use microbridge.Adb.Discovery.{
  is_adb_device, read_configuration, scan, scan_loop, descriptor_step, start_scan, interface_step,
  endpoint_step, is_adb_interface, init_usb, prepare, bulk_end_points,
}
use microbridge.Adb.Link.{transfer}
use microbridge.Usb.Poll.{
  on_host, usb_poll, task_step, addressing_step, search_loop, assign, fire_event,
}
use microbridge.Usb.Host.{
  init, deactivate, vbus_changed, set_task_state, settle_step, reset_step, wait_reset_step,
  wait_sof_step, descriptor_size_step, with_packet_size,
}
use microbridge.Usb.Control.{
  get_device_descriptor, get_configuration_descriptor, set_address, transfer_request,
  control_request, data_stage, ctrl_data, setup_packet, descriptor_request,
}
use microbridge.Usb.Transfer.{
  dispatch_packet, dispatch_loop, dispatch_round, wait_interrupt, wait_result, usb_read, read_loop,
  read_packet, finish_read, verdict,
}
use microbridge.Usb.Device.{init_end_point, fill}
use microbridge.Shield.{millis, delay}
use microbridge.Usb.Poll.Table.{IsAddressed}
use microbridge.Adb.Link.{closed, opened, Adb}
use microbridge.Adb.Registry.{Below}
use microbridge.Adb.Connection.{add_connection}
use microbridge.Adb.Connection
use microbridge.Adb.Program.{
  Action, poll, add, send, act, run, session, at_place, for_place, written,
}
use microbridge.Adb.Program.Life.{Grown, session-Grown, session-Below}
use microbridge.Adb.Table.Polling.{session-IsAddressed}
use microbridge.Examples.{shell, board, program, no_handle, outcome}

-- 26 exchanges start the chip: its oscillator runs, and a device is on the bus. Then every answer is a
-- frame and a transfer that is done. Both interrupt lines are high, and a reading of the clock takes
-- 100 ms.
abbrev powered : Adb
powered = program opened (record (board (λ n. if ltb n 26 then 0x85 else 0xc0) (λ n. n * 100)) {
  ports = record { ddrb = 0; portb = 0; ddrh = 0; porth = 0x60; spcr = 0 };
})

-- A connection is added, the device is enumerated, and the connection is written to.
abbrev program_run : List Action
program_run =
    add (some (shell closed)) true (115 ∷ 104 ∷ []) true none
    ∷ poll
    ∷ poll
    ∷ poll
    ∷ poll
    ∷ poll
    ∷ poll
    ∷ poll
    ∷ poll
    ∷ send 0 (1 ∷ [])
    ∷ []

abbrev enumerated : Adb
enumerated = (outcome (session 9 no_handle program_run powered) (tt, powered)).1

-- A device is running at the end.
session_lem :
    (session 9 no_handle program_run powered ≡ some (tt, enumerated))
    × (enumerated.host.task_state ≡ state_running)
    × ((enumerated.host.table 1).active ≡ true)
    × (enumerated.connection_local_id ≡ 3)
unfolding power_on reset wait_oscillator wait_sample busprobe start_host set_vbus read_multiple
    write_multiple Max3421e.init Max3421e.read Max3421e.write Max3421e.poll adb_init adb_poll
    device_poll usb_event_handler session run act add_connection for_place at_place written
    Connection.write is_adb_device read_configuration scan scan_loop descriptor_step start_scan
    interface_step endpoint_step is_adb_interface init_usb prepare bulk_end_points transfer on_host
    usb_poll task_step addressing_step search_loop assign fire_event init deactivate vbus_changed
    set_task_state settle_step reset_step wait_reset_step wait_sof_step descriptor_size_step
    with_packet_size get_device_descriptor get_configuration_descriptor set_address transfer_request
    control_request data_stage ctrl_data setup_packet descriptor_request dispatch_packet
    dispatch_loop dispatch_round wait_interrupt wait_result usb_read read_loop read_packet
    finish_read verdict init_end_point fill millis delay
session_lem = (refl, refl, refl, refl)

session-IsAddressed_example : IsAddressed enumerated.host.table
session-IsAddressed_example =
    session-IsAddressed 9 no_handle program_run powered enumerated session_lem.0

session-Grown_example : Grown 9 no_handle powered.connections enumerated.connections
session-Grown_example = session-Grown 9 no_handle program_run powered enumerated session_lem.0

session-Below_example : Below enumerated.connection_local_id enumerated.connections
session-Below_example =
    session-Below 9 no_handle program_run powered enumerated (omega arith, tt) session_lem.0
      (omega (arith, session_lem.3))
