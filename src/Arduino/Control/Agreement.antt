-- ===== src/Arduino/Control/Agreement.antt =====
-- Control transfers of src/arduino/usb.cpp, beside src/mcu/max3421e/max3421e_usb.c and src/mcu/usb.c.
use microbridge.Base.{ℕ, ◌≡◌, refl, Bool, Option, none, some}
use microbridge.Usb.Device.{Device, Memory}
use mathlib.Core.Path.{fun_ext}
use microbridge.Usb.Transfer
use microbridge.Usb.Output
use microbridge.Usb.Control
use microbridge.Arduino.Core.{Core, Agrees}
use microbridge.Arduino.Max3421e.Agreement.{write-agrees, write_multiple-agrees}
use microbridge.Arduino.Transfer.{dispatch_packet, usb_read}
use microbridge.Arduino.Output.{usb_write}
use microbridge.Arduino.Transfer.Agreement.{dispatch_packet-agrees, usb_read-agrees}
use microbridge.Arduino.Output.Agreement.{usb_write-agrees}
use microbridge.Arduino.Control.{
  ctrl_data, data_stage, control_request, transfer_request, get_device_descriptor,
  get_configuration_descriptor, set_address, set_configuration, get_string, init_device,
}

module _ {core : Core} (agrees : Agrees core) (fuel : ℕ) where
  ctrl_data-agrees : ctrl_data core fuel ≡ Control.ctrl_data fuel
  unfolding ctrl_data Control.ctrl_data
  ctrl_data-agrees = fun_ext λ device. fun_ext λ direction.
      fun_ext
        λ length. fun_ext λ buffer. rw (usb_read-agrees agrees fuel, usb_write-agrees agrees fuel)

  data_stage-at :
      (device : Device) (direction : Bool) (length : ℕ) (buffer : Option Memory)
      → data_stage core fuel device direction length buffer
        ≡ Control.data_stage fuel device direction length buffer
  unfolding data_stage Control.data_stage
  data_stage-at device direction length none = refl
  data_stage-at device direction length (some buffer) = rw ctrl_data-agrees

  data_stage-agrees : data_stage core fuel ≡ Control.data_stage fuel
  data_stage-agrees =
      λ i device direction length buffer. data_stage-at device direction length buffer i

  control_request-agrees : control_request core fuel ≡ Control.control_request fuel
  unfolding control_request Control.control_request
  control_request-agrees = fun_ext λ device. fun_ext λ request. fun_ext λ buffer. rw (
    data_stage-agrees,
    dispatch_packet-agrees agrees fuel,
    write-agrees agrees,
    write_multiple-agrees agrees,
  )

  transfer_request-agrees : transfer_request core fuel ≡ Control.transfer_request fuel
  unfolding transfer_request Control.transfer_request
  transfer_request-agrees =
      fun_ext λ device. fun_ext λ request. fun_ext λ buffer. rw control_request-agrees

  pub get_device_descriptor-agrees :
      get_device_descriptor core fuel ≡ Control.get_device_descriptor fuel
  unfolding get_device_descriptor Control.get_device_descriptor
  get_device_descriptor-agrees = fun_ext λ device. fun_ext λ buffer. rw transfer_request-agrees

  get_configuration_descriptor-agrees :
      get_configuration_descriptor core fuel ≡ Control.get_configuration_descriptor fuel
  unfolding get_configuration_descriptor Control.get_configuration_descriptor
  get_configuration_descriptor-agrees = fun_ext λ device.
      fun_ext λ configuration. fun_ext λ length. fun_ext λ buffer. rw transfer_request-agrees

  pub set_address-agrees : set_address core fuel ≡ Control.set_address fuel
  unfolding set_address Control.set_address
  set_address-agrees = fun_ext λ device. fun_ext λ address. rw control_request-agrees

  set_configuration-agrees : set_configuration core fuel ≡ Control.set_configuration fuel
  unfolding set_configuration Control.set_configuration
  set_configuration-agrees = fun_ext λ device. fun_ext λ configuration. rw control_request-agrees

  get_string-agrees : get_string core fuel ≡ Control.get_string fuel
  unfolding get_string Control.get_string
  get_string-agrees = fun_ext λ device.
      fun_ext
        λ index. fun_ext λ language. fun_ext λ length. fun_ext λ str. rw transfer_request-agrees

  pub init_device-agrees : init_device core fuel ≡ Control.init_device fuel
  unfolding init_device Control.init_device
  init_device-agrees = fun_ext λ device.
      fun_ext λ configuration. fun_ext λ buffer. rw (set_configuration-agrees, get_string-agrees)

  -- The transfers and requests of the sketch library are those of the firmware: packets, IN and OUT
  -- transfers, control requests, descriptors, addresses, strings and the set-up of a device are the
  -- same commands for every number of rounds, where the Arduino core agrees with avr.
  pub transfers_agree :
      (dispatch_packet core fuel ≡ Transfer.dispatch_packet fuel)
      × (usb_read core fuel ≡ Transfer.usb_read fuel)
      × (usb_write core fuel ≡ Output.usb_write fuel)
      × (control_request core fuel ≡ Control.control_request fuel)
      × (get_device_descriptor core fuel ≡ Control.get_device_descriptor fuel)
      × (get_configuration_descriptor core fuel ≡ Control.get_configuration_descriptor fuel)
      × (set_address core fuel ≡ Control.set_address fuel)
      × (set_configuration core fuel ≡ Control.set_configuration fuel)
      × (get_string core fuel ≡ Control.get_string fuel)
      × (init_device core fuel ≡ Control.init_device fuel)
  transfers_agree = (
    dispatch_packet-agrees agrees fuel,
    usb_read-agrees agrees fuel,
    usb_write-agrees agrees fuel,
    control_request-agrees,
    get_device_descriptor-agrees,
    get_configuration_descriptor-agrees,
    set_address-agrees,
    set_configuration-agrees,
    get_string-agrees,
    init_device-agrees,
  )
