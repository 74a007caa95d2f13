-- ===== src/Arduino/Host/Agreement.antt =====
-- The steps of USB::poll of src/arduino/usb.cpp, beside those of src/mcu/max3421e/max3421e_usb.c.
use microbridge.Base.{ℕ, ◌≡◌}
use microbridge.Usb.Host
use microbridge.Arduino.Core.{Core, Agrees}
use microbridge.Arduino.Max3421e.Agreement.{write-agrees, read-agrees}
use microbridge.Arduino.Control.Agreement.{get_device_descriptor-agrees}
use microbridge.Arduino.Host.{
  vbus_changed, settle_step, reset_step, wait_reset_step, wait_sof_step, descriptor_size_step,
}

module _ {core : Core} (agrees : Agrees core) where
  open agrees use {shows}

  pub vbus_changed-agrees : vbus_changed core ≡ Host.vbus_changed
  unfolding vbus_changed Host.vbus_changed
  vbus_changed-agrees = rw shows

  pub settle_step-agrees : settle_step core ≡ Host.settle_step
  unfolding settle_step Host.settle_step
  settle_step-agrees = rw shows

  pub reset_step-agrees : reset_step core ≡ Host.reset_step
  unfolding reset_step Host.reset_step
  reset_step-agrees = rw (write-agrees agrees)

  pub wait_reset_step-agrees : wait_reset_step core ≡ Host.wait_reset_step
  unfolding wait_reset_step Host.wait_reset_step
  wait_reset_step-agrees = rw (read-agrees agrees, write-agrees agrees, shows)

  pub wait_sof_step-agrees : wait_sof_step core ≡ Host.wait_sof_step
  unfolding wait_sof_step Host.wait_sof_step
  wait_sof_step-agrees = rw (read-agrees agrees, shows)

  pub descriptor_size_step-agrees :
      (fuel : ℕ) → descriptor_size_step core fuel ≡ Host.descriptor_size_step fuel
  unfolding descriptor_size_step Host.descriptor_size_step
  descriptor_size_step-agrees fuel = rw (get_device_descriptor-agrees agrees fuel)
