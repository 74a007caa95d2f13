-- ===== src/Usb.antt =====
-- The USB layer: endpoints, devices and events of src/mcu/usb.h and src/mcu/usb.c, with the
-- transfers, control requests and enumeration of src/mcu/max3421e/max3421e_usb.c.
pub mod Constants
pub mod Control
pub mod Device
pub mod Host
pub mod Output
pub mod Poll
pub mod Returning
pub mod Transfer
