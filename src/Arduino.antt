-- ===== src/Arduino.antt =====
-- The Arduino library, src/arduino: a port of the firmware to C++ classes over the Arduino core library.
-- The structs, constants and pure computations, which the two share, are those of Usb and Adb.
pub mod Adb
pub mod Control
pub mod Core
pub mod Host
pub mod Max3421e
pub mod Output
pub mod Poll
pub mod Transfer
