-- ===== src/Arduino/Adb.antt =====
-- The ADB class of src/arduino/Adb.cpp.
pub mod Connection
pub mod Discovery
pub mod Message
pub mod Poll
