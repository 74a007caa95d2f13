-- ===== src/Adb.antt =====
-- The ADB layer, src/mcu/adb.c and src/mcu/adb.h: messages over the bulk endpoints, connections as
-- state machines, discovery of the ADB interface, and the poll that drives them.
pub mod Codec
pub mod Connection
pub mod Console
pub mod Delivery
pub mod Descriptors
pub mod Dialogue
pub mod Discovery
pub mod Ending
pub mod Enumeration
pub mod Flow
pub mod Handshake
pub mod History
pub mod Incoming
pub mod Keeping
pub mod Link
pub mod Message
pub mod Poll
pub mod Program
pub mod Receiving
pub mod Registry
pub mod Retry
pub mod Sending
pub mod States
pub mod Table
pub mod Teardown
