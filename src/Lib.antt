-- ===== src/Lib.antt =====
-- MicroBridge: the firmware of an Arduino that hosts an Android phone over USB and speaks the Android
-- Debug Bridge (ADB) protocol with it. This library models the C program in src/mcu, and the library
-- for Arduino sketches in src/arduino, which is a port of it.
--
-- The program has four layers, and each calls the one below it:
--   src/mcu/adb.c      connections, messages, discovery of the phone; adb_poll drives everything
--   src/mcu/usb.c, src/mcu/max3421e/max3421e_usb.c
--                      packets, transfers, control requests, and usb_poll, which enumerates a device
--   src/mcu/max3421e/max3421e.c
--                      the registers of the MAX3421E host controller, its reset and its interrupts
--   src/mcu/avr.c, src/mcu/spi.c
--                      the clock, the serial port and the SPI unit
-- Upwards there are events: usb_poll calls the handler that adb_init has set, and the ADB layer calls
-- the handlers of the program and of its connections.
--
-- Where to find what:
--   Base       Boolean tests, lists, machine words and signed results over the native numbers; Cmd, the
--              commands over a state that end with a result or need more rounds; Mute and Alike, for
--              commands that do not look at a part of the state, or agree but for it (the console);
--              Keeps and Ends, for commands that keep a property of the state, or come back where it holds
--   Shield     the board: SPI wire, ports, clock, vbusState (spi.c, avr_millis, avr_delay)
--   Avr        timers (avr.c); Avr/Time has what the time functions show, Avr/Serial the serial port
--   Max3421e   every function of max3421e.c. Access and Frames say what the chip makes of the bytes on
--              the wire, Oscillator is about max3421e_reset, Probe about the bus and its interrupt
--   Usb        Device and Constants (usb.h, max3421e_usb.h, ch9.h, usb_initEndPoint), Transfer
--              (usb_dispatchPacket, usb_read, usb_bulkRead), Output (usb_write, usb_bulkWrite), Control
--              (usb_ctrlData, usb_controlRequest, the descriptor requests, usb_getString,
--              usb_initDevice), Host (usb_init, usb_getDevice, the steps of usb_poll), Poll (usb_poll
--              over the state of the layer above; Poll/Moves and Poll/States have its moves, Poll/Quiet,
--              Poll/Attached and Poll/Progress what becomes of an attached device, Poll/Table and
--              Control/Frames what becomes of the device table. Poll/Keeping is about what usb_poll keeps,
--              Control/Errors about the results of usb_controlRequest, and the modules Ending and
--              Returning about a board that does not stall)
--   Adb        Link (types of adb.h, the static variables, transfers of adbDevice), Message
--              (adb_writeMessage, adb_pollMessage, ...), Connection (adb_addConnection, adb_handleOkay,
--              adb_handleClose, adb_handleWrite, adb_write, ...), Discovery (adb_isAdbDevice,
--              adb_initUsb), Poll (adb_poll, adb_usbEventHandler, adb_init). The proofs are in Codec,
--              States, History, Flow, Sending, Receiving, Delivery (a payload that arrives whole), Retry,
--              Incoming, Registry, Teardown, Descriptors, Enumeration, Console, Table, Keeping, Ending (a
--              board that does not stall; Ending/Bus for usb_poll, Ending/Polling for adb_poll),
--              Handshake (a device that is not connected yet) and Dialogue (from OPEN to the first
--              payload); Program has whole programs over the functions of adb.c, and Program/Life what
--              becomes of their connections
--   Arduino    the same functions in src/arduino: Max3421e (max3421e.cpp), Transfer, Output, Control, Host
--              and Poll (usb.cpp), Adb (Adb.cpp). Each has a child Agreement, which compares it with
--              src/mcu, and Adb/Connection/Writing compares ADB::handleWrite, which prints less;
--              Max3421e/Lines is about the interrupt lines
--   Demo       the programs logcat.c, example.c and main.c; Demo/Output has what logcat prints
--   Examples   the theorems at concrete boards and connections
--
-- State: a function of the program is a command on the record of the state it can change: Shield for
-- the driver, Host for the USB layer, Adb for the whole program. A pointer into deviceTable is an
-- index, the list of connections a list, and a connection that a function changes is handed back.
-- Bytes and words are natural numbers, and every wrap of a C type is written out (u8, u16, u32, int16).
--
-- The environment: what the chip shifts back in the i-th exchange, and what timer0_millis holds at the
-- i-th call of avr_millis, are streams in the state, and the theorems hold for all of them or name what
-- they need. Handlers of the program are numbers; a call of one is recorded and changes nothing else,
-- so a handler that calls the library itself is not covered. What an uninitialised local holds is a
-- parameter (`stack`, `handle`), and so is what malloc and strdup return.
--
-- The Arduino core is not in the repository: Arduino/Core has what src/arduino calls of it (digitalWrite,
-- millis, ...) as a record of commands, which the definitions take. Agrees names what the comparison
-- with src/mcu needs: SS drives slave select, millis shows the timer's count, delay waits for it, and
-- Serial.print prints. Types, constants and the functions that are the same text in both directories
-- (isAdbInterface, initEndPoint, the header of a message) are defined once, for src/mcu.
--
-- Rounds: a loop that waits for the chip or the clock has a number of rounds, and gives no result when
-- they run out. Usb/Transfer/Termination, Max3421e/Oscillator, Shield/Clock and Adb/Descriptors say how
-- many are enough, from what the clock or the descriptors show; Max3421e/Ending names what keeps a board
-- from stalling, within a number of rounds, and Usb/Returning and Adb/Ending/Bus add to that number the
-- 32003 NAKs and timeouts that are let pass. The waits of usb_write and
-- of the bus sample have no timeout in the code, and end only as the chip answers. Other loops are
-- structural, but for that of adb_handleWrite, which an IN transfer of no bytes does not bring nearer to
-- its end: Adb/Ending/Polling is about every poll that does not come to it.
--
-- The configuration is the Makefile's: an ATmega1280 at 16 MHz, without SFHACK and without DEBUG; int
-- has 16 bits.
--
-- Not modelled: what vsnprintf does beyond the texts that are printed, saving and restoring SREG in
-- avr_millis (no interrupt comes between two instructions of the model); usb_printDeviceInfo, whose
-- output is commented out; adb_printMessage, which only prints; the guesswork for ADK_REF_BOARD in
-- src/arduino/max3421e.h and the sketches in src/arduino/examples; the Android server in src/android,
-- which the firmware does not link.
pub mod Adb
pub mod Arduino
pub mod Demo
pub mod Avr
pub mod Base
pub mod Examples
pub mod Max3421e
pub mod Shield
pub mod Usb
