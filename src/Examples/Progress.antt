-- ===== src/Examples/Progress.antt =====
-- The enumeration of src/mcu/max3421e/max3421e_usb.c on a board whose clock moves 1 ms a reading.
use microbridge.Shield.{Shield}
use microbridge.Max3421e.Constants.{fs_host}
use microbridge.Adb.Link.{opened, Adb}
use microbridge.Examples.{board, program}

-- The ports are as power-on leaves them, with bit 4 of PORTH set, so that every poll services the interrupt.
-- Every answer of the chip is 0x40: a frame, no reset, and no change on the bus.
abbrev attached_board : Shield
attached_board = record (board (λ _. 0x40) (λ n. n)) {
  ports = record { ddrb = 0; portb = 0; ddrh = 0; porth = 0x10; spcr = 0 };
  vbus_state = fs_host;
}

abbrev plugged : Adb
plugged = program opened attached_board
