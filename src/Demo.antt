-- ===== src/Demo.antt =====
-- The programs src/mcu/logcat.c, src/mcu/example.c and src/mcu/main.c. Texts are lists of character codes.
pub mod Output
use microbridge.Base.{
  ◌==◌, ℕ, ◌+◌, Bool, true, false, List, [], ◌∷◌, ◌++◌, Option, none, some, ltb, sub32, bit_and,
  bit_or, if◌then◌else◌,
}
use microbridge.Base.Run.{Cmd, pure, get, modify, ◌>>=◌, ◌>>◌}
use microbridge.Shield.{millis}
use microbridge.Avr.Serial.{Registers, Port, timer_init, serial_init, serial_printf}
use microbridge.Adb.Link.{
  EventType, connect, disconnect, connection_open, connection_close, connection_failed,
  connection_receive, Connection, Call, Adb, on_board,
}
use microbridge.Adb.Connection.{add_connection}
use microbridge.Adb.Discovery.{Configuration}
use microbridge.Adb.Poll.{adb_init, adb_poll}

-- "Connection open "
abbrev open_text : List ℕ
open_text =
    67 ∷ 111 ∷ 110 ∷ 110 ∷ 101 ∷ 99 ∷ 116 ∷ 105 ∷ 111 ∷ 110 ∷ 32 ∷ 111 ∷ 112 ∷ 101 ∷ 110 ∷ 32 ∷ []

-- "Connection closed "
abbrev closed_text : List ℕ
closed_text =
    67 ∷ 111 ∷ 110 ∷ 110 ∷ 101 ∷ 99 ∷ 116 ∷ 105 ∷ 111 ∷ 110 ∷ 32 ∷ 99 ∷ 108 ∷ 111 ∷ 115 ∷ 101 ∷ 100
    ∷ 32 ∷ []

-- "Connection failed "
abbrev failed_text : List ℕ
failed_text =
    67 ∷ 111 ∷ 110 ∷ 110 ∷ 101 ∷ 99 ∷ 116 ∷ 105 ∷ 111 ∷ 110 ∷ 32 ∷ 102 ∷ 97 ∷ 105 ∷ 108 ∷ 101 ∷ 100
    ∷ 32 ∷ []

-- "shell:exec logcat"
abbrev logcat_string : List ℕ
logcat_string =
    115 ∷ 104 ∷ 101 ∷ 108 ∷ 108 ∷ 58 ∷ 101 ∷ 120 ∷ 101 ∷ 99 ∷ 32 ∷ 108 ∷ 111 ∷ 103 ∷ 99 ∷ 97 ∷ 116
    ∷ []

-- "shell:exec logcat -s MYAPP:*"
abbrev example_string : List ℕ
example_string =
    115 ∷ 104 ∷ 101 ∷ 108 ∷ 108 ∷ 58 ∷ 101 ∷ 120 ∷ 101 ∷ 99 ∷ 32 ∷ 108 ∷ 111 ∷ 103 ∷ 99 ∷ 97 ∷ 116
    ∷ 32 ∷ 45 ∷ 115 ∷ 32 ∷ 77 ∷ 89 ∷ 65 ∷ 80 ∷ 80 ∷ 58 ∷ 42 ∷ []

-- "shell:exec logcat -s microbridge:*"
abbrev main_string : List ℕ
main_string =
    115 ∷ 104 ∷ 101 ∷ 108 ∷ 108 ∷ 58 ∷ 101 ∷ 120 ∷ 101 ∷ 99 ∷ 32 ∷ 108 ∷ 111 ∷ 103 ∷ 99 ∷ 97 ∷ 116
    ∷ 32 ∷ 45 ∷ 115 ∷ 32 ∷ 109 ∷ 105 ∷ 99 ∷ 114 ∷ 111 ∷ 98 ∷ 114 ∷ 105 ∷ 100 ∷ 103 ∷ 101 ∷ 58 ∷ 42
    ∷ []

-- "tcp:4567"
abbrev tcp_string : List ℕ
tcp_string = 116 ∷ 99 ∷ 112 ∷ 58 ∷ 52 ∷ 53 ∷ 54 ∷ 55 ∷ []

-- "ADB EVENT CONNECT\n"
abbrev event_connect_text : List ℕ
event_connect_text =
    65 ∷ 68 ∷ 66 ∷ 32 ∷ 69 ∷ 86 ∷ 69 ∷ 78 ∷ 84 ∷ 32 ∷ 67 ∷ 79 ∷ 78 ∷ 78 ∷ 69 ∷ 67 ∷ 84 ∷ 10 ∷ []

-- "ADB EVENT DISCONNECT\n"
abbrev event_disconnect_text : List ℕ
event_disconnect_text =
    65 ∷ 68 ∷ 66 ∷ 32 ∷ 69 ∷ 86 ∷ 69 ∷ 78 ∷ 84 ∷ 32 ∷ 68 ∷ 73 ∷ 83 ∷ 67 ∷ 79 ∷ 78 ∷ 78 ∷ 69 ∷ 67
    ∷ 84 ∷ 10 ∷ []

-- "ADB EVENT OPEN connection=["
abbrev event_open_text : List ℕ
event_open_text =
    65 ∷ 68 ∷ 66 ∷ 32 ∷ 69 ∷ 86 ∷ 69 ∷ 78 ∷ 84 ∷ 32 ∷ 79 ∷ 80 ∷ 69 ∷ 78 ∷ 32 ∷ 99 ∷ 111 ∷ 110 ∷ 110
    ∷ 101 ∷ 99 ∷ 116 ∷ 105 ∷ 111 ∷ 110 ∷ 61 ∷ 91 ∷ []

-- "ADB EVENT CLOSE connection=["
abbrev event_close_text : List ℕ
event_close_text =
    65 ∷ 68 ∷ 66 ∷ 32 ∷ 69 ∷ 86 ∷ 69 ∷ 78 ∷ 84 ∷ 32 ∷ 67 ∷ 76 ∷ 79 ∷ 83 ∷ 69 ∷ 32 ∷ 99 ∷ 111 ∷ 110
    ∷ 110 ∷ 101 ∷ 99 ∷ 116 ∷ 105 ∷ 111 ∷ 110 ∷ 61 ∷ 91 ∷ []

-- "ADB EVENT FAILED connection=["
abbrev event_failed_text : List ℕ
event_failed_text =
    65 ∷ 68 ∷ 66 ∷ 32 ∷ 69 ∷ 86 ∷ 69 ∷ 78 ∷ 84 ∷ 32 ∷ 70 ∷ 65 ∷ 73 ∷ 76 ∷ 69 ∷ 68 ∷ 32 ∷ 99 ∷ 111
    ∷ 110 ∷ 110 ∷ 101 ∷ 99 ∷ 116 ∷ 105 ∷ 111 ∷ 110 ∷ 61 ∷ 91 ∷ []

-- "]\n"
abbrev event_end_text : List ℕ
event_end_text = 93 ∷ 10 ∷ []

-- `for (i=0; i<length; i++) avr_serialPrintf("%c", data[i]);`
unfoldable pub print_bytes : (fuel : ℕ) → List ℕ → Cmd Port (Unit {0})
print_bytes fuel [] = pure tt
print_bytes fuel (b ∷ bs) = let rest = print_bytes fuel bs in serial_printf fuel (b ∷ []) >> rest

-- adbEventHandler of logcat.c, for a connection with the string.
unfoldable pub logcat_handler :
    (fuel : ℕ) → (string : List ℕ) → EventType → (bytes : List ℕ) → Cmd Port (Unit {0})
unfolding print_bytes
logcat_handler fuel string connect bytes = pure tt
logcat_handler fuel string disconnect bytes = pure tt
logcat_handler fuel string connection_open bytes =
    serial_printf fuel (open_text ++ string ++ 10 ∷ [])
logcat_handler fuel string connection_close bytes =
    serial_printf fuel (closed_text ++ string ++ 10 ∷ [])
logcat_handler fuel string connection_failed bytes =
    serial_printf fuel (failed_text ++ string ++ 10 ∷ [])
logcat_handler fuel string connection_receive bytes = print_bytes fuel bytes

-- adbEventHandler of example.c
unfoldable pub example_handler :
    (fuel : ℕ) → (string : List ℕ) → EventType → (bytes : List ℕ) → Cmd Port (Unit {0})
unfolding print_bytes
example_handler fuel string connection_receive bytes = print_bytes fuel bytes
example_handler fuel string _ bytes = pure tt

-- adbEventHandler of main.c
unfoldable pub main_handler :
    (fuel : ℕ) → (string : List ℕ) → EventType → (bytes : List ℕ) → Cmd Port (Unit {0})
unfolding print_bytes
main_handler fuel string connect bytes = serial_printf fuel event_connect_text
main_handler fuel string disconnect bytes = serial_printf fuel event_disconnect_text
main_handler fuel string connection_open bytes =
    serial_printf fuel (event_open_text ++ string ++ event_end_text)
main_handler fuel string connection_close bytes =
    serial_printf fuel (event_close_text ++ string ++ event_end_text)
main_handler fuel string connection_failed bytes =
    serial_printf fuel (event_failed_text ++ string ++ event_end_text)
main_handler fuel string connection_receive bytes = print_bytes fuel bytes

-- The registers after avr_timerInit and avr_serialInit of each program.
unfoldable pub start_up : Registers → Registers
unfolding timer_init serial_init
start_up r = serial_init 57600 (timer_init r)

-- What the programs do before their loops. `handler` is the number of the event handler; `handle` is
-- what an uninitialised record holds, and the blocks are what malloc returns.
module _ (fuel : ℕ) (handle : Configuration) (handler : ℕ) where
  unfoldable pub logcat_setup : (block : Option Connection) → (copied : Bool) → Cmd Adb Bool
  logcat_setup block copied = do
    adb_init fuel handle
    add_connection block copied logcat_string false (some handler)

  unfoldable pub example_setup : (block : Option Connection) → (copied : Bool) → Cmd Adb Bool
  example_setup block copied = do
    adb_init fuel handle
    add_connection block copied example_string false (some handler)

  -- Whether the pointers logcat and connection are not NULL, and lastTime.
  unfoldable pub main_setup :
      (block block' : Option Connection) → (copied copied' : Bool) → Cmd Adb (Bool × Bool × ℕ)
  main_setup block block' copied copied' = do
    adb_init fuel handle
    logcat ← add_connection block copied main_string true (some handler)
    connection ← add_connection block' copied' tcp_string true (some handler)
    last_time ← on_board millis
    pure (logcat, connection, last_time)

-- The variables of the loop in main.c: the library's, the port C and lastTime.
pub record Main : Type 0 where
  pub adb : Adb
  pub ddrc : ℕ
  pub portc : ℕ
  pub last_time : ℕ

unfoldable pub on_adb : {A : Type 0} → Cmd Adb A → Cmd Main A
on_adb m s = elim (m s.adb) [ none ↦ none | some (x, a) ↦ some (x, record s { adb = a }) ]

-- One round of `while (1)` in main.c.
unfoldable pub main_round : (fuel : ℕ) → Configuration → Cmd Main (Unit {0})
unfolding on_adb
main_round fuel handle = do
  on_adb (adb_poll fuel handle)
  modify λ s. record s { ddrc = 0xff; portc = bit_and (bit_or (bit_or s.portc 1) 2) 0xfb }
  now ← on_adb (on_board millis)
  s ← get
  if ltb 100 (sub32 now s.last_time)
      then (do again ← on_adb (on_board millis); modify λ s. record s { last_time = again })
      else pure tt

-- The recorded calls, newest first, made in their order: those of the event handler with the number run
-- it, those of other handlers write nothing. `string_of` gives the string of a connection.
unfoldable pub replay :
    (fuel handler : ℕ) → (string_of : Option ℕ → List ℕ) → List Call → Cmd Port (Unit {0})
unfolding logcat_handler
replay fuel handler string_of [] = pure tt
replay fuel handler string_of (call ∷ older) =
    let before = replay fuel handler string_of older in
    before
    >> (if call.handler == handler
        then logcat_handler fuel (string_of call.connection) call.event call.bytes
        else pure tt)
