-- ===== src/Examples/Sending.antt =====
-- What adb_write and adb_openClosedConnections of src/mcu/adb.c send.
use microbridge.Adb.Sending.{message_bytes, write-sends}
use microbridge.Adb.Dialogue.{service, Says, write-open_closed}
use microbridge.Adb.Flow.{open_calls}
use microbridge.Adb.Poll.{dispatch}
use microbridge.Usb.Output.Loaded.{loaded}
use microbridge.Base.{◌++◌, ◌≡◌, refl, [], ◌∷◌, some, arith, pos}
use microbridge.Max3421e.{write}
use microbridge.Adb.Link.{opening, closed, opened, writing, Connection, Adb}
use microbridge.Adb.Message.{a_open, a_wrte}
use microbridge.Adb.Connection.{open_closed, handle_close, add_connection, close_if_open}
use microbridge.Adb.Connection
use microbridge.Examples.{board, outcome, shell, program, okay, no_handle}

-- The chip ends every transfer at once, with success.
abbrev ready : Adb
ready = program opened (board (λ _. 0x80) (λ _. 0))

write-sends_example :
    (b : Adb) × (Connection.write 2 (shell opened) (1 ∷ 2 ∷ []) ready
      ≡ some ((pos 0, record (shell opened) { status = writing }), b))
    × (loaded b.host.shield ≡ loaded ready.host.shield ++ message_bytes a_wrte 1 7 (1 ∷ 2 ∷ []))
    × (b ≡ record ready { host = b.host })
write-sends_example =
    write-sends 2 1 (shell opened) (1 ∷ 2 ∷ []) ready (omega arith)
      (refl, omega arith, (λ n lt. (refl, refl))) refl refl

-- The clock stands at 5000 ms.
abbrev standing : Adb
standing = program closed (board (λ _. 0x80) (λ _. 5000))

write-open_closed_example :
    (d : Connection) × (e : Connection) × (b : Adb) × (z : Adb) × (open_closed 2
        (shell closed)
        standing
      ≡ some (d, b))
    × Says a_open 1 0 (service (shell closed)) standing b
    × (d ≡ record (shell closed) {
      last_connection_attempt = d.last_connection_attempt;
      status = opening;
    })
    × (dispatch 2 no_handle okay d standing
        ≡ some (e, record standing { calls = open_calls (some 4) d [] }))
    × (e ≡ record d { status = opened; remote_id = 7 })
    × (Connection.write 2 e (1 ∷ 2 ∷ []) ready ≡ some ((pos 0, record e { status = writing }), z))
    × Says a_wrte 1 7 (1 ∷ 2 ∷ []) ready z
write-open_closed_example =
    write-open_closed 2 1 no_handle (shell closed) okay (1 ∷ 2 ∷ []) standing standing ready
      (omega arith) refl (omega arith) (refl, omega arith, (λ n lt. (refl, refl))) refl refl refl
      (refl, omega arith, (λ n lt. (refl, refl)))

abbrev attempted : Connection × Adb
attempted = outcome (open_closed 9 (shell closed) standing) (shell closed, standing)

abbrev refused : Connection × Adb
refused = outcome (handle_close attempted.0 attempted.1) attempted
