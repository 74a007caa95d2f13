-- ===== src/Adb/Retry.antt =====
-- The retry time of adb_openClosedConnections (src/mcu/adb.c).
use microbridge.Base.{◌+◌}
use microbridge.Adb.Link.{Connection, Adb}

-- The state after a reading of the clock.
abbrev pub ticked : Adb → Adb
ticked a =
    let h = a.host in
    let s = h.shield in
    record a { host = record h { shield = record s { readings = s.readings + 1 } } }
