-- ===== src/Monitor/Tests.antt =====
-- The monitor at a concrete input.
use skynet_notes.Prelude.{◌≡◌, some, [], arith}
use skynet_notes.Monitor.{Monitor, check}
use skynet_notes.Monitor.Endless.{triggers, check_twice}

abbrev busy : Monitor
busy = record { version = 7; check_version = 6; source = 3; destination = 5 }

check_twice_example : (check (triggers (check busy).1 [])).0 ≡ some (3, 5)
check_twice_example = check_twice busy [] (omega arith)
