-- ===== src/Monitor.antt =====
-- skynet/skynet-src/skynet_monitor.c: a worker counts the starts and ends of messages, and a monitor
-- thread looks whether the count has moved.
pub mod Endless
mod Tests
use skynet_notes.Prelude.{ℕ, ◌+◌, ◌%◌, ◌^◌, Option, none, some, List, [], ◌∷◌, ◌==◌, if◌then◌else◌}

-- `struct skynet_monitor`; the two versions are 32 bits wide.
pub record Monitor : Type 0 where
  pub version : ℕ
  pub check_version : ℕ
  pub source : ℕ
  pub destination : ℕ

-- `skynet_monitor_new`
unfoldable pub monitor_new : Monitor
monitor_new = record { version = 0; check_version = 0; source = 0; destination = 0 }

-- `skynet_monitor_trigger`
unfoldable pub trigger : Monitor → ℕ → ℕ → Monitor
trigger sm source destination = record sm {
  source = source;
  destination = destination;
  version = (sm.version + 1) % 2 ^ 32;
}

-- `skynet_monitor_check`, with the source and the destination that it reports, if it reports any
unfoldable pub check : Monitor → Option (ℕ × ℕ) × Monitor
check sm =
    if sm.version == sm.check_version
    then (if sm.destination == 0 then none else some (sm.source, sm.destination), sm)
    else (none, record sm { check_version = sm.version })
