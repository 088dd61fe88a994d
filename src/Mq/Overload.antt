-- ===== src/Mq/Overload.antt =====
-- The overload mark of skynet_mq.c: `overload` and `overload_threshold`.
use skynet_notes.Prelude.{ℕ, ◌*◌, ◌≤◌, ◌<◌, ◌≡◌, arith, length}
use skynet_notes.Mq.{MessageQueue, take_overload}

-- What the doubling loop leaves, where `length` messages are left and it starts at `(o, t)`.
pub record Raised (length o t : ℕ) (r : ℕ × ℕ) : Type 0 where
  pub covers : length ≤ r.1
  pub quiet : length ≤ t → (r.0 ≡ o) × (r.1 ≡ t)
  pub raised : t < length → (r.0 ≡ length) × (r.1 < 2 * length)

-- A mark is reported once: `skynet_mq_overload` returns it and clears it, and changes nothing else.
pub take_overload_once :
    (q : MessageQueue)
    → let (n, q') = take_overload q in
      (n ≡ q.overload) × (q' ≡ record q { overload = 0 }) × ((take_overload q').0 ≡ 0)
unfolding take_overload
take_overload_once q = ground arith
