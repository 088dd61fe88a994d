-- ===== src/Timer/Tests.antt =====
-- Runs of the timer wheel, and its theorems at concrete inputs.
use skynet_notes.Prelude.{ℕ, ◌<◌, ◌+◌, ◌-◌, ◌^◌, ◌≡◌, refl, some, List, [], ◌∷◌, arith}
use skynet_notes.Timer.{
  timer_execute, add_node, place, u32, timer_shift, updatetime, Timer, Request, timer_init,
  timer_add, timer_update, Round,
}
use skynet_notes.Timer.Wheel.{Inv, pending}
use skynet_notes.Timer.Tick.{timer_shift_lem}
use skynet_notes.Timer.Execute.{nodes_of, arrivals}
use skynet_notes.Timer.Fire.{Updated, timer_update_lem}
use skynet_notes.Timer.Countdown.{
  Event, add, tick, run, countdown, AllOk, Represents, run-countdown,
}
use skynet_notes.Timer.Clock.{ticks, Updates, timer_init-Represents, updatetime-countdown}
use skynet_notes.Mq.{Message}

abbrev fresh : Timer
fresh = timer_init 1000 50 700

abbrev far : Request
far = record { to = 7; session = 31; time = 300 }

abbrev soon : Request
soon = record { to = 8; session = 32; time = 2 }

abbrev events : List Event
events =
    add far ∷ tick [] [] ∷ add soon ∷ tick [] ((soon ∷ []) ∷ []) ∷ tick [] ((far ∷ []) ∷ []) ∷ []

good : {time : ℕ} → 0 < time → time < 2 ^ 31 → (0 < time) × (time < 2 ^ 31)
good h k = (h, k)

events-AllOk : AllOk events
events-AllOk = (
  good (omega arith) (omega arith),
  (
    tt,
    tt,
    (
      good (omega arith) (omega arith),
      (
        tt,
        ((good (omega arith) (omega arith), tt), tt),
        (tt, ((good (omega arith) (omega arith), tt), tt), tt),
      ),
    ),
  ),
)

run-countdown_example :
    ((run fresh events).0 ≡ (countdown [] events).0)
    × Represents (run fresh events).1 (countdown [] events).1
run-countdown_example =
    run-countdown fresh [] events (timer_init-Represents 1000 50 700) events-AllOk

-- Two countdowns in the wheel.
abbrev busy : Timer
busy = (run fresh (add far ∷ add soon ∷ tick [] [] ∷ [])).1

busy-Represents :
    Represents busy
      (record { to = 7; session = 31; time = 299 } ∷ record { to = 8; session = 32; time = 1 } ∷ [])
busy-Represents =
    (run-countdown fresh [] (add far ∷ add soon ∷ tick [] [] ∷ [])
      (timer_init-Represents 1000 50 700)
      (good (omega arith) (omega arith), (good (omega arith) (omega arith), (tt, tt, tt)))).1

busy_point : busy.current_point ≡ 700
unfolding timer_update timer_execute timer_shift timer_add add_node place timer_init
busy_point = refl

busy_current : busy.current ≡ 50
unfolding timer_update timer_execute timer_shift timer_add add_node place timer_init
busy_current = refl

abbrev calm : ℕ → Round
calm n = record { between = []; before = []; after = [] }

updatetime-countdown_example :
    let spec =
      countdown
        (record { to = 7; session = 31; time = 299 }
          ∷ record { to = 8; session = 32; time = 1 }
          ∷ [])
        (ticks (702 - busy.current_point) calm) in
    (r : List (ℕ × Message) × Timer) × (updatetime busy 702 calm ≡ some r)
    × Updates busy 702 spec.0 spec.1 r
updatetime-countdown_example =
    updatetime-countdown busy _ 702 calm busy-Represents
      (λ n. record { between_ok = tt; before_ok = tt; after_ok = tt }) (omega (arith, busy_current))
      (omega (arith, busy_point))

timer_shift_lem_example :
    let T' = timer_shift busy in
    (T'.time ≡ u32 (busy.time + 1)) × Inv 0 T' × ((e : ℕ) → pending T' e ≡ pending busy e)
timer_shift_lem_example = timer_shift_lem busy-Represents.valid

timer_update_lem_example :
    let next = u32 (busy.time + 1) in
    Updated busy
      (nodes_of next (arrivals (pending busy next) ((far ∷ []) ∷ [])))
      (timer_update busy [] ((far ∷ []) ∷ []))
timer_update_lem_example =
    timer_update_lem busy [] ((far ∷ []) ∷ []) busy-Represents.valid tt
      ((good (omega arith) (omega arith), tt), tt)
