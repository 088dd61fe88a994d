-- ===== src/Timer/Clock.antt =====
-- `skynet_updatetime` of skynet_timer.c: one tick for each centisecond since the last call.
use skynet_notes.Prelude.{
  ℕ, zero, suc, ◌+◌, ◌-◌, ◌%◌, ◌^◌, ◌<◌, ◌≡◌, refl, sym, ◌∙◌, true, some, List, [], ◌∷◌, ◌==◌,
  ==_iff, ltb, ltb_iff, Bool-cases, inl, inr, arith,
}
use skynet_notes.Timer.{
  Place, near_at, level_at, Timer, u32, cell, place, Request, timer_create_timer, timer_init,
  update_all, updatetime, timer_update, timer_add, serve_requests, Round,
}
use skynet_notes.Timer.Wheel.{due, Fits, All}
use skynet_notes.Timer.Execute.{AllPositive, AllWindows}
use skynet_notes.Timer.Readings.{update_all-SameReadings}
use skynet_notes.Mq.{Message}
use skynet_notes.Timer.Countdown.{
  Event, add, tick, run, countdown, AllOk, Represents, run-countdown,
}

-- The timer that `skynet_timer_init` sets up holds no countdown.
pub timer_init-Represents : (sec cs monotonic : ℕ) → Represents (timer_init sec cs monotonic) []
unfolding timer_init timer_create_timer
timer_init-Represents sec cs monotonic =
    let T = timer_init sec cs monotonic in
    record {
      valid = record { clock = omega arith; placed = λ p. none p };
      positive = tt;
      same = λ e. empty e (place 0 e);
    }
  where
    none : (p : Place) → All (Fits 1 0 p) (cell (timer_init sec cs monotonic) p)
    none (near_at i) = tt
    none (level_at l i) = tt

    empty : (e : ℕ) (p : Place) → due e (cell (timer_init sec cs monotonic) p) ≡ []
    empty e (near_at i) = refl
    empty e (level_at l i) = refl

-- Requests, and then other events.
abbrev pub adds : List Request → List Event → List Event
adds [] events = events
adds (r ∷ rs) events = add r ∷ adds rs events

-- A row of ticks, each behind the requests that come in before it.
abbrev pub ticks : ℕ → (ℕ → Round) → List Event
ticks zero rounds = []
ticks (suc n) rounds =
    adds (rounds n).between (tick (rounds n).before (rounds n).after ∷ ticks n rounds)

pub record IsRound (round : Round) : Type 0 where
  pub between_ok : AllPositive round.between
  pub before_ok : AllWindows round.before
  pub after_ok : AllWindows round.after

run-adds :
    (rs : List Request) (T : Timer) (events : List Event)
    → run T (adds rs events) ≡ run (serve_requests T rs) events
unfolding serve_requests
run-adds [] T events = refl
run-adds (r ∷ rs) T events = run-adds rs (timer_add T r.to r.session r.time) events

update_all-run :
    (n : ℕ) (T : Timer) (rounds : ℕ → Round) → update_all n T rounds ≡ run T (ticks n rounds)
unfolding update_all
update_all-run zero T rounds = refl
update_all-run (suc n) T rounds =
    let T₁ = serve_requests T (rounds n).between in
    rw
      (
        run-adds (rounds n).between T (tick (rounds n).before (rounds n).after ∷ ticks n rounds),
        update_all-run n (timer_update T₁ (rounds n).before (rounds n).after).1 rounds,
      )
      refl

adds-AllOk :
    (rs : List Request) (events : List Event)
    → AllPositive rs
    → AllOk events
    → AllOk (adds rs events)
adds-AllOk [] events p ok = ok
adds-AllOk (r ∷ rs) events p ok = (p.0, adds-AllOk rs events p.1 ok)

ticks-AllOk : (n : ℕ) (rounds : ℕ → Round) → ((n : ℕ) → IsRound (rounds n)) → AllOk (ticks n rounds)
ticks-AllOk zero rounds ok = tt
ticks-AllOk (suc n) rounds ok =
    adds-AllOk (rounds n).between _ (ok n).between_ok
      ((ok n).before_ok, (ok n).after_ok, ticks-AllOk n rounds ok)

-- The clock readings are no part of the wheel.
other_clock :
    {T : Timer} {waiting : List Request} (point now : ℕ)
    → Represents T waiting
    → Represents (record T { current_point = point; current = now }) waiting
other_clock {T} {waiting} point now rep =
    let T' = record T { current_point = point; current = now } in
    record {
      valid = record { clock = rep.valid.clock; placed = λ p. here p (rep.valid.placed p) };
      positive = rep.positive;
      same = λ e. there e (place T.time e) ∙ rep.same e;
    }
  where
    here :
        (p : Place)
        → All (Fits 1 T.time p) (cell T p)
        → All (Fits 1 T.time p) (cell (record T { current_point = point; current = now }) p)
    here (near_at i) a = a
    here (level_at l i) a = a

    there :
        (e : ℕ) (p : Place)
        → due e (cell (record T { current_point = point; current = now }) p) ≡ due e (cell T p)
    there e (near_at i) = refl
    there e (level_at l i) = refl

-- What `skynet_updatetime` returns and leaves.
pub record Updates (T : Timer) (cp : ℕ) (sent : List (ℕ × Message)) (waiting : List Request)
    (r : List (ℕ × Message) × Timer) : Type 0 where
  pub messages : r.0 ≡ sent
  pub holds : Represents r.1 waiting
  pub point : r.1.current_point ≡ cp
  pub now : r.1.current ≡ (T.current + (cp - T.current_point)) % 2 ^ 64

-- If the clock reads `cp`, less than 2 ^ 31 centiseconds past the last reading, `skynet_updatetime` sends what
-- the countdowns ring in that many ticks, where other threads may add requests before and in each tick, and
-- keeps the rest; it sends nothing when the clock stands still or goes back. Afterwards `cp` is the last reading,
-- and `current` has grown by the centiseconds that have passed, modulo 2 ^ 64.
pub updatetime-countdown :
    (T : Timer) (waiting : List Request) (cp : ℕ) (rounds : ℕ → Round)
    → Represents T waiting
    → ((n : ℕ) → IsRound (rounds n))
    → T.current < 2 ^ 64
    → cp < T.current_point + 2 ^ 31
    → let spec = countdown waiting (ticks (cp - T.current_point) rounds) in
      (r : List (ℕ × Message) × Timer) × (updatetime T cp rounds ≡ some r)
      × Updates T cp spec.0 spec.1 r
unfolding updatetime
updatetime-countdown T waiting cp rounds rep ok small near =
    elim (Bool-cases (ltb cp T.current_point)) [
      | inl s ↦
          let none : cp - T.current_point ≡ 0 = omega (arith, (ltb_iff cp T.current_point).0 s) in
          rw (s, none)
            (
              ([], record T { current_point = cp }),
              refl,
              record {
                messages = refl;
                holds = other_clock cp T.current rep;
                point = refl;
                now = omega (arith, small);
              },
            )
      | inr s ↦ elim (Bool-cases (cp == T.current_point)) [
        | inl t ↦
            let same : cp ≡ T.current_point = (==_iff cp T.current_point).0 t in
            let none : cp - T.current_point ≡ 0 = omega (arith, same) in
            rw (s, t, none)
              (
                ([], T),
                refl,
                record {
                  messages = refl;
                  holds = rep;
                  point = sym same;
                  now = omega (arith, small);
                },
              )
        | inr t ↦
            let n = cp - T.current_point in
            let T' = record T { current_point = cp; current = (T.current + n) % 2 ^ 64 } in
            let diff : u32 n ≡ n = omega (arith, near) in
            let int : ltb n (2 ^ 31) ≡ true = ground (arith, s, near) in
            let (sent, agree) =
              run-countdown T' waiting (ticks n rounds)
                (other_clock cp ((T.current + n) % 2 ^ 64) rep) (ticks-AllOk n rounds ok) in
            let clock = update_all-SameReadings n T' rounds in
            let same = update_all-run n T' rounds in
            rw (s, t, diff, int)
              (
                update_all n T' rounds,
                refl,
                record {
                  messages = rw same sent;
                  holds = rw same agree;
                  point = clock.point;
                  now = clock.now;
                },
              )
      ]
    ]
