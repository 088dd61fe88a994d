-- ===== src/Timer/Fire.antt =====
-- `timer_update` of skynet_timer.c: what one tick sends and leaves.
use skynet_notes.Prelude.{
  ℕ, ◌+◌, ◌≡◌, sym, ap, ap₂, ◌∙◌, List, [], ◌++◌, append-nil, ◌==◌, ==_iff, if◌then◌else◌,
  Bool-cases, inl, inr,
}
use skynet_notes.Mq.{Message}
use skynet_notes.Timer.{
  Node, Timer, u32, timer_shift, dispatch_list, Request, timer_execute, timer_update,
}
use skynet_notes.Timer.Wheel.{due, pending, Inv}
use skynet_notes.Timer.Tick.{timer_shift_lem}
use skynet_notes.Timer.Slot.{pending-now, weaken}
use skynet_notes.Timer.Execute.{nodes_of, AllWindows, arrivals, no_arrivals, timer_execute-Executed}

-- What `timer_update` sends, and the calendar behind it.
pub record Updated (T : Timer) (l : List Node) (r : List (ℕ × Message) × Timer) : Type 0 where
  pub sent : r.0 ≡ dispatch_list (pending T (u32 (T.time + 1)))
  pub valid : Inv 1 r.1
  pub clock : r.1.time ≡ u32 (T.time + 1)
  pub waiting :
      (e : ℕ) → pending r.1 e ≡ (if e == u32 (T.time + 1) then [] else pending T e ++ due e l)

-- The first call of `timer_execute` finds nothing.
idle_execute :
    (T : Timer) (windows : List (List Request))
    → Inv 1 T
    → AllWindows windows
    → let r = timer_execute T windows in
      (r.0 ≡ []) × Inv 1 r.1 × (r.1.time ≡ T.time) × ((e : ℕ) → pending r.1 e ≡ pending T e)
unfolding dispatch_list
idle_execute T windows inv ok =
    let quiet = pending-now inv in
    let x = timer_execute-Executed T windows (weaken inv) ok in
    let none_came : arrivals (pending T T.time) windows ≡ [] = rw quiet (no_arrivals windows) in
    (
      x.sent ∙ ap dispatch_list quiet,
      x.valid,
      x.same_time,
      λ e.
          let came = ap (λ (l : List Request). due e (nodes_of T.time l)) none_came in
          x.waiting e
          ∙ rw came (elim (Bool-cases (e == T.time)) [
            | inl s ↦
                let now : e ≡ T.time = (==_iff e T.time).0 s in
                rw s (sym (ap (pending T) now ∙ quiet))
            | inr s ↦ rw (s, append-nil)
          ]),
    )

-- From a wheel in order with nothing due now, `timer_update` sends the messages of exactly the nodes
-- that expire at the next time, in the order of their arrival; the clock is one further, the wheel is
-- again in order with nothing due, and every other node waits on, followed by those that other
-- threads add while the messages are sent.
pub timer_update_lem :
    (T : Timer) (before after : List (List Request))
    → Inv 1 T
    → AllWindows before
    → AllWindows after
    → let next = u32 (T.time + 1) in
      Updated T (nodes_of next (arrivals (pending T next) after)) (timer_update T before after)
unfolding timer_update
timer_update_lem T before after inv ok₁ ok₂ =
    let r₁ = timer_execute T before in
    let T₂ = timer_shift r₁.1 in
    let (silent, valid, clock, same) = idle_execute T before inv ok₁ in
    let (ticked, ready, kept) = timer_shift_lem valid in
    let x = timer_execute-Executed T₂ after ready ok₂ in
    let now : T₂.time ≡ u32 (T.time + 1) = ticked ∙ ap (λ c. u32 (c + 1)) clock in
    let waits : (e : ℕ) → pending T₂ e ≡ pending T e = λ e. kept e ∙ same e in
    let here : pending T₂ T₂.time ≡ pending T (u32 (T.time + 1)) =
      waits T₂.time ∙ ap (pending T) now in
    record {
      sent = ap₂ (λ (a b : List (ℕ × Message)). a ++ b) silent (x.sent ∙ ap dispatch_list here);
      valid = x.valid;
      clock = x.same_time ∙ now;
      waiting = λ e.
          x.waiting e
          ∙ ap₂
              (λ (c : ℕ) (l : List Node).
                if e == c
                then []
                else l ++ due e (nodes_of c (arrivals (pending T₂ T₂.time) after)))
              now (waits e)
          ∙ ap
              (λ (l : List Node).
                if e == u32 (T.time + 1)
                then []
                else pending T e ++ due e (nodes_of (u32 (T.time + 1)) (arrivals l after)))
              here;
    }
