-- ===== src/Timer/Countdown.antt =====
-- The timer of skynet_timer.c against its abstract view: a list of countdowns in order of arrival.
use skynet_notes.Prelude.{
  ℕ, ◌+◌, ◌-◌, ◌≡◌, refl, sym, ap, ap₂, ◌∙◌, true, false, List, [], ◌∷◌, ◌++◌, ◌==◌, ==_iff,
  if◌then◌else◌, Bool-cases, ◌⊎◌, inl, inr, arith,
}
use skynet_notes.Mq.{Message}
use skynet_notes.Timer.{Node, Timer, u32, timer_add, dispatch_list, response, Request, timer_update}
use skynet_notes.Timer.Wheel.{due, pending, Inv, due-append}
use skynet_notes.Timer.Slot.{IsPositive, node_of, timer_add_lem}
use skynet_notes.Timer.Execute.{AllPositive, nodes_of, AllWindows, arrivals, due-now}
use skynet_notes.Timer.Fire.{timer_update_lem}

-- What happens to the timer between two ticks, or a tick with the windows of its two dispatches.
pub data Event : Type 0 where
  add : Request → Event
  tick : List (List Request) → List (List Request) → Event

-- The code's answers to a sequence of events: the messages it pushes, in order.
abbrev pub run : Timer → List Event → List (ℕ × Message) × Timer
run T [] = ([], T)
run T (add r ∷ events) = run (timer_add T r.to r.session r.time) events
run T (tick before after ∷ events) =
    let (sent, T') = timer_update T before after in
    let rest = run T' events in (sent ++ rest.0, rest.1)

-- The countdowns that end with this tick, and the others, one tick shorter.
abbrev pub ended : List Request → List Request
ended [] = []
ended (r ∷ rs) = if r.time == 1 then r ∷ ended rs else ended rs

abbrev pub running : List Request → List Request
running [] = []
running (r ∷ rs) = if r.time == 1 then running rs else record r { time = r.time - 1 } ∷ running rs

abbrev pub ring : List Request → List (ℕ × Message)
ring [] = []
ring (r ∷ rs) = (r.to, response r.session) ∷ ring rs

-- The abstract view: a tick rings for the countdowns that end, in the order they were started, and
-- requests that come in while it rings start behind the others.
abbrev pub countdown : List Request → List Event → List (ℕ × Message) × List Request
countdown waiting [] = ([], waiting)
countdown waiting (add r ∷ events) = countdown (waiting ++ r ∷ []) events
countdown waiting (tick before after ∷ events) =
    let now = ended waiting in
    let rest = countdown (running waiting ++ arrivals now after) events in
    (ring now ++ rest.0, rest.1)

abbrev pub AllOk : List Event → Type 0
AllOk [] = Unit {0}
AllOk (add r ∷ events) = IsPositive r.time × AllOk events
AllOk (tick before after ∷ events) = AllWindows before × AllWindows after × AllOk events

-- The wheel holds the countdowns, each in the list of its expiry time.
pub record Represents (T : Timer) (waiting : List Request) : Type 0 where
  pub valid : Inv 1 T
  pub positive : AllPositive waiting
  pub same : (e : ℕ) → pending T e ≡ due e (nodes_of T.time waiting)

nodes_of-append :
    (now : ℕ) (l m : List Request) → nodes_of now (l ++ m) ≡ nodes_of now l ++ nodes_of now m
nodes_of-append now [] m = refl
nodes_of-append now (r ∷ l) m = rw (nodes_of-append now l m)

AllPositive-append : (l m : List Request) → AllPositive l → AllPositive m → AllPositive (l ++ m)
AllPositive-append [] m a b = b
AllPositive-append (r ∷ l) m a b = (a.0, AllPositive-append l m a.1 b)

AllPositive-running : (l : List Request) → AllPositive l → AllPositive (running l)
AllPositive-running [] a = tt
AllPositive-running (r ∷ l) a = elim (Bool-cases (r.time == 1)) [
  | inl s ↦ rw s (AllPositive-running l a.1)
  | inr s ↦ rw s (ground (arith, ==_iff r.time 1, a.0), AllPositive-running l a.1)
]

-- A countdown ends with this tick when its node expires at the next time.
ends_iff : (now time : ℕ) → IsPositive time → (u32 (time + now) == u32 (now + 1)) ≡ (time == 1)
ends_iff now time p = ground (arith, ==_iff (u32 (time + now)) (u32 (now + 1)), ==_iff time 1)

dispatch_list-ended :
    (now : ℕ) (l : List Request)
    → AllPositive l
    → dispatch_list (due (u32 (now + 1)) (nodes_of now l)) ≡ ring (ended l)
unfolding dispatch_list
dispatch_list-ended now [] a = refl
dispatch_list-ended now (r ∷ l) a = rw (ends_iff now r.time a.0) (elim (Bool-cases (r.time == 1)) [
  | inl s ↦ rw s (
      ap (λ (m : List (ℕ × Message)). (r.to, response r.session) ∷ m)
        (dispatch_list-ended now l a.1))
  | inr s ↦ rw s (dispatch_list-ended now l a.1)
])

arrivals-ended :
    (now : ℕ) (l : List Request) (windows : List (List Request))
    → AllPositive l
    → arrivals (due (u32 (now + 1)) (nodes_of now l)) windows ≡ arrivals (ended l) windows
arrivals-ended now [] [] a = refl
arrivals-ended now [] (w ∷ ws) a = refl
arrivals-ended now (r ∷ l) windows a =
    rw (ends_iff now r.time a.0) (elim (Bool-cases (r.time == 1)) [
      | inl s ↦ rw s (
          one windows (node_of now r.to r.session r.time) (due (u32 (now + 1)) (nodes_of now l))
            (ended l))
      | inr s ↦ rw s (arrivals-ended now l windows a.1)
    ])
  where
    one :
        (ws : List (List Request)) (n : Node) (ns : List Node) (rs : List Request)
        → arrivals (n ∷ ns) ws ≡ arrivals (r ∷ rs) ws
    one [] n ns rs = refl
    one (w ∷ ws) n ns rs = refl

due-running :
    (now e : ℕ) (l : List Request)
    → AllPositive l
    → (if e == u32 (now + 1) then [] else due e (nodes_of now l))
      ≡ due e (nodes_of (u32 (now + 1)) (running l))
due-running now e [] a = ground arith
due-running now e (r ∷ l) a =
    let next = u32 (now + 1) in
    let rest = due-running now e l a.1 in
    elim (Bool-cases (r.time == 1)) [
      | inl s ↦
          let same : u32 (r.time + now) ≡ next = (==_iff _ _).0 (ends_iff now r.time a.0 ∙ s) in
          rw (s, same) (later_only _ (due e (nodes_of now l)) rest)
      | inr s ↦
          let after : u32 (r.time - 1 + next) ≡ u32 (r.time + now) = ground (arith, a.0) in
          let other = ends_iff now r.time a.0 ∙ s in
          rw (s, after) (keep_first _ _ _ (Bool-cases (e == next)) other rest)
    ]
  where
    later_only :
        (n : Node) (m : List Node) {k : List Node}
        → (if e == u32 (now + 1) then [] else m) ≡ k
        → (if e == u32 (now + 1) then [] else if u32 (now + 1) == e then n ∷ m else m) ≡ k
    later_only n m h = ground (arith, ==_iff e (u32 (now + 1)), ==_iff (u32 (now + 1)) e)

    keep_first :
        (c : ℕ) (n : Node) (m : List Node) {k : List Node}
        → (e == u32 (now + 1) ≡ true) ⊎ (e == u32 (now + 1) ≡ false)
        → (c == u32 (now + 1)) ≡ false
        → (if e == u32 (now + 1) then [] else m) ≡ k
        → (if e == u32 (now + 1) then [] else if c == e then n ∷ m else m)
          ≡ (if c == e then n ∷ k else k)
    keep_first c n m (inl s) other rest =
        let same : e ≡ u32 (now + 1) = (==_iff e (u32 (now + 1))).0 s in
        let off : (c == e) ≡ false = ap (λ x. c == x) same ∙ other in rw (s, off) (rw s at rest)
    keep_first c n m (inr s) other rest = let same = rw s at rest in rw (s, same) refl

AllPositive-arrivals :
    {A : Type 0} (l : List A) (windows : List (List Request))
    → AllWindows windows
    → AllPositive (arrivals l windows)
AllPositive-arrivals l [] ok = tt
AllPositive-arrivals [] (w ∷ ws) ok = tt
AllPositive-arrivals (x ∷ l) (w ∷ ws) ok = ok.0

-- Emptying the slot of a time before or behind the arrivals that are not due then.
empty_first :
    (e next : ℕ) (l m : List Node)
    → (e ≡ next → m ≡ [])
    → (if e == next then [] else l ++ m) ≡ (if e == next then [] else l) ++ m
empty_first e next l m none = elim (Bool-cases (e == next)) [
  | inl s ↦ rw (s, none ((==_iff e next).0 s)) refl
  | inr s ↦ rw s refl
]

-- A tick leaves the countdowns that did not end, and those that came in.
tick-Represents :
    {T : Timer} {waiting : List Request} (before after : List (List Request))
    → Represents T waiting
    → AllWindows before
    → AllWindows after
    → let r = timer_update T before after in
      (r.0 ≡ ring (ended waiting))
      × Represents r.1 (running waiting ++ arrivals (ended waiting) after)
tick-Represents {T} {waiting} before after rep ok₁ ok₂ =
    let next = u32 (T.time + 1) in
    let came = arrivals (ended waiting) after in
    let update = timer_update_lem T before after rep.valid ok₁ ok₂ in
    let waits = AllPositive-arrivals (ended waiting) after ok₂ in
    let same_arrivals : arrivals (pending T next) after ≡ came =
      ap (λ (l : List Node). arrivals l after) (rep.same next)
      ∙ arrivals-ended T.time waiting after rep.positive in
    let not_now : (e : ℕ) → e ≡ next → due e (nodes_of next came) ≡ [] =
      λ e s. ap (λ x. due x (nodes_of next came)) s ∙ due-now next came (omega arith) waits in
    (
      update.sent
          ∙ ap dispatch_list (rep.same next)
          ∙ dispatch_list-ended T.time waiting rep.positive,
      record {
        valid = update.valid;
        positive =
            AllPositive-append (running waiting) came (AllPositive-running waiting rep.positive)
              waits;
        same = λ e.
            update.waiting e
            ∙ ap₂
                (λ (l : List Node) (m : List Request).
                  if e == next then [] else l ++ due e (nodes_of next m))
                (rep.same e) same_arrivals
            ∙ empty_first e next (due e (nodes_of T.time waiting)) (due e (nodes_of next came))
                (not_now e)
            ∙ ap (λ (l : List Node). l ++ due e (nodes_of next came))
                (due-running T.time e waiting rep.positive)
            ∙ sym (due-append e (nodes_of next (running waiting)) (nodes_of next came))
            ∙ ap (due e) (sym (nodes_of-append next (running waiting) came))
            ∙ ap (λ c. due e (nodes_of c (running waiting ++ came))) (sym update.clock);
      },
    )

-- From a wheel that holds a list of countdowns, whatever requests (of 1 to 2 ^ 31 - 1 ticks) and ticks
-- follow, the code sends the same messages in the same order as the list of countdowns, and holds the
-- same countdowns behind it: none is lost, early, late or twice, also across the wrap of the clock.
pub run-countdown :
    (T : Timer) (waiting : List Request) (events : List Event)
    → Represents T waiting
    → AllOk events
    → ((run T events).0 ≡ (countdown waiting events).0)
      × Represents (run T events).1 (countdown waiting events).1
run-countdown T waiting [] rep ok = (refl, rep)
run-countdown T waiting (add r ∷ events) rep ok =
    let (valid, clock, put) = timer_add_lem r.to r.session r.time rep.valid (omega arith) ok.0 in
    run-countdown (timer_add T r.to r.session r.time) (waiting ++ r ∷ []) events
      (record {
        valid = valid;
        positive = AllPositive-append waiting (r ∷ []) rep.positive (ok.0, tt);
        same = λ e.
            put e
            ∙ ap (λ (l : List Node). l ++ due e (nodes_of T.time (r ∷ []))) (rep.same e)
            ∙ sym (due-append e (nodes_of T.time waiting) (nodes_of T.time (r ∷ [])))
            ∙ ap (due e) (sym (nodes_of-append T.time waiting (r ∷ [])))
            ∙ ap (λ c. due e (nodes_of c (waiting ++ r ∷ []))) (sym clock);
      })
      ok.1
run-countdown T waiting (tick before after ∷ events) rep ok =
    let (ok₁, ok₂, ok₃) = ok in
    let (sent, rep') = tick-Represents before after rep ok₁ ok₂ in
    let (rest, agree) = run-countdown (timer_update T before after).1 _ events rep' ok₃ in
    (ap₂ (λ (a b : List (ℕ × Message)). a ++ b) sent rest, agree)
