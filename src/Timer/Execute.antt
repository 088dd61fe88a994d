-- ===== src/Timer/Execute.antt =====
-- `timer_execute` of skynet_timer.c on the calendar, with what other threads add while it sends.
use skynet_notes.Prelude.{
  ℕ, ◌^◌, ◌<◌, ◌≡◌, refl, sym, ap, ap₂, ◌∙◌, List, [], ◌∷◌, ◌++◌, append-nil, append_assoc, ◌==◌,
  ==_iff, if◌then◌else◌, Bool-cases, inl, inr, arith,
}
use skynet_notes.Mq.{Message}
use skynet_notes.Timer.{
  Node, Timer, same_place, timer_add, dispatch_list, Request, serve_requests, is_empty,
  timer_execute,
}
use skynet_notes.Timer.Wheel.{due, pending, Inv, due-append, same_place_iff, cell-set_cell}
use skynet_notes.Timer.Slot.{
  IsPositive, node_of, timer_add_lem, slot, slot-pending, cleared, cleared-Inv, pending-cleared,
  pending-now, weaken, left-add,
}

abbrev pub AllPositive : List Request → Type 0
AllPositive [] = Unit {0}
AllPositive (r ∷ rs) = IsPositive r.time × AllPositive rs

abbrev pub nodes_of : ℕ → List Request → List Node
nodes_of now [] = []
nodes_of now (r ∷ rs) = node_of now r.to r.session r.time ∷ nodes_of now rs

-- What the requests of other threads do to the calendar.
pub record Served (T : Timer) (l : List Node) (T' : Timer) : Type 0 where
  pub valid : Inv 1 T'
  pub same_time : T'.time ≡ T.time
  pub waiting : (e : ℕ) → pending T' e ≡ pending T e ++ due e l

pub serve_requests-Served :
    (T : Timer) (rs : List Request)
    → Inv 1 T
    → AllPositive rs
    → Served T (nodes_of T.time rs) (serve_requests T rs)
unfolding serve_requests
serve_requests-Served T [] inv ok = record {
  valid = inv;
  same_time = refl;
  waiting = λ e. sym (append-nil (pending T e));
}
serve_requests-Served T (r ∷ rs) inv ok =
    let T₁ = timer_add T r.to r.session r.time in
    let node = node_of T.time r.to r.session r.time in
    let (inv', time, add) = timer_add_lem r.to r.session r.time inv (omega arith) ok.0 in
    let rest = serve_requests-Served T₁ rs inv' ok.1 in
    record {
      valid = rest.valid;
      same_time = rest.same_time ∙ time;
      waiting = λ e.
          rest.waiting e
          ∙ ap₂ (λ (l : List Node) (c : ℕ). l ++ due e (nodes_of c rs)) (add e) time
          ∙ append_assoc (pending T e) (due e (node ∷ [])) (due e (nodes_of T.time rs))
          ∙ ap (λ (l : List Node). pending T e ++ l)
              (sym (due-append e (node ∷ []) (nodes_of T.time rs)));
    }

abbrev pub AllWindows : List (List Request) → Type 0
AllWindows [] = Unit {0}
AllWindows (w ∷ ws) = AllPositive w × AllWindows ws

-- The requests that are served: a window opens only if there is something to send.
abbrev pub arrivals : {A : Type 0} → List A → List (List Request) → List Request
arrivals l [] = []
arrivals [] (w ∷ ws) = []
arrivals (n ∷ l) (w ∷ ws) = w

-- What `timer_execute` sends, and the calendar behind it.
pub record Executed (T : Timer) (l : List Node) (r : List (ℕ × Message) × Timer) : Type 0 where
  pub sent : r.0 ≡ dispatch_list (pending T T.time)
  pub valid : Inv 1 r.1
  pub same_time : r.1.time ≡ T.time
  pub waiting : (e : ℕ) → pending r.1 e ≡ (if e == T.time then [] else pending T e ++ due e l)

-- A positive time does not lead back to now.
pub due-now :
    (now : ℕ) (rs : List Request) → now < 2 ^ 32 → AllPositive rs → due now (nodes_of now rs) ≡ []
due-now now [] h ok = refl
due-now now (r ∷ rs) h ok = ground (arith, due-now now rs, left-add now r.time, ok.0)

pub no_arrivals : (ws : List (List Request)) → arrivals {A = Node} [] ws ≡ []
no_arrivals [] = refl
no_arrivals (w ∷ ws) = refl

-- With nothing in the slot every node is ahead already.
idle-Inv : {T : Timer} → Inv 0 T → pending T T.time ≡ [] → Inv 1 T
idle-Inv {T} inv none_now = record {
  clock = inv.clock;
  placed = λ q. elim (Bool-cases (same_place q (slot T))) [
    | inl h ↦
        let s : q ≡ slot T = (same_place_iff q (slot T)).0 h in
        rw (s, slot-pending inv, none_now) tt
    | inr h ↦
        let kept = (cleared-Inv inv).placed q in
        rw h at (rw (cell-set_cell T (slot T) q []) at kept)
  ];
}

-- Emptying the slot, then the arrivals, then emptying the slot again.
both_steps :
    {now now' : ℕ} (e : ℕ) {kept first more : List Node} (rest l : List Node)
    → now' ≡ now
    → more ≡ []
    → kept ≡ first ++ l
    → first ≡ (if e == now then [] else rest)
    → (if e == now' then [] else kept ++ more) ≡ (if e == now then [] else rest ++ l)
both_steps {now} {now'} e {kept} {first} {more} rest l t m k f =
    rw (t, m, k, f) (elim (Bool-cases (e == now)) [ inl s ↦ rw s | inr s ↦ rw (s, append-nil) ])

-- The rest of the loop behind a window: nothing more is sent.
Executed-again :
    (T T₂ : Timer) (rs : List Request) (ws : List (List Request)) (r : List (ℕ × Message) × Timer)
    → Inv 0 T
    → Served (cleared T) (nodes_of T.time rs) T₂
    → Executed T₂ (nodes_of T₂.time (arrivals (pending T₂ T₂.time) ws)) r
    → Executed T (nodes_of T.time rs) (dispatch_list (pending T T.time) ++ r.0, r.1)
unfolding dispatch_list
Executed-again T T₂ rs ws r inv sv ih =
    let quiet = pending-now sv.valid in
    let silent : r.0 ≡ [] = ih.sent ∙ ap dispatch_list quiet in
    let none_came : arrivals (pending T₂ T₂.time) ws ≡ [] = rw quiet (no_arrivals ws) in
    record {
      sent = rw (silent, append-nil);
      valid = ih.valid;
      same_time = ih.same_time ∙ sv.same_time;
      waiting = λ e.
          ih.waiting e
          ∙ both_steps e (pending T e) (due e (nodes_of T.time rs)) sv.same_time
              (ap (λ (l : List Request). due e (nodes_of T₂.time l)) none_came) (sv.waiting e)
              (pending-cleared inv e);
    }

pub timer_execute-Executed :
    (T : Timer) (windows : List (List Request))
    → Inv 0 T
    → AllWindows windows
    → Executed T (nodes_of T.time (arrivals (pending T T.time) windows)) (timer_execute T windows)
unfolding timer_execute
timer_execute-Executed T [] inv ok = record {
  sent = ap dispatch_list (slot-pending inv);
  valid = cleared-Inv inv;
  same_time = refl;
  waiting = λ e. rw append-nil (pending-cleared inv e);
}
timer_execute-Executed T (w ∷ ws) inv ok =
    let sv = serve_requests-Served (cleared T) w (cleared-Inv inv) ok.0 in
    let T₂ = serve_requests (cleared T) w in
    let ih = timer_execute-Executed T₂ ws (weaken sv.valid) ok.1 in
    rw (slot-pending inv)
      (by_slot (pending T T.time) (timer_execute T₂ ws) refl (Executed-again T T₂ w ws _ inv sv ih))
  where
    by_slot :
        (l : List Node) (r : List (ℕ × Message) × Timer)
        → pending T T.time ≡ l
        → Executed T (nodes_of T.time w) (dispatch_list (pending T T.time) ++ r.0, r.1)
        → Executed T
            (nodes_of T.time (arrivals l (w ∷ ws)))
            (if is_empty l then ([], T) else (dispatch_list l ++ r.0, r.1))
    by_slot [] r e again = record {
      sent = unfold dispatch_list in rw e;
      valid = idle-Inv inv e;
      same_time = refl;
      waiting = λ x. elim (Bool-cases (x == T.time)) [
        | inl s ↦ let now : x ≡ T.time = (==_iff x T.time).0 s in rw s (ap (pending T) now ∙ e)
        | inr s ↦ rw (s, append-nil)
      ];
    }
    by_slot (n ∷ l) r e again = rw e at again
