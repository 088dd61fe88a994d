-- ===== src/Timer/Readings.antt =====
-- The wheel of skynet_timer.c and the readings of the clock: nothing that the wheel does changes them.
use skynet_notes.Prelude.{
  ℕ, zero, suc, ◌+◌, ◌-◌, ◌^◌, ◌*◌, ◌/◌, ◌≡◌, refl, ◌∙◌, List, [], ◌∷◌, ◌==◌, bit_and, either,
}
use skynet_notes.Mq.{Message}
use skynet_notes.Timer.{
  Node, Place, near_at, level_at, Timer, u32, time_near, time_level, cell, set_cell, link_clear,
  link, add_node, timer_add, add_all, move_list, shift_loop, timer_shift, Request, serve_requests,
  is_empty, timer_execute, timer_update, Round, update_all,
}

-- The readings of two timers are the same.
pub record SameReadings (T T' : Timer) : Type 0 where
  pub point : T'.current_point ≡ T.current_point
  pub now : T'.current ≡ T.current

SameReadings-refl : (T : Timer) → SameReadings T T
SameReadings-refl T = record { point = refl; now = refl }

SameReadings-trans :
    {T₁ T₂ T₃ : Timer} → SameReadings T₁ T₂ → SameReadings T₂ T₃ → SameReadings T₁ T₃
SameReadings-trans a b = record { point = b.point ∙ a.point; now = b.now ∙ a.now }

set_cell-SameReadings : (T : Timer) (p : Place) (l : List Node) → SameReadings T (set_cell T p l)
set_cell-SameReadings T (near_at i) l = record { point = refl; now = refl }
set_cell-SameReadings T (level_at m i) l = record { point = refl; now = refl }

add_node-SameReadings : (T : Timer) (node : Node) → SameReadings T (add_node T node)
unfolding add_node link
add_node-SameReadings T node = set_cell-SameReadings T _ _

add_all-SameReadings : (T : Timer) (nodes : List Node) → SameReadings T (add_all T nodes)
unfolding add_all
add_all-SameReadings T [] = SameReadings-refl T
add_all-SameReadings T (node ∷ nodes) =
    SameReadings-trans (add_node-SameReadings T node) (add_all-SameReadings (add_node T node) nodes)

move_list-SameReadings : (T : Timer) (level idx : ℕ) → SameReadings T (move_list T level idx)
unfolding move_list link_clear
move_list-SameReadings T level idx =
    SameReadings-trans (set_cell-SameReadings T (level_at level idx) []) (add_all-SameReadings _ _)

shift_loop-SameReadings :
    (fuel : ℕ) (T : Timer) (ct mask time i : ℕ) → SameReadings T (shift_loop fuel T ct mask time i)
unfolding shift_loop
shift_loop-SameReadings zero T ct mask time i = SameReadings-refl T
shift_loop-SameReadings (suc fuel) T ct mask time i =
    let idx = bit_and time (time_level - 1) in
    either (SameReadings T) (bit_and ct (mask - 1) == 0)
      (λ e.
        either (SameReadings T) (idx == 0)
          (λ f. shift_loop-SameReadings fuel T ct (mask * 2 ^ 6) (time / 2 ^ 6) (i + 1))
          (λ f. move_list-SameReadings T i idx))
      (λ e. SameReadings-refl T)

timer_shift-SameReadings : (T : Timer) → SameReadings T (timer_shift T)
unfolding timer_shift
timer_shift-SameReadings T =
    let ct = u32 (T.time + 1) in
    let T' = record T { time = ct } in
    let moved : SameReadings T T' = record { point = refl; now = refl } in
    either (SameReadings T) (ct == 0)
      (λ e. SameReadings-trans moved (move_list-SameReadings T' 3 0))
      (λ e. SameReadings-trans moved (shift_loop-SameReadings 4 T' ct time_near (ct / 2 ^ 8) 0))

serve_requests-SameReadings : (rs : List Request) (T : Timer) → SameReadings T (serve_requests T rs)
unfolding serve_requests timer_add
serve_requests-SameReadings [] T = SameReadings-refl T
serve_requests-SameReadings (r ∷ rs) T =
    let node : Node = record {
      expire = u32 (r.time + T.time);
      handle = r.to;
      session = r.session;
    } in
    SameReadings-trans (add_node-SameReadings T node)
      (serve_requests-SameReadings rs (timer_add T r.to r.session r.time))

timer_execute-SameReadings :
    (windows : List (List Request)) (T : Timer) → SameReadings T (timer_execute T windows).1
unfolding timer_execute link_clear
timer_execute-SameReadings [] T =
    set_cell-SameReadings T (near_at (bit_and T.time (time_near - 1))) []
timer_execute-SameReadings (requests ∷ windows) T =
    let p = near_at (bit_and T.time (time_near - 1)) in
    let T' = set_cell T p [] in
    either (λ (r : List (ℕ × Message) × Timer). SameReadings T r.1) (is_empty (cell T p))
      (λ e. SameReadings-refl T)
      (λ e. SameReadings-trans (set_cell-SameReadings T p []) (
        SameReadings-trans (serve_requests-SameReadings requests T')
          (timer_execute-SameReadings windows (serve_requests T' requests))))

timer_update-SameReadings :
    (T : Timer) (before after : List (List Request))
    → SameReadings T (timer_update T before after).1
unfolding timer_update
timer_update-SameReadings T before after =
    SameReadings-trans (timer_execute-SameReadings before T) (
      SameReadings-trans (timer_shift-SameReadings (timer_execute T before).1)
        (timer_execute-SameReadings after (timer_shift (timer_execute T before).1)))

pub update_all-SameReadings :
    (n : ℕ) (T : Timer) (rounds : ℕ → Round) → SameReadings T (update_all n T rounds).1
unfolding update_all
update_all-SameReadings zero T rounds = SameReadings-refl T
update_all-SameReadings (suc n) T rounds =
    let T₁ = serve_requests T (rounds n).between in
    SameReadings-trans (serve_requests-SameReadings (rounds n).between T) (
      SameReadings-trans (timer_update-SameReadings T₁ (rounds n).before (rounds n).after)
        (update_all-SameReadings n (timer_update T₁ (rounds n).before (rounds n).after).1 rounds))
