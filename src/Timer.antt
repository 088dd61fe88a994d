-- ===== src/Timer.antt =====
-- skynet/skynet-src/skynet_timer.c: a hierarchical timer wheel, with 256 lists for the next ticks and
-- four levels of 64 lists for later ones. A `link_list` with its tail pointer is a list, oldest node
-- first; an array is a function, used at indices below its size only, which the masks ensure.
pub mod Division
pub mod Shift
pub mod Wheel
pub mod Calendar
pub mod Tick
pub mod Slot
pub mod Execute
pub mod Fire
pub mod Countdown
pub mod Readings
pub mod Clock
mod Tests
use skynet_notes.Prelude.{
  ℕ, zero, suc, ◌+◌, ◌-◌, ◌*◌, ◌/◌, ◌%◌, ◌^◌, Bool, true, false, ◌&&◌, Option, none, some, List, [],
  ◌∷◌, ◌++◌, map, ltb, leb, ◌==◌, if◌then◌else◌, bit_and, bit_or,
}
use skynet_notes.Mq.{Message}

-- `struct timer_node` with the `struct timer_event` that stands behind it in memory.
pub record Node : Type 0 where
  pub expire : ℕ
  pub handle : ℕ
  pub session : ℕ

-- Which list of `struct timer`: `near[i]`, or `t[i][j]`.
pub data Place : Type 0 where
  near_at : ℕ → Place
  level_at : ℕ → ℕ → Place

-- `struct timer`; `time` and `starttime` are 32 bits wide, the other two 64.
pub record Timer : Type 0 where
  pub near : ℕ → List Node
  pub t : ℕ → ℕ → List Node
  pub time : ℕ
  pub starttime : ℕ
  pub current : ℕ
  pub current_point : ℕ

abbrev pub time_near : ℕ
time_near = 256

abbrev pub time_level : ℕ
time_level = 64

abbrev pub u32 : ℕ → ℕ
u32 x = x % 2 ^ 32

abbrev pub same_place : Place → Place → Bool
same_place (near_at i) (near_at j) = i == j
same_place (level_at l i) (level_at m j) = (l == m) && (i == j)
same_place (near_at i) (level_at m j) = false
same_place (level_at l i) (near_at j) = false

abbrev pub cell : Timer → Place → List Node
cell T (near_at i) = T.near i
cell T (level_at l i) = T.t l i

abbrev pub set_cell : Timer → Place → List Node → Timer
set_cell T (near_at i) l = record T { near = λ j. if j == i then l else T.near j }
set_cell T (level_at m i) l = record T { t = λ k j. if (k == m) && (j == i) then l else T.t k j }

-- `link_clear`
unfoldable pub link_clear : Timer → Place → List Node × Timer
link_clear T p = (cell T p, set_cell T p [])

-- `link`
unfoldable pub link : Timer → Place → Node → Timer
link T p node = set_cell T p (cell T p ++ node ∷ [])

-- The `for` loop of `add_node` from `i` on, with `n` rounds left: the level it stops at.
unfoldable pub find_level : ℕ → ℕ → ℕ → ℕ → ℕ → ℕ
find_level zero time current mask i = i
find_level (suc n) time current mask i =
    let rest = find_level n time current (u32 (mask * 2 ^ 6)) (i + 1) in
    if bit_or time (mask - 1) == bit_or current (mask - 1) then i else rest

-- The list that `add_node` links to.
unfoldable pub place : ℕ → ℕ → Place
unfolding find_level
place current time =
    if bit_or time (time_near - 1) == bit_or current (time_near - 1)
    then near_at (bit_and time (time_near - 1))
    else let i = find_level 3 time current (time_near * 2 ^ 6) 0 in
      level_at i (bit_and (time / 2 ^ (8 + i * 6)) (time_level - 1))

-- `add_node`
unfoldable pub add_node : Timer → Node → Timer
unfolding link
add_node T node = link T (place T.time node.expire) node

-- `timer_add`
unfoldable pub timer_add : Timer → ℕ → ℕ → ℕ → Timer
timer_add T handle session time =
    add_node T (record { expire = u32 (time + T.time); handle = handle; session = session })

-- The loop of `move_list` over the nodes of the list that was cleared.
unfoldable pub add_all : Timer → List Node → Timer
add_all T [] = T
add_all T (node ∷ nodes) = add_all (add_node T node) nodes

-- `move_list`
unfoldable pub move_list : Timer → ℕ → ℕ → Timer
unfolding link_clear
move_list T level idx = let (nodes, T') = link_clear T (level_at level idx) in add_all T' nodes

-- The `while` loop of `timer_shift` on fuel; four rounds are enough for `ct` other than 0, since
-- `mask` then is 2 ^ 32 (see `Wheel`).
unfoldable pub shift_loop : ℕ → Timer → ℕ → ℕ → ℕ → ℕ → Timer
shift_loop zero T ct mask time i = T
shift_loop (suc fuel) T ct mask time i =
    let idx = bit_and time (time_level - 1) in
    let rest = shift_loop fuel T ct (mask * 2 ^ 6) (time / 2 ^ 6) (i + 1) in
    let body = if idx == 0 then rest else move_list T i idx in
    if bit_and ct (mask - 1) == 0 then body else T

-- `timer_shift`
unfoldable pub timer_shift : Timer → Timer
unfolding shift_loop
timer_shift T =
    let ct = u32 (T.time + 1) in
    let T' = record T { time = ct } in
    if ct == 0 then move_list T' 3 0 else shift_loop 4 T' ct time_near (ct / 2 ^ 8) 0

-- The message of `dispatch_list` and of `skynet_timeout`; PTYPE_RESPONSE is 1, in the high 8 bits.
unfoldable pub response : ℕ → Message
response session = record { source = 0; session = session; payload = 0; sz = 1 * 2 ^ 56 }

-- `dispatch_list`: the calls of `skynet_context_push`, in order
unfoldable pub dispatch_list : List Node → List (ℕ × Message)
unfolding response
dispatch_list [] = []
dispatch_list (node ∷ nodes) = (node.handle, response node.session) ∷ dispatch_list nodes

-- A call of `timer_add` by another thread: handle, session and time.
pub record Request : Type 0 where
  pub to : ℕ
  pub session : ℕ
  pub time : ℕ

unfoldable pub serve_requests : Timer → List Request → Timer
serve_requests T [] = T
serve_requests T (r ∷ rs) = serve_requests (timer_add T r.to r.session r.time) rs

abbrev pub is_empty : List Node → Bool
is_empty [] = true
is_empty (node ∷ nodes) = false

-- `timer_execute`. While a list is dispatched the lock is free: each element of the third argument
-- is what other threads add in one such window; in a further window none adds.
unfoldable pub timer_execute : Timer → List (List Request) → List (ℕ × Message) × Timer
unfolding link_clear
timer_execute T [] =
    let (nodes, T') = link_clear T (near_at (bit_and T.time (time_near - 1))) in
    (dispatch_list nodes, T')
timer_execute T (requests ∷ windows) =
    let (nodes, T') = link_clear T (near_at (bit_and T.time (time_near - 1))) in
    let rest = timer_execute (serve_requests T' requests) windows in
    if is_empty nodes then ([], T) else (dispatch_list nodes ++ rest.0, rest.1)

-- `timer_update`, with the windows of its two calls of `timer_execute`
unfoldable pub timer_update :
    Timer → List (List Request) → List (List Request) → List (ℕ × Message) × Timer
timer_update T before after =
    let (sent, T₁) = timer_execute T before in
    let (sent', T₂) = timer_execute (timer_shift T₁) after in (sent ++ sent', T₂)

-- `timer_create_timer`
unfoldable pub timer_create_timer : Timer
timer_create_timer = record {
  near = λ i. [];
  t = λ i j. [];
  time = 0;
  starttime = 0;
  current = 0;
  current_point = 0;
}

-- `skynet_timer_init`; `sec` and `cs` are what `systime` stores, `monotonic` is what `gettime` returns.
unfoldable pub timer_init : ℕ → ℕ → ℕ → Timer
unfolding timer_create_timer
timer_init sec cs monotonic = record timer_create_timer {
  starttime = sec;
  current = cs;
  current_point = monotonic;
}

-- One round of the `for` loop of `skynet_updatetime`: what other threads add before it, since the round before
-- it has given the lock back, and in the windows of its two dispatches.
pub record Round : Type 0 where
  pub between : List Request
  pub before : List (List Request)
  pub after : List (List Request)

-- The `for` loop of `skynet_updatetime`; the last argument gives the requests of each round.
unfoldable pub update_all : ℕ → Timer → (ℕ → Round) → List (ℕ × Message) × Timer
update_all zero T rounds = ([], T)
update_all (suc n) T rounds =
    let (sent, T') =
      timer_update (serve_requests T (rounds n).between) (rounds n).before (rounds n).after in
    let rest = update_all n T' rounds in (sent ++ rest.0, rest.1)

-- `skynet_updatetime` when `gettime` returns `cp`; none where the loop's `int i` does not reach `diff`.
unfoldable pub updatetime : Timer → ℕ → (ℕ → Round) → Option (List (ℕ × Message) × Timer)
updatetime T cp rounds =
    let diff = u32 (cp - T.current_point) in
    let T' = record T { current_point = cp; current = (T.current + diff) % 2 ^ 64 } in
    if ltb cp T.current_point
    then some ([], record T { current_point = cp })
    else if cp == T.current_point
    then some ([], T)
    else if ltb diff (2 ^ 31)
    then some (update_all diff T' rounds)
    else none
