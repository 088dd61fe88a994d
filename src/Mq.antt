-- ===== src/Mq.antt =====
-- skynet/skynet-src/skynet_mq.c, the part that works on one `struct message_queue`: a ring of
-- messages that doubles when it is full, with an overload mark. `GlobalQueue` has the rest.
-- The spin lock makes each function one atomic step, so it has no state of its own here.
pub mod Fifo
pub mod Valid
pub mod Int
pub mod Refine
pub mod Overload
mod Tests
use skynet_notes.Prelude.{
  ℕ, zero, suc, ◌+◌, ◌-◌, ◌*◌, ◌%◌, Bool, true, false, Option, none, some, List, [], ◌∷◌, ◌++◌, ltb,
  leb, ◌==◌, if◌then◌else◌, get_or, set, replicate,
}
use skynet_notes.Prelude.Ring.{copy}

-- `struct skynet_message`; `data` is an address that the queue only carries.
pub record Message : Type 0 where
  pub source : ℕ
  pub session : ℕ
  pub payload : ℕ
  pub sz : ℕ

-- A slot of `q->queue`; `none` is memory that nothing was written to.
abbrev pub Slot : Type 0
Slot = Option Message

-- `struct message_queue`. `next` is an address, `none` for NULL; `release` and `in_global` hold
-- only 0 and 1 in the source.
pub record MessageQueue : Type 0 where
  pub handle : ℕ
  pub cap : ℕ
  pub head : ℕ
  pub tail : ℕ
  pub release : Bool
  pub in_global : Bool
  pub overload : ℕ
  pub overload_threshold : ℕ
  pub queue : List Slot
  pub next : Option ℕ

abbrev pub default_queue_size : ℕ
default_queue_size = 64

abbrev pub mq_overload : ℕ
mq_overload = 1024

-- `skynet_mq_create`
unfoldable pub create : ℕ → MessageQueue
create handle = record {
  handle = handle;
  cap = default_queue_size;
  head = 0;
  tail = 0;
  release = false;
  in_global = true;
  overload = 0;
  overload_threshold = mq_overload;
  queue = replicate default_queue_size none;
  next = none;
}

-- `skynet_mq_length`
unfoldable pub mq_length : MessageQueue → ℕ
mq_length q = if leb q.head q.tail then q.tail - q.head else q.tail + q.cap - q.head

-- `skynet_mq_overload`
unfoldable pub take_overload : MessageQueue → ℕ × MessageQueue
take_overload q = if q.overload == 0 then (0, q) else (q.overload, record q { overload = 0 })

-- `while (length > threshold) { overload = length; threshold *= 2; }` on fuel
unfoldable pub raise : ℕ → ℕ → ℕ → ℕ → ℕ × ℕ
raise zero length overload threshold = (overload, threshold)
raise (suc fuel) length overload threshold =
    let rest = raise fuel length length (threshold * 2) in
    if ltb threshold length then rest else (overload, threshold)

-- `q->head++`, reset at `cap`
unfoldable pub next_head : MessageQueue → ℕ
next_head q = if leb q.cap (q.head + 1) then 0 else q.head + 1

-- the local `length` of `skynet_mq_pop`: `tail - head`, plus `cap` where that is negative
unfoldable pub left_over : MessageQueue → ℕ
unfolding next_head
left_over q =
    let head = next_head q in if ltb q.tail head then q.tail + q.cap - head else q.tail - head

-- `skynet_mq_pop`: the return value (`true` for 1, no message), what is stored through `message`
-- and the queue. As many rounds as `length` are enough for `raise` (see `Overload`).
unfoldable pub pop : MessageQueue → Bool × Slot × MessageQueue
unfolding next_head left_over raise
pop q =
    if q.head == q.tail
    then (true, none, record q { overload_threshold = mq_overload; in_global = false })
    else let length = left_over q in
      let (overload, threshold) = raise length length q.overload q.overload_threshold in
      (
        false,
        get_or q.queue q.head none,
        record q { head = next_head q; overload = overload; overload_threshold = threshold },
      )

-- `skynet_mq_length` in ints; none where `tail + cap` is not one.
unfoldable pub length_int : MessageQueue → Option ℕ
length_int q =
    if leb q.head q.tail
    then some (q.tail - q.head)
    else if leb (q.tail + q.cap) 0x7fffffff
    then some (q.tail + q.cap - q.head)
    else none

-- The ring that `expand_queue` makes, of twice the slots. The upper half of `new_queue` is not written.
unfoldable pub doubled_ring : MessageQueue → MessageQueue
unfolding copy
doubled_ring q = record q {
  head = 0;
  tail = q.cap;
  cap = q.cap * 2;
  queue = copy q.queue q.cap q.head q.cap ++ replicate q.cap none;
}

-- `expand_queue`; none where `q->cap *= 2` overflows the int `cap`.
unfoldable pub expand_queue : MessageQueue → Option MessageQueue
unfolding doubled_ring
expand_queue q = if leb (q.cap * 2) 0x7fffffff then some (doubled_ring q) else none

-- `q->queue[q->tail] = *message; if (++ q->tail >= q->cap) q->tail = 0;`
unfoldable pub store : MessageQueue → Message → MessageQueue
store q m = record q {
  queue = set q.queue q.tail (some m);
  tail = if leb q.cap (q.tail + 1) then 0 else q.tail + 1;
}

-- `skynet_mq_push` up to its test of `in_global`; none where `expand_queue` overflows.
unfoldable pub put_int : MessageQueue → Message → Option MessageQueue
unfolding store expand_queue
put_int q m = let q' = store q m in if q'.head == q'.tail then expand_queue q' else some q'

-- The same where the int `cap` does not overflow.
unfoldable pub put : MessageQueue → Message → MessageQueue
unfolding store doubled_ring
put q m = let q' = store q m in if q'.head == q'.tail then doubled_ring q' else q'
