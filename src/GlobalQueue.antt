-- ===== src/GlobalQueue.antt =====
-- skynet/skynet-src/skynet_mq.c, the part that works on the heap: the global queue of message
-- queues, linked through their `next` fields, and the functions that move a queue into it.
-- A function that runs under a spin lock is one step on the heap.
pub mod Monad
pub mod Linked
pub mod Order
pub mod System
pub mod Invariant
pub mod Places
pub mod Moves
pub mod Steps
pub mod Drop
pub mod Safety
mod Tests
use skynet_notes.Prelude.{
  ℕ, zero, suc, ◌+◌, Bool, true, false, Option, none, some, List, [], ◌∷◌, not, ◌==◌, if◌then◌else◌,
}
use skynet_notes.Mq.{Message, Slot, MessageQueue, create, pop, put, mq_length}
use Monad.{
  World, M, ◌>>=◌, ◌>>◌, return, assert, load, write, free, is_null, get_head, get_tail, set_head,
  set_tail,
}

-- `if (q->tail) { q->tail->next = queue; q->tail = queue; } else { q->head = q->tail = queue; }`
link_behind : ℕ → Option ℕ → M (Unit {0})
link_behind queue none = do set_tail (some queue); set_head (some queue)
link_behind queue (some last) = do
  t ← load last
  write last (record t { next = some queue })
  set_tail (some queue)

-- `skynet_globalmq_push`
unfoldable pub globalmq_push : ℕ → M (Unit {0})
unfolding link_behind
globalmq_push queue = do
  q ← load queue
  assert (is_null q.next)
  last ← get_tail
  link_behind queue last

same_address : ℕ → Option ℕ → Bool
same_address p none = false
same_address p (some t) = p == t

-- `if (q->head == NULL) { assert(mq == q->tail); q->tail = NULL; }`
clear_tail : ℕ → Option ℕ → M (Unit {0})
unfolding same_address
clear_tail mq none = do t ← get_tail; assert (same_address mq t); set_tail none
clear_tail mq (some _) = return tt

take_first : Option ℕ → M (Option ℕ)
unfolding clear_tail
take_first none = return none
take_first (some mq) = do
  q ← load mq
  set_head q.next
  clear_tail mq q.next
  q' ← load mq
  write mq (record q' { next = none })
  return (some mq)

-- `skynet_globalmq_pop`
unfoldable pub globalmq_pop : M (Option ℕ)
unfolding take_first
globalmq_pop = do mq ← get_head; take_first mq

-- `skynet_mq_push`; `put` is its part before the test of `in_global`
unfoldable pub mq_push : ℕ → Message → M (Unit {0})
mq_push p m = do
  q ← load p
  let q' = put q m
  if q'.in_global then write p q' else (write p (record q' { in_global = true }) >> globalmq_push p)

-- `skynet_mq_pop`, with its return value and `*message`
unfoldable pub mq_pop : ℕ → M (Bool × Slot)
mq_pop p = do q ← load p; let r = pop q; write p r.2; return (r.0, r.1)

-- `skynet_mq_mark_release`
unfoldable pub mark_release : ℕ → M (Unit {0})
mark_release p = do
  q ← load p
  assert (not q.release)
  write p (record q { release = true })
  if q.in_global then return tt else globalmq_push p

-- `while(!skynet_mq_pop(q, &msg)) drop_func(&msg, ud);` on fuel, with what `drop_func` is called on
unfoldable pub drain : ℕ → MessageQueue → List Slot × MessageQueue
drain zero q = ([], q)
drain (suc fuel) q =
    let (ret, m, q') = pop q in
    let rest = drain fuel q' in if ret then ([], q') else (m ∷ rest.0, rest.1)

-- `_drop_queue` with `_release`. One round more than the queue's length drains it.
unfoldable pub drop_queue : ℕ → M (List Slot)
drop_queue p = do
  q ← load p
  let r = drain (suc (mq_length q)) q
  write p r.1
  assert (is_null r.1.next)
  free p
  return r.0

-- `skynet_mq_release`, with the messages that were dropped
unfoldable pub mq_release : ℕ → M (List Slot)
mq_release p = do q ← load p; if q.release then drop_queue p else (globalmq_push p >> return [])
