-- ===== src/Mq/Refine.antt =====
-- skynet_mq.c as a first-in first-out queue: what each function does to the messages held.
use native.Mathlib.Nat.{mod-eq_of_lt, mod-eq-sub-mod, mod-add-mod, mod-mod, mod-lt, add-zero}
use native.Mathlib.Decide.{dec_lt}
use skynet_notes.Prelude.{
  ℕ, ◌+◌, ◌-◌, ◌%◌, ◌^◌, ◌<◌, length-append, ◌≡◌, ◌≢◌, refl, ap, ◌∙◌, sym, true, false, none, some,
  Bool-cases, inl, inr, List, [], ◌∷◌, map, arith, length, get_or, ◌==◌, ==_iff,
}
use skynet_notes.Prelude.Ring.{copy, full_iff, copy-congr}
use skynet_notes.Mq.Valid.{Holds, wrap_step, put-Holds}
use skynet_notes.Mq.Int.{IsRingSize, length_int-Holds, put_int-Holds, pop-cap}
use skynet_notes.Mq.Fifo.{pushes, Op, push_op, pop_op, length_op, Reply, pushed, run, serve}
use skynet_notes.Mq.{
  Message, MessageQueue, mq_overload, mq_length, next_head, left_over, raise, pop,
}

Holds-empty : {q : MessageQueue} → Holds q [] → q.head ≡ q.tail
Holds-empty {q} h = sym (mod-eq_of_lt h.head_in) ∙ rw (add-zero) at h.tail_at

-- `skynet_mq_pop` on an empty queue returns 1, writes no message, sets the overload threshold back
-- to 1024, takes the queue out of the global queue's books and leaves it empty.
pub pop-empty :
    {q : MessageQueue}
    → Holds q []
    → (pop q ≡ (true, none, record q { overload_threshold = mq_overload; in_global = false }))
      × Holds (pop q).2 []
unfolding pop copy
pop-empty {q} h =
    let e = (==_iff q.head q.tail).1 (Holds-empty h) in
    (
      rw e,
      rw e (record {
        sized = h.sized;
        head_in = h.head_in;
        room = h.room;
        window = refl;
        tail_at = h.tail_at;
      }),
    )

pub not_empty :
    {q : MessageQueue} {m : Message} {ms : List Message} → Holds q (m ∷ ms) → q.head ≢ q.tail
not_empty {q} {m} {ms} h e = absurd (
    omega (
      arith,
      h.room,
      (full_iff q.head (length ms) q.cap h.head_in (omega arith)).0 (h.tail_at ∙ sym e),
    ))

-- The queue behind the `if` of `skynet_mq_pop`.
abbrev pub popped_queue : MessageQueue → MessageQueue
popped_queue q =
    let length = left_over q in
    let (overload, threshold) = raise length length q.overload q.overload_threshold in
    record q { head = next_head q; overload = overload; overload_threshold = threshold }

pub pop_of_ne :
    (q : MessageQueue)
    → q.head ≢ q.tail
    → pop q ≡ (false, get_or q.queue q.head none, popped_queue q)
unfolding pop
pop_of_ne q h = elim (Bool-cases (q.head == q.tail)) [
  | inl e ↦ absurd (h ((==_iff q.head q.tail).0 e))
  | inr e ↦ rw e
]

oldest :
    {q : MessageQueue} {m : Message} {ms : List Message}
    → Holds q (m ∷ ms)
    → (get_or q.queue q.head none ≡ some m)
      × (copy q.queue q.cap (q.head + 1) (length ms) ≡ map some ms)
unfolding copy
oldest {q} h = let w = rw (mod-eq_of_lt h.head_in) at h.window in (cc w, cc w)

pub popped-Holds :
    {q : MessageQueue} {m : Message} {ms : List Message}
    → Holds q (m ∷ ms)
    → Holds (popped_queue q) ms
unfolding next_head
popped-Holds {q} {m} {ms} h =
    let turn = wrap_step q.head q.cap h.head_in in
    record {
      sized = h.sized;
      head_in = rw turn (mod-lt _ (omega arith));
      room = omega arith;
      window = rw turn (
          copy-congr q.queue q.cap ((q.head + 1) % q.cap) (q.head + 1) (length ms)
            (mod-mod (q.head + 1) q.cap)
          ∙ (oldest h).1);
      tail_at = rw turn (
          mod-add-mod (q.head + 1) q.cap (length ms)
          ∙ ap (λ (k : ℕ). k % q.cap) (omega arith)
          ∙ h.tail_at);
    }

-- `skynet_mq_pop` on a queue that is not empty returns 0 with the oldest message, and leaves the
-- others in their order.
pub pop-cons :
    {q : MessageQueue} {m : Message} {ms : List Message}
    → Holds q (m ∷ ms)
    → let (ret, x, q') = pop q in (ret ≡ false) × (x ≡ some m) × Holds q' ms
pop-cons {q} h = rw (pop_of_ne q (not_empty h)) (refl, (oldest h).0, popped-Holds h)

pub mq_length-Holds : {q : MessageQueue} {ms : List Message} → Holds q ms → mq_length q ≡ length ms
unfolding mq_length
mq_length-Holds {q} {ms} h = elim (dec_lt (q.head + length ms) q.cap) [
  | yes p ↦ ground (arith, h.tail_at, mod-eq_of_lt p)
  | no p ↦ ground (
    arith,
    h.tail_at,
    mod-eq-sub-mod {n = q.head + length ms} {m = q.cap} (omega arith),
    mod-eq_of_lt {n = q.head + length ms - q.cap} {m = q.cap} (omega arith),
  )
]

-- A sequence of calls on a queue that holds `ms` is answered as the unbounded first-in first-out list `ms`
-- answers it, if doubling takes the capacity to 2 ^ 30, and the messages of `ms` and those pushed are together
-- less than 2 ^ 30: no int overflows then.
pub run_refines :
    (ops : List Op) {q : MessageQueue} {ms : List Message}
    → Holds q ms
    → IsRingSize q.cap
    → length ms + pushes ops < 2 ^ 30
    → run q ops ≡ serve ms ops
unfolding run serve
run_refines [] h s b = refl
run_refines (push_op m ∷ ops) {ms = ms} h s b =
    let (put_now, s') = put_int-Holds m h (omega arith) s in
    rw put_now (
      ap (λ (r : List Reply). pushed ∷ r)
        (run_refines ops (put-Holds m h) s' (omega (arith, b, length-append ms (m ∷ [])))))
run_refines (pop_op ∷ ops) {q} {ms = []} h s b =
    let (e, rest) = pop-empty h in rw (run_refines ops rest (rw (pop-cap q) s) b, e)
run_refines (pop_op ∷ ops) {q} {ms = m ∷ ms} h s b =
    let (ret, x, rest) = pop-cons h in
    rw (run_refines ops rest (rw (pop-cap q) s) (omega (arith, b)), ret, x)
run_refines (length_op ∷ ops) {ms = []} h s b =
    rw (length_int-Holds h s, mq_length-Holds h, run_refines ops h s b)
run_refines (length_op ∷ ops) {ms = m ∷ ms} h s b =
    rw (length_int-Holds h s, mq_length-Holds h, run_refines ops h s b)
