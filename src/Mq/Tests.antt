-- ===== src/Mq/Tests.antt =====
-- Runs of the ring of skynet_mq.c, and the theorems at them.
use skynet_notes.Prelude.{ℕ, ◌≡◌, refl, true, false, none, some, List, [], ◌∷◌, arith}
use skynet_notes.Prelude.Ring.{copy}
use skynet_notes.Mq.{
  Message, MessageQueue, create, length_int, mq_overload, pop, put, put_int, raise,
}
use skynet_notes.Mq.Int.{doubled-IsRingSize}
use skynet_notes.Mq.Valid.{Holds, put-Holds}
use skynet_notes.Mq.Fifo.{Op, push_op, pop_op, length_op, pushed, popped, counted, run, serve}
use skynet_notes.Mq.Refine.{pop-empty, pop-cons, run_refines}

abbrev letter : ℕ → Message
letter n = record { source = n; session = 0; payload = 0; sz = 0 }

-- a ring of two slots: the second message fills it, and it doubles
abbrev small : MessageQueue
small = record (create 1) { cap = 2; queue = none ∷ none ∷ [] }

small-Holds : Holds small []
unfolding create copy
small-Holds = record {
  sized = refl;
  head_in = omega arith;
  room = omega arith;
  window = refl;
  tail_at = refl;
}

abbrev script : List Op
script =
    push_op (letter 1)
    ∷ push_op (letter 2)
    ∷ push_op (letter 3)
    ∷ length_op
    ∷ pop_op
    ∷ pop_op
    ∷ pop_op
    ∷ pop_op
    ∷ []

run-small :
    run small script
    ≡ pushed
      ∷ pushed
      ∷ pushed
      ∷ counted 3
      ∷ popped false (some (letter 1))
      ∷ popped false (some (letter 2))
      ∷ popped false (some (letter 3))
      ∷ popped true none
      ∷ []
unfolding run create length_int pop put_int copy raise
run-small = refl

run_refines_example : run small script ≡ serve [] script
run_refines_example = run_refines script small-Holds (doubled-IsRingSize 29 2 refl) (omega arith)

pop-empty_example :
    (pop small ≡ (true, none, record small { overload_threshold = mq_overload; in_global = false }))
    × Holds (pop small).2 []
pop-empty_example = pop-empty small-Holds

abbrev one : MessageQueue
one = put small (letter 1)

one-Holds : Holds one (letter 1 ∷ [])
one-Holds = put-Holds (letter 1) small-Holds

pop-cons_example : let (ret, x, q') = pop one in (ret ≡ false) × (x ≡ some (letter 1)) × Holds q' []
pop-cons_example = pop-cons one-Holds

put-Holds_example : Holds (put one (letter 2)) (letter 1 ∷ letter 2 ∷ [])
put-Holds_example = put-Holds (letter 2) one-Holds
