-- ===== src/Mq/Fifo.antt =====
-- The abstract view of a message queue: the messages in the order of their arrival.
use skynet_notes.Prelude.{
  ℕ, suc, Bool, true, false, Option, none, some, List, [], ◌∷◌, ◌++◌, length,
}
use skynet_notes.Mq.{Message, Slot, MessageQueue, length_int, pop, put_int}

-- What a caller does with one queue.
pub data Op : Type 0 where
  push_op : Message → Op
  pop_op : Op
  length_op : Op

-- What it sees: nothing, the return value with the message, a number.
pub data Reply : Type 0 where
  pushed : Reply
  popped : Bool → Slot → Reply
  counted : ℕ → Reply
  overflow : Reply

-- Where an int overflows the run ends.
abbrev pub after_push : Option MessageQueue → (MessageQueue → List Reply) → List Reply
after_push none rest = overflow ∷ []
after_push (some q) rest = pushed ∷ rest q

abbrev pub after_length : Option ℕ → List Reply → List Reply
after_length none rest = overflow ∷ []
after_length (some n) rest = counted n ∷ rest

-- How many messages are pushed.
abbrev pub pushes : List Op → ℕ
pushes [] = 0
pushes (push_op m ∷ ops) = suc (pushes ops)
pushes (pop_op ∷ ops) = pushes ops
pushes (length_op ∷ ops) = pushes ops

-- The functions of skynet_mq.c in the order of the calls.
unfoldable pub run : MessageQueue → List Op → List Reply
run q [] = []
run q (push_op m ∷ ops) = after_push (put_int q m) (λ q'. run q' ops)
run q (pop_op ∷ ops) = let (ret, m, q') = pop q in popped ret m ∷ run q' ops
run q (length_op ∷ ops) = after_length (length_int q) (run q ops)

-- The same calls on an unbounded first-in first-out list.
unfoldable pub serve : List Message → List Op → List Reply
serve ms [] = []
serve ms (push_op m ∷ ops) = pushed ∷ serve (ms ++ m ∷ []) ops
serve [] (pop_op ∷ ops) = popped true none ∷ serve [] ops
serve (m ∷ ms) (pop_op ∷ ops) = popped false (some m) ∷ serve ms ops
serve ms (length_op ∷ ops) = counted (length ms) ∷ serve ms ops
