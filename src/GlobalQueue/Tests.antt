-- ===== src/GlobalQueue/Tests.antt =====
-- Runs of the functions of skynet_mq.c on a heap with one or two queues, and the theorems at them.
use skynet_notes.Prelude.{ℕ, ◌+◌, ◌≤◌, ◌≡◌, ◌≢◌, refl, true, none, some, List, [], ◌∷◌, arith}
use skynet_notes.Mq.{Message, MessageQueue, create, put, mq_length}
use skynet_notes.Mq.Valid.{Holds, create-Holds, put-Holds}
use skynet_notes.GlobalQueue.Monad.{World, update}
use skynet_notes.GlobalQueue.Linked.{count, Linked, GlobalIs, body}
use skynet_notes.GlobalQueue.Order.{globalmq_push_lem, globalmq_pop_lem}
use skynet_notes.GlobalQueue.System.{start, send, reap, init, act, Reach, begin, next}
use skynet_notes.GlobalQueue.Drop.{mq_release_lem}
use skynet_notes.GlobalQueue.Safety.{Reach-runs, Reach-exclusive, Reach-not_lost}
use skynet_notes.GlobalQueue.{globalmq_push, globalmq_pop, mq_push, drain, mq_release}

abbrev hello : Message
hello = record { source = 1; session = 5; payload = 0; sz = 8 }

abbrev created : World
created = record init { cell = update init.cell 7 (some (create 1)) }

abbrev filled : World
filled = record created { cell = update created.cell 7 (some (put (create 1) hello)) }

Reach-created : Reach created (7 ∷ [])
unfolding act
Reach-created = next (start 7 1) begin refl refl

Reach-filled : Reach filled (7 ∷ [])
unfolding act mq_push create put
Reach-filled = next (send 7 hello) Reach-created (create 1, refl, refl) refl

Reach-runs_example :
    (w' : World) × (held' : List ℕ) × (act (reap 7) filled (7 ∷ []) ≡ some (w', held'))
Reach-runs_example = Reach-runs (reap 7) Reach-filled (omega arith)

Reach-exclusive_example :
    (ps : List ℕ) × Linked filled.cell filled.head ps
    × ((p : ℕ) → count p ps + count p (7 ∷ []) ≤ 1)
Reach-exclusive_example = Reach-exclusive Reach-filled

waiting : mq_length (put (create 1) hello) ≢ 0
unfolding mq_length put create
waiting e = absurd (omega arith)

Reach-not_lost_example :
    (ps : List ℕ) × Linked filled.cell filled.head ps × (count 7 ps + count 7 (7 ∷ []) ≡ 1)
Reach-not_lost_example = Reach-not_lost 7 (put (create 1) hello) Reach-filled refl waiting

-- a queue alone on the heap, in no list
created-GlobalIs : GlobalIs created []
unfolding create
created-GlobalIs = record {
  linked = refl;
  tail_last = refl;
  once = λ p. omega arith;
  loose = λ p q e o. ground arith;
}

globalmq_push_lem_example :
    (w' : World) × (globalmq_push 7 created ≡ some (tt, w'))
    × GlobalIs w' (7 ∷ [])
    × ((j : ℕ) → body w' j ≡ body created j)
globalmq_push_lem_example = globalmq_push_lem [] 7 (create 1) created-GlobalIs refl refl

globalmq_pop_lem_example :
    (w' : World) × (globalmq_pop globalmq_push_lem_example.0 ≡ some (some 7, w'))
    × GlobalIs w' []
    × ((j : ℕ) → body w' j ≡ body globalmq_push_lem_example.0 j)
globalmq_pop_lem_example = globalmq_pop_lem 7 [] globalmq_push_lem_example.2

abbrev marked : MessageQueue
marked = record (put (create 1) hello) { release = true }

marked-Holds : Holds marked (hello ∷ [])
marked-Holds =
    let h = put-Holds hello (create-Holds 1) in
    record {
      sized = h.sized;
      head_in = h.head_in;
      room = h.room;
      window = h.window;
      tail_at = h.tail_at;
    }

mq_release_lem_example :
    let w = record init { cell = update init.cell 7 (some marked) } in
    let left = (drain (mq_length marked + 1) marked).1 in
    mq_release 7 w
    ≡ some (some hello ∷ [], record w { cell = update (update w.cell 7 (some left)) 7 none })
unfolding put create mq_length
mq_release_lem_example =
    mq_release_lem (record init { cell = update init.cell 7 (some marked) }) 7 marked (hello ∷ [])
      refl refl refl marked-Holds
