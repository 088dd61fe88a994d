-- ===== src/GlobalQueue/System.antt =====
-- The threads of a node as they use the queues of skynet_mq.c (skynet_server.c: the creation of a
-- context, `skynet_context_push`, `skynet_context_message_dispatch`, `delete_context`). Each action
-- is one call under a lock; any interleaving of the threads is a sequence of actions.
use skynet_notes.Prelude.{
  ℕ, ◌≤◌, ◌≡◌, Bool, true, false, Option, none, some, List, [], ◌∷◌, ◌==◌, if◌then◌else◌,
}
use skynet_notes.Mq.{Message, MessageQueue, create}
use skynet_notes.GlobalQueue.Monad.{World, update}
use skynet_notes.GlobalQueue.Linked.{count}
use skynet_notes.GlobalQueue.{
  globalmq_push, globalmq_pop, mq_push, mq_pop, mark_release, mq_release,
}

-- `skynet_mq_init`
abbrev pub init : World
init = record { cell = λ _. none; head = none; tail = none }

pub data Action : Type 0 where
  -- `skynet_mq_create` at a fresh address
  start : ℕ → ℕ → Action
  -- `skynet_mq_push`
  send : ℕ → Message → Action
  -- a worker's `skynet_globalmq_pop`
  take : Action
  -- `skynet_globalmq_push` by the thread that holds the queue
  give_back : ℕ → Action
  -- a worker's `skynet_mq_pop`; with no message it lets the queue go
  receive : ℕ → Action
  -- `skynet_mq_mark_release` by `delete_context`
  retire : ℕ → Action
  -- `skynet_mq_release` by a worker that finds no context for the queue
  reap : ℕ → Action

abbrev pub remove : ℕ → List ℕ → List ℕ
remove p [] = []
remove p (x ∷ xs) = if x == p then xs else x ∷ remove p xs

abbrev pub then_hold {ℓ} :
    {A : Type ℓ} → Option (A × World) → (A → List ℕ) → Option (World × List ℕ)
then_hold none f = none
then_hold (some (a, w)) f = some (w, f a)

abbrev pub keep_or_drop : ℕ → Bool → List ℕ → List ℕ
keep_or_drop p true held = remove p held
keep_or_drop p false held = held

abbrev pub hold_found : Option ℕ → List ℕ → List ℕ
hold_found none held = held
hold_found (some p) held = p ∷ held

-- One action on the heap and on the list `held` of the queues that some thread has taken out of the
-- global queue or has just created; `none` is a failed assertion or a bad pointer.
unfoldable pub act : Action → World → List ℕ → Option (World × List ℕ)
act (start p handle) w held =
    some (record w { cell = update w.cell p (some (create handle)) }, p ∷ held)
act (send p m) w held = then_hold (mq_push p m w) (λ _. held)
act take w held = then_hold (globalmq_pop w) (λ found. hold_found found held)
act (give_back p) w held = then_hold (globalmq_push p w) (λ _. remove p held)
act (receive p) w held = then_hold (mq_pop p w) (λ r. keep_or_drop p r.0 held)
act (retire p) w held = then_hold (mark_release p w) (λ _. held)
act (reap p) w held = then_hold (mq_release p w) (λ _. remove p held)

-- A queue whose context is alive: the reference that the caller has keeps it so.
abbrev pub IsAlive : World → ℕ → Type 0
IsAlive w p = (q : MessageQueue) × (w.cell p ≡ some q) × (q.release ≡ false)

-- When the code makes the call: a thread gives back, serves or reaps only what it holds, and goes
-- through a live context to send, to receive or to delete it.
abbrev pub Enabled : Action → World → List ℕ → Type 0
Enabled (start p handle) w held = w.cell p ≡ none
Enabled (send p m) w held = IsAlive w p
Enabled take w held = Unit {0}
Enabled (give_back p) w held = 1 ≤ count p held
Enabled (receive p) w held = (1 ≤ count p held) × IsAlive w p
Enabled (retire p) w held = IsAlive w p
Enabled (reap p) w held = 1 ≤ count p held

-- The states of a node that began with `init` and no queue held.
pub data Reach : World → List ℕ → Type 0 where
  begin : Reach init []
  next :
      {w w' : World} {held held' : List ℕ} (a : Action)
      → Reach w held
      → Enabled a w held
      → act a w held ≡ some (w', held')
      → Reach w' held'
