-- ===== src/GlobalQueue/Safety.antt =====
-- What holds of the queues of skynet_mq.c in every reachable state, whatever the interleaving.
use mathlib.Core.Path.{subst}
use skynet_notes.Prelude.{
  ℕ, ◌+◌, ◌≤◌, ◌≡◌, ◌≢◌, refl, ◌∙◌, ap, Option, none, some, List, [], Bool-cases, inl, inr, length,
  arith,
}
use skynet_notes.Mq.{Message, MessageQueue, mq_length}
use skynet_notes.Mq.Refine.{mq_length-Holds}
use skynet_notes.GlobalQueue.Monad.{World}
use skynet_notes.GlobalQueue.Linked.{count, Linked}
use skynet_notes.GlobalQueue.Invariant.{Inv}
use skynet_notes.GlobalQueue.System.{
  Action, start, send, take, give_back, receive, retire, reap, init, act, Enabled, Reach, begin,
  next,
}
use skynet_notes.GlobalQueue.Places.{Inv-Placed, held_there}
use skynet_notes.GlobalQueue.Moves.{nowhere, Returns, start-Inv, take-Inv, give_back-Inv}
use skynet_notes.GlobalQueue.Steps.{retire-Inv, send-Inv, receive-Inv}
use skynet_notes.GlobalQueue.Drop.{reap-Inv}

init-Inv : Inv init [] []
init-Inv = record {
  global = record {
    linked = refl;
    tail_last = refl;
    once = λ p. omega arith;
    loose = λ p q e o. cc e;
  };
  queues = λ p. refl;
}

-- Every call that a thread can make returns, and keeps the invariant.
act-Inv :
    {w : World} {held ps : List ℕ} (a : Action)
    → Inv w held ps
    → Enabled a w held
    → Returns (act a w held)
act-Inv (start p handle) inv free = start-Inv inv p handle free
act-Inv (send p m) inv (q, here, alive) = send-Inv inv p q here m alive
act-Inv {ps = ps} take inv e = take-Inv inv ps refl
act-Inv {w} (give_back p) inv mine =
    let (q, here) = held_there (w.cell p) _ (inv.queues p) (omega arith) in
    give_back-Inv inv p q here mine
act-Inv (receive p) inv (mine, (q, here, alive)) = receive-Inv inv p q here alive mine
act-Inv (retire p) inv (q, here, alive) = retire-Inv inv p q here alive
act-Inv {w} (reap p) inv mine =
    let (q, here) = held_there (w.cell p) _ (inv.queues p) (omega arith) in
    reap-Inv inv p q here mine

same_result :
    {w' : World} {held' : List ℕ} {r : Option (World × List ℕ)}
    → Returns r
    → r ≡ some (w', held')
    → (ps' : List ℕ) × Inv w' held' ps'
same_result {w'} {held'} (w₁, held₁, ps₁, run, inv) e =
    let worlds : w₁ ≡ w' = cc in
    let lists : held₁ ≡ held' = cc in
    (ps₁, subst (λ h. Inv w' h ps₁) lists (subst (λ w. Inv w held₁ ps₁) worlds inv))

Reach-Inv : {w : World} {held : List ℕ} → Reach w held → (ps : List ℕ) × Inv w held ps
Reach-Inv begin = ([], init-Inv)
Reach-Inv (next a r e run) = let (ps, inv) = Reach-Inv r in same_result (act-Inv a inv e) run

-- In every reachable state each call that a thread can make returns: no assertion of
-- `skynet_globalmq_push`, `skynet_globalmq_pop`, `skynet_mq_mark_release` or `_release` fails, and
-- no pointer to a freed queue is used.
pub Reach-runs :
    {w : World} {held : List ℕ} (a : Action)
    → Reach w held
    → Enabled a w held
    → (w' : World) × (held' : List ℕ) × (act a w held ≡ some (w', held'))
Reach-runs a r e =
    let (ps, inv) = Reach-Inv r in
    let (w', held', ps', run, inv') = act-Inv a inv e in (w', held', run)

-- In every reachable state the global queue is a list that ends, and no queue is in two places: it
-- is not twice in the list, not with two threads, and not in the list and with a thread.
pub Reach-exclusive :
    {w : World} {held : List ℕ}
    → Reach w held
    → (ps : List ℕ) × Linked w.cell w.head ps × ((p : ℕ) → count p ps + count p held ≤ 1)
Reach-exclusive {w} {held} r =
    let (ps, inv) = Reach-Inv r in
    (ps, inv.global.linked, λ p. at_most_one ps inv p (w.cell p) refl)
  where
    at_most_one :
        (ps : List ℕ)
        → Inv w held ps
        → (p : ℕ) (v : Option MessageQueue) → w.cell p ≡ v
        → count p ps + count p held ≤ 1
    at_most_one ps inv p none e =
        omega (arith, nowhere (w.cell p) (count p ps + count p held) (inv.queues p) e)
    at_most_one ps inv p (some q) e = ground (arith, (Inv-Placed p q inv e).claimed)

-- In every reachable state a queue with messages is either once in the global queue or with exactly
-- one thread, so a message that was pushed stays within reach of a worker.
pub Reach-not_lost :
    {w : World} {held : List ℕ} (p : ℕ) (q : MessageQueue)
    → Reach w held
    → w.cell p ≡ some q
    → mq_length q ≢ 0
    → (ps : List ℕ) × Linked w.cell w.head ps × (count p ps + count p held ≡ 1)
Reach-not_lost p q r here waiting =
    let (ps, inv) = Reach-Inv r in
    let placed = Inv-Placed p q inv here in
    elim (Bool-cases q.in_global) [
      | inl on ↦ (ps, inv.global.linked, ground (arith, placed.claimed))
      | inr off ↦
          let empty : mq_length q ≡ 0 =
            mq_length-Holds placed.holds
            ∙ ap (λ (ms : List Message). length ms) (placed.idle off) in
          absurd (waiting empty)
    ]
