-- ===== src/GlobalQueue/Drop.antt =====
-- `skynet_mq_release` of skynet_mq.c: the messages it drops, and what it leaves.
use mathlib.Core.Option
use skynet_notes.Prelude.{
  ℕ, zero, suc, ◌≤◌, ◌<◌, ◌≡◌, refl, ◌∙◌, ap, true, false, none, some, List, [], ◌∷◌, ◌++◌, ◌==◌,
  Bool-cases, inl, inr, map, length, arith,
}
use skynet_notes.Mq.{Message, MessageQueue, pop, mq_length}
use skynet_notes.Mq.Valid.{Holds}
use skynet_notes.Mq.Refine.{pop-empty, pop-cons, mq_length-Holds}
use skynet_notes.GlobalQueue.Monad.{World, update}
use skynet_notes.GlobalQueue.Linked.{count, unlink, update_ne, update_self}
use skynet_notes.GlobalQueue.Invariant.{Inv, Inv-at}
use skynet_notes.GlobalQueue.System.{reap, remove, act}
use skynet_notes.GlobalQueue.Places.{GlobalIs-outside, count-remove}
use skynet_notes.GlobalQueue.Moves.{Returns, placed, held_outside, push_back}
use skynet_notes.GlobalQueue.{drain, drop_queue, mq_release}

next-pop : (q : MessageQueue) → (pop q).2.next ≡ q.next
unfolding pop
next-pop q = elim (Bool-cases (q.head == q.tail)) [ inl e ↦ rw e | inr e ↦ rw e ]

next-drain : (fuel : ℕ) (q : MessageQueue) → (drain fuel q).1.next ≡ q.next
unfolding drain
next-drain zero q = refl
next-drain (suc fuel) q = elim (Bool-cases (pop q).0) [
  | inl e ↦ rw e (next-pop q)
  | inr e ↦ rw e (next-drain fuel (pop q).2 ∙ next-pop q)
]

-- With more fuel than messages every message is dropped, oldest first.
drain-Holds :
    (fuel : ℕ) (q : MessageQueue) (ms : List Message)
    → Holds q ms
    → length ms < fuel
    → (drain fuel q).0 ≡ map some ms
unfolding drain
drain-Holds zero q ms h lt = absurd (omega arith)
drain-Holds (suc fuel) q [] h lt = rw ((pop-empty h).0)
drain-Holds (suc fuel) q (m ∷ ms) h lt =
    let (ret, x, rest) = pop-cons h in rw (ret, x, drain-Holds fuel (pop q).2 ms rest (omega arith))

-- `skynet_mq_release` of a queue that is marked and in no list drops exactly the messages that it
-- holds, oldest first, passes its assertion, and frees the queue; no other queue changes.
pub mq_release_lem :
    (w : World) (p : ℕ) (q : MessageQueue) (ms : List Message)
    → w.cell p ≡ some q
    → q.release ≡ true
    → q.next ≡ none
    → Holds q ms
    → let left = (drain (suc (mq_length q)) q).1 in
      mq_release p w
      ≡ some (map some ms, record w { cell = update (update w.cell p (some left)) p none })
unfolding mq_release drop_queue
mq_release_lem w p q ms here marked null h =
    let enough : length ms < suc (mq_length q) = rw (mq_length-Holds h) (omega arith) in
    let dropped = drain-Holds (suc (mq_length q)) q ms h enough in
    let last : (drain (suc (mq_length q)) q).1.next ≡ none = next-drain _ q ∙ null in ground arith

module _ {w : World} {held ps : List ℕ} (inv : Inv w held ps) (p : ℕ) (q : MessageQueue)
    (here : w.cell p ≡ some q) (mine : 1 ≤ count p held) where
  out : count p ps ≡ 0
  out = (held_outside inv p q here mine).0

  free_Inv : q.release ≡ true → Returns (act (reap p) w held)
  unfolding act
  free_Inv marked =
      let there = placed inv p q here in
      let null = inv.global.loose p q here out in
      let run = mq_release_lem w p q there.messages here marked null there.holds in
      let once = there.claimed in
      let left = (drain (suc (mq_length q)) q).1 in
      let last : left.next ≡ none = next-drain (suc (mq_length q)) q ∙ null in
      let written = GlobalIs-outside p (some left) inv.global out (λ r e. ground arith) in
      (
        record w { cell = update (update w.cell p (some left)) p none },
        remove p held,
        ps,
        rw run,
        Inv-at p inv (GlobalIs-outside p none written out (λ r e. cc e))
            (λ j apart. ap (Option.map unlink) (
              update_ne (update w.cell p (some left)) p j none apart
              ∙ update_ne w.cell p j (some left) apart))
            (λ j apart. ground (arith, count-remove p j held mine))
            (rw (update_self (update w.cell p (some left)) p none)
              (ground (arith, (held_outside inv p q here mine).1, count-remove p p held mine))),
      )

  unmarked_Inv : q.release ≡ false → Returns (act (reap p) w held)
  unfolding act mq_release
  unmarked_Inv alive =
      let (w', run, i) = push_back inv p q here mine in
      (w', remove p held, ps ++ p ∷ [], ground arith, i)

  pub reap-Inv : Returns (act (reap p) w held)
  reap-Inv = elim (Bool-cases q.release) [ inl e ↦ free_Inv e | inr e ↦ unmarked_Inv e ]
