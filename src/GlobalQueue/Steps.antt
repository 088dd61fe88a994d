-- ===== src/GlobalQueue/Steps.antt =====
-- Each action on the queues of skynet_mq.c runs without a failed assertion and keeps the invariant,
-- so that in every reachable state each call that the threads can make returns.
use skynet_notes.Prelude.{
  ℕ, ◌+◌, ◌≤◌, ◌≡◌, refl, true, false, some, List, [], ◌∷◌, ◌++◌, Bool-cases, inl, inr, arith,
}
use skynet_notes.Mq.{Message, MessageQueue, put}
use skynet_notes.Mq.Valid.{Holds, put-Holds}
use skynet_notes.Mq.Refine.{pop-empty, pop_of_ne, popped_queue, popped-Holds, not_empty}
use skynet_notes.GlobalQueue.Monad.{World, update}
use skynet_notes.GlobalQueue.Linked.{count}
use skynet_notes.GlobalQueue.Invariant.{Inv}
use skynet_notes.GlobalQueue.System.{send, receive, retire, remove, act}
use skynet_notes.GlobalQueue.{mq_push, mq_pop, mark_release}
use skynet_notes.GlobalQueue.Places.{Placed, GlobalIs-write, count-remove, Inv-rewrite}
use skynet_notes.Mq.{mq_overload}
use skynet_notes.GlobalQueue.Monad.{◌>>=◌}
use skynet_notes.GlobalQueue.Places.{Holds-same, SameRing, Placed-flags}
use skynet_notes.GlobalQueue.Moves.{body-write, Returns, placed, held_outside, enter, stay}

module _ {w : World} {held ps : List ℕ} (inv : Inv w held ps) (p : ℕ) (q : MessageQueue)
    (here : w.cell p ≡ some q) where
  there : Placed q (count p ps + count p held)
  there = placed inv p q here

  pub retire-Inv : q.release ≡ false → Returns (act (retire p) w held)
  unfolding act mark_release
  retire-Inv alive =
      let n = there.claimed in
      elim (Bool-cases q.in_global) [
        | inl on ↦ (
          record w { cell = update w.cell p (some (record q { release = true })) },
          held,
          ps,
          ground arith,
          stay inv p q here new refl (Placed-flags new _ ring there (ground arith) (λ o. o)),
        )
        | inr off ↦
            let (w', run, i) =
              enter inv p q here new refl (ground arith)
                (Placed-flags new 1 ring there (ground arith) (λ o. o)) in
            (w', held, ps ++ p ∷ [], ground arith, i)
      ]
    where
      new : MessageQueue
      new = record q { release = true }

      ring : SameRing new q
      ring = (refl, refl, refl, refl)

  put-keeps :
      (m : Message)
      → ((put q m).next ≡ q.next)
        × ((put q m).in_global ≡ q.in_global)
        × ((put q m).release ≡ q.release)
  unfolding put
  put-keeps m = ground arith

  pub send-Inv : (m : Message) → q.release ≡ false → Returns (act (send p m) w held)
  unfolding act mq_push
  send-Inv m alive =
      let (same, flag, mark) = put-keeps m in
      let n = there.claimed in
      let filled = put-Holds m there.holds in
      elim (Bool-cases q.in_global) [
        | inl on ↦ (
          record w { cell = update w.cell p (some (put q m)) },
          held,
          ps,
          ground arith,
          stay inv p q here (put q m) same (record {
            claimed = ground arith;
            messages = there.messages ++ m ∷ [];
            holds = filled;
            idle = λ o. absurd (ground arith);
          }),
        )
        | inr off ↦
            let (w', run, i) =
              enter inv p q here (record (put q m) { in_global = true }) same (ground arith)
                (record {
                  claimed = ground arith;
                  messages = there.messages ++ m ∷ [];
                  holds = Holds-same _ (refl, refl, refl, refl) filled;
                  idle = λ o. cc o;
                }) in
            (w', held, ps ++ p ∷ [], ground arith, i)
      ]

  pop_empty-Inv :
      Holds q [] → q.release ≡ false → 1 ≤ count p held → Returns (act (receive p) w held)
  unfolding act mq_pop
  pop_empty-Inv h alive mine =
      let (run, left) = pop-empty h in
      let (out, claimed) = held_outside inv p q here mine in
      let n = there.claimed in
      let new = record q { overload_threshold = mq_overload; in_global = false } in
      (
        record w { cell = update w.cell p (some new) },
        remove p held,
        ps,
        rw (here, ◌>>=◌, run),
        Inv-rewrite p new inv (GlobalIs-write p q new inv.global here refl)
            (λ j. body-write w.cell p j new) (λ j apart. ground (arith, count-remove p j held mine))
            (record {
              claimed = ground (arith, count-remove p p held mine);
              messages = [];
              holds = Holds-same new (refl, refl, refl, refl) h;
              idle = λ _. refl;
            }),
      )

  pop_cons-Inv :
      (m : Message) (ms : List Message)
      → Holds q (m ∷ ms)
      → q.in_global ≡ true
      → Returns (act (receive p) w held)
  unfolding act mq_pop
  pop_cons-Inv m ms h on =
      let run = pop_of_ne q (not_empty h) in
      (
        record w { cell = update w.cell p (some (popped_queue q)) },
        held,
        ps,
        rw (here, ◌>>=◌, run),
        stay inv p q here (popped_queue q) refl (record {
          claimed = there.claimed;
          messages = ms;
          holds = popped-Holds h;
          idle = λ o. cc (o, on);
        }),
      )

  pub receive-Inv : q.release ≡ false → 1 ≤ count p held → Returns (act (receive p) w held)
  receive-Inv alive mine = by_messages there.messages there.holds
    where
      by_messages : (ms : List Message) → Holds q ms → Returns (act (receive p) w held)
      by_messages [] h = pop_empty-Inv h alive mine
      by_messages (m ∷ ms) h =
          let claimed = (held_outside inv p q here mine).1 in pop_cons-Inv m ms h (ground arith)
