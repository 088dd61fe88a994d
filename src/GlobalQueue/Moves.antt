-- ===== src/GlobalQueue/Moves.antt =====
-- Actions on the queues of skynet_mq.c that move a queue, and the two ways to rewrite one: each runs
-- without a failed assertion and keeps the invariant.
use mathlib.Core.Option
use mathlib.Core.Path.{subst}
use skynet_notes.Prelude.{
  ℕ, ◌+◌, ◌≤◌, ◌≡◌, refl, sym, ◌∙◌, Option, none, some, List, [], ◌∷◌, ◌++◌, ◌==◌, if◌then◌else◌,
  arith,
}
use skynet_notes.Mq.{MessageQueue, create}
use skynet_notes.Mq.Valid.{create-Holds}
use skynet_notes.GlobalQueue.Monad.{World, update}
use skynet_notes.GlobalQueue.Linked.{Cells, count, unlink, update_self, count-snoc}
use skynet_notes.GlobalQueue.Order.{globalmq_push_lem, globalmq_pop_lem, globalmq_pop_empty}
use skynet_notes.GlobalQueue.Invariant.{claim, QueueInv, Inv}
use skynet_notes.GlobalQueue.System.{start, take, give_back, remove, act}
use skynet_notes.GlobalQueue.{globalmq_push}
use skynet_notes.GlobalQueue.Places.{
  Placed, Inv-Placed, GlobalIs-write, GlobalIs-outside, count-remove, Inv-move, Inv-rewrite,
}

-- The call returns, and the invariant holds behind it.
abbrev pub Returns : Option (World × List ℕ) → Type 0
Returns r =
    (w' : World) × (held' : List ℕ) × (ps' : List ℕ) × (r ≡ some (w', held')) × Inv w' held' ps'

-- Nothing points to an address where nothing is.
pub nowhere :
    (v : Option MessageQueue) (n : ℕ) → QueueInv (Option.map unlink v) n → v ≡ none → n ≡ 0
nowhere none n h e = h
nowhere (some q) n h e = cc

pub body-write :
    (c : Cells) (p j : ℕ) (new : MessageQueue)
    → Option.map unlink (update c p (some new) j)
      ≡ (if j == p then some (unlink new) else Option.map unlink (c j))
body-write c p j new = ground arith

module _ {w : World} {held ps : List ℕ} (inv : Inv w held ps) where
  pub start-Inv : (p handle : ℕ) → w.cell p ≡ none → Returns (act (start p handle) w held)
  unfolding act create
  start-Inv p handle free =
      let empty = nowhere (w.cell p) _ (inv.queues p) free in
      (
        record w { cell = update w.cell p (some (create handle)) },
        p ∷ held,
        ps,
        refl,
        Inv-rewrite p (create handle) inv
            (GlobalIs-outside p _ inv.global (omega arith) (λ q e. ground arith))
            (λ j. body-write w.cell p j (create handle)) (λ j apart. ground arith)
            (record {
              claimed = ground arith;
              messages = [];
              holds = create-Holds handle;
              idle = λ _. refl;
            }),
      )

  pub take-Inv : (qs : List ℕ) → ps ≡ qs → Returns (act take w held)
  unfolding act
  take-Inv [] e = (w, held, ps, rw (globalmq_pop_empty (rw e at inv.global)), inv)
  take-Inv (p ∷ qs) e =
      let (w', run, g, same) = globalmq_pop_lem p qs (rw e at inv.global) in
      (w', p ∷ held, qs, rw run, Inv-move inv g same (λ j. rw e (omega arith)))

  -- A queue that some thread holds is there, and not in the global queue.
  module _ (p : ℕ) (q : MessageQueue) (here : w.cell p ≡ some q) where
    pub placed : Placed q (count p ps + count p held)
    placed = Inv-Placed p q inv here

    pub held_outside : 1 ≤ count p held → (count p ps ≡ 0) × (claim q ≡ 1)
    held_outside h = ground (arith, placed.claimed)

    -- The held queue goes behind the global queue.
    pub push_back :
        1 ≤ count p held
        → (w' : World) × (globalmq_push p w ≡ some (tt, w')) × Inv w' (remove p held) (ps ++ p ∷ [])
    push_back h =
        let (w', run, g, same) = globalmq_push_lem ps p q inv.global here (held_outside h).0 in
        (
          w',
          run,
          Inv-move inv g same (λ j. omega (arith, count-snoc j p ps, count-remove p j held h)),
        )

    pub give_back-Inv : 1 ≤ count p held → Returns (act (give_back p) w held)
    unfolding act
    give_back-Inv h = let (w', run, i) = push_back h in (w', remove p held, ps ++ p ∷ [], rw run, i)

    -- `p` is rewritten to `new` and goes behind the global queue.
    pub enter :
        (new : MessageQueue)
        → new.next ≡ q.next
        → claim q ≡ 0
        → Placed new 1
        → let w₁ = record w { cell = update w.cell p (some new) } in
          (w' : World) × (globalmq_push p w₁ ≡ some (tt, w')) × Inv w' held (ps ++ p ∷ [])
    enter new same idle there =
        let n = placed.claimed in
        let moved : count p (ps ++ p ∷ []) + count p held ≡ 1 = ground (arith, count-snoc p p ps) in
        let (w', run, g, rest) =
          globalmq_push_lem ps p new (GlobalIs-write p q new inv.global here same)
            (update_self w.cell p (some new)) (omega arith) in
        (
          w',
          run,
          Inv-rewrite p new inv g (λ j. rest j ∙ body-write w.cell p j new)
              (λ j apart. ground (arith, count-snoc j p ps)) (subst (Placed new) (sym moved) there),
        )

    -- `p` is rewritten to `new` and stays where it is.
    pub stay :
        (new : MessageQueue)
        → new.next ≡ q.next
        → Placed new (count p ps + count p held)
        → Inv (record w { cell = update w.cell p (some new) }) held ps
    stay new same there =
        Inv-rewrite p new inv (GlobalIs-write p q new inv.global here same)
          (λ j. body-write w.cell p j new) (λ j _. refl) there
