-- ===== src/GlobalQueue/Order.antt =====
-- `skynet_globalmq_push` and `skynet_globalmq_pop` of skynet_mq.c as operations on the list of queues.
use mathlib.Core.Option
use skynet_notes.Prelude.{
  ℕ, ◌≡◌, ◌≢◌, refl, sym, ◌∙◌, ap, Option, none, some, List, [], ◌∷◌, ◌++◌, ◌==◌, ==_iff,
  if◌then◌else◌, Bool-cases, inl, inr, arith,
}
use skynet_notes.Mq.{MessageQueue}
use skynet_notes.GlobalQueue.Monad.{World, update, is_null}
use skynet_notes.GlobalQueue.Linked.{
  Cells, count, get_last?, Linked, GlobalIs, unlink, body, count-snoc, get_last?-append,
  count-get_last?, update_ne, Linked-update, Linked-append,
}
use skynet_notes.GlobalQueue.{globalmq_push, globalmq_pop}

-- A queue rewritten but for its `next` field has the body that it had.
pub body-update :
    (c : Cells) (p j : ℕ) (old new : MessageQueue)
    → c p ≡ some old
    → unlink new ≡ unlink old
    → Option.map unlink (update c p (some new) j) ≡ Option.map unlink (c j)
body-update c p j old new here same = elim (Bool-cases (j == p)) [
  | inl e ↦
      let s : j ≡ p = (==_iff j p).0 e in
      rw e (ap some same ∙ sym (ap (Option.map unlink) (ap c s ∙ here)))
  | inr e ↦ rw e
]

push_empty :
    {w : World} (p : ℕ) (q : MessageQueue)
    → GlobalIs w []
    → w.cell p ≡ some q
    → (w' : World) × (globalmq_push p w ≡ some (tt, w'))
      × GlobalIs w' (p ∷ [])
      × ((j : ℕ) → body w' j ≡ body w j)
unfolding globalmq_push
push_empty {w} p q g here =
    let null : q.next ≡ none = g.loose p q here refl in
    let t : w.tail ≡ none = g.tail_last in
    (
      record w { head = some p; tail = some p },
      ground arith,
      record {
        linked = (refl, q, here, null);
        tail_last = refl;
        once = λ a. ground arith;
        loose = λ a r at out. g.loose a r at refl;
      },
      λ j. refl,
    )

Linked-last :
    (c : Cells) (h : Option ℕ) (x : ℕ) (ps : List ℕ)
    → Linked c h (x ∷ ps)
    → (t : ℕ) × (get_last? (x ∷ ps) ≡ some t) × (last : MessageQueue) × (c t ≡ some last)
Linked-last c h x [] (e, q, at, l) = (x, refl, q, at)
Linked-last c h x (y ∷ ys) (e, q, at, l) = Linked-last c q.next y ys l

push_step :
    (w : World) (p t : ℕ) (q last : MessageQueue)
    → w.cell p ≡ some q
    → q.next ≡ none
    → w.tail ≡ some t
    → w.cell t ≡ some last
    → globalmq_push p w
      ≡ some (
        tt,
        record w { cell = update w.cell t (some (record last { next = some p })); tail = some p },
      )
unfolding globalmq_push
push_step w p t q last here null tail at = ground arith

push_more :
    {w : World} (x : ℕ) (ps : List ℕ) (p : ℕ) (q : MessageQueue)
    → GlobalIs w (x ∷ ps)
    → w.cell p ≡ some q
    → count p (x ∷ ps) ≡ 0
    → (w' : World) × (globalmq_push p w ≡ some (tt, w'))
      × GlobalIs w' (x ∷ ps ++ p ∷ [])
      × ((j : ℕ) → body w' j ≡ body w j)
push_more {w} x ps p q g here out =
    let (t, final, last, at) = Linked-last w.cell w.head x ps g.linked in
    let null : q.next ≡ none = g.loose p q here out in
    (
      record w { cell = update w.cell t (some (record last { next = some p })); tail = some p },
      push_step w p t q last here null (g.tail_last ∙ final) at,
      record {
        linked = Linked-append w.cell w.head x ps t last p q g.once final at here null out g.linked;
        tail_last = sym (get_last?-append (x ∷ ps) p);
        once = λ a. ground (arith, g.once a, count-snoc a p (x ∷ ps));
        loose = λ a r found absent.
            let before : count a (x ∷ ps) ≡ 0 = omega (arith, count-snoc a p (x ∷ ps)) in
            let apart : a ≢ t = λ s.
              absurd
                (omega (arith, ap (λ (k : ℕ). count k (x ∷ ps)) s, count-get_last? x ps t final)) in
            g.loose a r (sym (update_ne w.cell t a _ apart) ∙ found) before;
      },
      λ j. body-update w.cell t j last (record last { next = some p }) at refl,
    )

-- `skynet_globalmq_push` of a queue that is not in the list passes its assertion, puts the queue
-- behind the others, and changes nothing else of any queue.
pub globalmq_push_lem :
    {w : World} (ps : List ℕ) (p : ℕ) (q : MessageQueue)
    → GlobalIs w ps
    → w.cell p ≡ some q
    → count p ps ≡ 0
    → (w' : World) × (globalmq_push p w ≡ some (tt, w'))
      × GlobalIs w' (ps ++ p ∷ [])
      × ((j : ℕ) → body w' j ≡ body w j)
globalmq_push_lem [] p q g here out = push_empty p q g here
globalmq_push_lem (x ∷ ps) p q g here out = push_more x ps p q g here out

-- `skynet_globalmq_pop` returns NULL on the empty list and changes nothing.
pub globalmq_pop_empty : {w : World} → GlobalIs w [] → globalmq_pop w ≡ some (none, w)
unfolding globalmq_pop
globalmq_pop_empty {w} g = let h : w.head ≡ none = g.linked in ground arith

pop_step :
    (w : World) (p : ℕ) (q : MessageQueue) (t : Option ℕ)
    → w.head ≡ some p
    → w.cell p ≡ some q
    → (q.next ≡ none → w.tail ≡ some p)
    → t ≡ (if is_null q.next then none else w.tail)
    → globalmq_pop w
      ≡ some (
        some p,
        record w {
          cell = update w.cell p (some (record q { next = none }));
          head = q.next;
          tail = t;
        },
      )
unfolding globalmq_pop
pop_step w p q t first here single e = ground (arith, (==_iff p p))

-- What is left once the first queue is out, with `t` for the new `Q->tail`.
pop_leaves :
    {w : World} (p : ℕ) (ps : List ℕ) (q : MessageQueue) (t : Option ℕ)
    → GlobalIs w (p ∷ ps)
    → w.cell p ≡ some q
    → Linked w.cell q.next ps
    → t ≡ get_last? ps
    → let w' = record w {
      cell = update w.cell p (some (record q { next = none }));
      head = q.next;
      tail = t;
    } in
      GlobalIs w' ps × ((j : ℕ) → body w' j ≡ body w j)
pop_leaves {w} p ps q t g here l final =
    let out : count p ps ≡ 0 = ground (arith, g.once p) in
    (
      record {
        linked = Linked-update w.cell p _ q.next ps out l;
        tail_last = final;
        once = λ a. omega (arith, g.once a);
        loose = λ a r found absent. elim (Bool-cases (a == p)) [
          | inl e ↦ ground arith
          | inr e ↦ ground (arith, g.loose a r)
        ];
      },
      λ j. body-update w.cell p j q (record q { next = none }) here refl,
    )

-- `skynet_globalmq_pop` on a list that is not empty passes its assertion, returns the first queue,
-- leaves the others in their order, and changes nothing else of any queue.
pub globalmq_pop_lem :
    {w : World} (p : ℕ) (ps : List ℕ)
    → GlobalIs w (p ∷ ps)
    → (w' : World) × (globalmq_pop w ≡ some (some p, w'))
      × GlobalIs w' ps
      × ((j : ℕ) → body w' j ≡ body w j)
globalmq_pop_lem {w} p [] g =
    let (first, q, here, l) = g.linked in
    let (left, same) = pop_leaves p [] q none g here l refl in
    (_, pop_step w p q none first here (λ _. g.tail_last) (rw l), left, same)
globalmq_pop_lem {w} p (y ∷ ys) g =
    let (first, q, here, l) = g.linked in
    let (left, same) = pop_leaves p (y ∷ ys) q w.tail g here l g.tail_last in
    (_, pop_step w p q w.tail first here (λ e. cc (l.0, e)) (rw (l.0)), left, same)
