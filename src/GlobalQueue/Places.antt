-- ===== src/GlobalQueue/Places.antt =====
-- What the invariant says of one queue, and how writes to one queue keep the global queue in order.
use mathlib.Core.Option
use mathlib.Core.Path.{subst}
use skynet_notes.Prelude.{
  if◌then◌else◌, ℕ, ◌+◌, ◌≤◌, ◌≡◌, ◌≢◌, refl, false, Option, none, some, List, [], ◌∷◌, ◌==◌,
  ==_iff, Bool-cases, inl, inr, arith,
}
use skynet_notes.Mq.{Message, MessageQueue}
use skynet_notes.Mq.Valid.{Holds}
use skynet_notes.GlobalQueue.Monad.{World, update}
use skynet_notes.GlobalQueue.Linked.{body, count, GlobalIs, unlink, Linked-update, Linked-write}
use skynet_notes.GlobalQueue.Invariant.{claim, QueueInv, Inv, Inv-at, Holds-unlink}
use skynet_notes.GlobalQueue.System.{remove}

-- What the invariant says of a queue that is there.
pub record Placed (q : MessageQueue) (n : ℕ) : Type 0 where
  pub claimed : n ≡ claim q
  pub messages : List Message
  pub holds : Holds q messages
  pub idle : q.in_global ≡ false → messages ≡ []

relink : {q : MessageQueue} {ms : List Message} → Holds (unlink q) ms → Holds q ms
relink h = record {
  sized = h.sized;
  head_in = h.head_in;
  room = h.room;
  window = h.window;
  tail_at = h.tail_at;
}

pub Inv-Placed :
    {w : World} {held ps : List ℕ} (p : ℕ) (q : MessageQueue)
    → Inv w held ps
    → w.cell p ≡ some q
    → Placed q (count p ps + count p held)
Inv-Placed {w} {held} {ps} p q inv here =
    let (n, ms, h, e) =
      subst (λ v. QueueInv (Option.map unlink v) (count p ps + count p held)) here (inv.queues p) in
    record { claimed = n; messages = ms; holds = relink h; idle = e }

Placed-QueueInv : {q : MessageQueue} {n : ℕ} → Placed q n → QueueInv (some (unlink q)) n
Placed-QueueInv h = (h.claimed, h.messages, Holds-unlink h.holds, h.idle)

-- The ring of `new` is that of `q`.
abbrev pub SameRing : MessageQueue → MessageQueue → Type 0
SameRing new q =
    (new.queue ≡ q.queue) × (new.cap ≡ q.cap) × (new.head ≡ q.head) × (new.tail ≡ q.tail)

pub Holds-same :
    {q : MessageQueue} {ms : List Message} (new : MessageQueue)
    → SameRing new q
    → Holds q ms
    → Holds new ms
Holds-same new (slots, size, first, last) h = record {
  sized = rw (slots, size) h.sized;
  head_in = rw (first, size) h.head_in;
  room = rw size h.room;
  window = rw (slots, size, first) h.window;
  tail_at = rw (first, size, last) h.tail_at;
}

-- New flags on the same ring.
pub Placed-flags :
    {q : MessageQueue} {n : ℕ} (new : MessageQueue) (k : ℕ)
    → SameRing new q
    → Placed q n
    → k ≡ claim new
    → (new.in_global ≡ false → q.in_global ≡ false)
    → Placed new k
Placed-flags new k same h e off = record {
  claimed = e;
  messages = h.messages;
  holds = Holds-same new same h.holds;
  idle = λ o. h.idle (off o);
}

-- Who is held is there.
pub held_there :
    (v : Option MessageQueue) (n : ℕ)
    → QueueInv (Option.map unlink v) n
    → 1 ≤ n
    → (q : MessageQueue) × (v ≡ some q)
held_there none n h k = absurd (omega arith)
held_there (some q) n h k = (q, refl)

pub GlobalIs-write :
    {w : World} {ps : List ℕ} (p : ℕ) (old new : MessageQueue)
    → GlobalIs w ps
    → w.cell p ≡ some old
    → new.next ≡ old.next
    → GlobalIs (record w { cell = update w.cell p (some new) }) ps
GlobalIs-write {w} {ps} p old new g here same = record {
  linked = Linked-write w.cell p old new w.head ps here same g.linked;
  tail_last = g.tail_last;
  once = g.once;
  loose = λ a r found absent. elim (Bool-cases (a == p)) [
    | inl e ↦ ground (arith, ==_iff a p, g.loose p old)
    | inr e ↦ g.loose a r (rw e at found) absent
  ];
}

-- A write outside the list of a queue without a successor.
pub GlobalIs-outside :
    {w : World} {ps : List ℕ} (p : ℕ) (v : Option MessageQueue)
    → GlobalIs w ps
    → count p ps ≡ 0
    → ((q : MessageQueue) → v ≡ some q → q.next ≡ none)
    → GlobalIs (record w { cell = update w.cell p v }) ps
GlobalIs-outside {w} {ps} p v g out null = record {
  linked = Linked-update w.cell p v w.head ps out g.linked;
  tail_last = g.tail_last;
  once = g.once;
  loose = λ a r found absent. elim (Bool-cases (a == p)) [
    | inl e ↦ null r (rw e at found)
    | inr e ↦ g.loose a r (rw e at found) absent
  ];
}

pub count-remove :
    (p j : ℕ) (xs : List ℕ)
    → 1 ≤ count p xs
    → count j (remove p xs) + (if p == j then 1 else 0) ≡ count j xs
count-remove p j [] h = absurd (omega arith)
count-remove p j (x ∷ xs) h =
    ground (arith, count-remove p j xs, ==_iff x p, ==_iff x j, ==_iff p j)

-- A step that moves queues between the global queue and the threads, and changes nothing else.
pub Inv-move :
    {w w' : World} {held held' ps ps' : List ℕ}
    → Inv w held ps
    → GlobalIs w' ps'
    → ((j : ℕ) → body w' j ≡ body w j)
    → ((j : ℕ) → count j ps' + count j held' ≡ count j ps + count j held)
    → Inv w' held' ps'
Inv-move inv g same places = record {
  global = g;
  queues = λ j. rw (same j, places j) (inv.queues j);
}

-- A step that rewrites one queue and its place. `new` is what the queue has become, but for its `next`.
pub Inv-rewrite :
    {w w' : World} {held held' ps ps' : List ℕ} (p : ℕ) (new : MessageQueue)
    → Inv w held ps
    → GlobalIs w' ps'
    → ((j : ℕ) → body w' j ≡ (if j == p then some (unlink new) else body w j))
    → ((j : ℕ) → j ≢ p → count j ps' + count j held' ≡ count j ps + count j held)
    → Placed new (count p ps' + count p held')
    → Inv w' held' ps'
Inv-rewrite p new inv g same places here =
    Inv-at p inv g (λ j apart. ground (arith, same j, ==_iff j p)) places
      (rw (same p, (==_iff p p).1 refl) (Placed-QueueInv here))
