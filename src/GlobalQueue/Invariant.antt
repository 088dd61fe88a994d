-- ===== src/GlobalQueue/Invariant.antt =====
-- The invariant that ties the flags of skynet_mq.c to where the queues are.
use skynet_notes.Prelude.{
  ℕ, ◌+◌, ◌≡◌, ◌≢◌, false, ◌||◌, Option, none, some, List, [], ◌==◌, ==_iff, if◌then◌else◌,
  Bool-cases, inl, inr,
}
use skynet_notes.Mq.{Message, MessageQueue}
use skynet_notes.Mq.Valid.{Holds}
use skynet_notes.GlobalQueue.Monad.{World}
use skynet_notes.GlobalQueue.Linked.{count, GlobalIs, unlink, body}

-- In how many places a queue with these flags is: in the global queue or with a thread.
abbrev pub claim : MessageQueue → ℕ
claim q = if q.in_global || q.release then 1 else 0

-- One address: nothing is there and nobody points to it, or a well-formed queue is there, in one
-- place if it is flagged and else in none, and without a flag it is empty.
abbrev pub QueueInv : Option MessageQueue → ℕ → Type 0
QueueInv none n = n ≡ 0
QueueInv (some q) n =
    (n ≡ claim q) × (ms : List Message) × Holds q ms × (q.in_global ≡ false → ms ≡ [])

pub record Inv (w : World) (held ps : List ℕ) : Type 0 where
  pub global : GlobalIs w ps
  pub queues : (p : ℕ) → QueueInv (body w p) (count p ps + count p held)

-- A step that touches one queue, and moves it only.
pub Inv-at :
    {w w' : World} {held held' ps ps' : List ℕ} (p : ℕ)
    → Inv w held ps
    → GlobalIs w' ps'
    → ((j : ℕ) → j ≢ p → body w' j ≡ body w j)
    → ((j : ℕ) → j ≢ p → count j ps' + count j held' ≡ count j ps + count j held)
    → QueueInv (body w' p) (count p ps' + count p held')
    → Inv w' held' ps'
Inv-at {w} {w'} {held} {held'} {ps} {ps'} p inv g same places here = record {
  global = g;
  queues = λ j. elim (Bool-cases (j == p)) [
    | inl e ↦ let s : j ≡ p = (==_iff j p).0 e in rw s here
    | inr e ↦
        let apart : j ≢ p = λ s. cc (e, (==_iff j p).1 s) in
        rw (same j apart, places j apart) (inv.queues j)
  ];
}

pub Holds-unlink : {q : MessageQueue} {ms : List Message} → Holds q ms → Holds (unlink q) ms
Holds-unlink h = record {
  sized = h.sized;
  head_in = h.head_in;
  room = h.room;
  window = h.window;
  tail_at = h.tail_at;
}
