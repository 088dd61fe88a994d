-- ===== src/Netpack/Queued.antt =====
-- `lpop`, `lclear` and the end of a socket in lua-netpack.c.
use skynet_notes.Prelude.{
  ℕ, ◌≡◌, refl, true, false, Option, none, some, Option-cases, List, [], ◌∷◌, length-replicate,
  ◌==◌, ==_iff, inl, inr, arith,
}
use skynet_notes.Prelude.Ring.{copy}
use skynet_notes.Prelude.Ring.Held.{step, take-Held, Held-empty, Held-some}
use skynet_notes.Netpack.{
  Netpack, Progress, Queue, socket_close, socket_error, closed, failed, queue_size, get_queue,
  close_uncomplete, lfilter, lpop,
}
use skynet_notes.Netpack.Waiting.{Has, set_waiting, find-none, find-some}
use skynet_notes.Netpack.Filter.{Has-eq, same_waiting}

pub fresh-Has : Has none [] (λ _. none)
unfolding get_queue copy
fresh-Has = record {
  ring = record {
    sized = length-replicate {A = Option Netpack} queue_size none;
    head_in = omega arith;
    room = omega arith;
    window = refl;
    tail_at = refl;
  };
  waiting = λ fd. refl;
  short = λ fd. tt;
}

-- What `lpop` returns for the packets held.
pub data Popped (P : ℕ → Option Progress)
    : List Netpack → Option (Option Netpack × Queue) → Type 0 where
  empty : Popped P [] none
  oldest :
      (m : Netpack) (ms : List Netpack) (q : Queue)
      → Has (some q) ms P
      → Popped P (m ∷ ms) (some (some m, q))

-- `lpop` on a queue that holds the packets `ms` gives the oldest of them and leaves the others and what waits
-- for the sockets, or it gives nothing if there is none.
pub lpop_lem :
    {l : Option Queue} {ms : List Netpack} {P : ℕ → Option Progress}
    → Has l ms P
    → Popped P ms (lpop l)
unfolding lpop get_queue
lpop_lem {l = none} {ms = []} h = empty
lpop_lem {l = none} {ms = m ∷ ms} h = absurd (Held-some h.ring refl)
lpop_lem {l = some q} {ms = []} h =
    let e : (q.head == q.tail) ≡ true = (==_iff q.head q.tail).1 (Held-empty h.ring) in rw e empty
lpop_lem {l = some q} {ms = m ∷ ms} h =
    let n = Held-some h.ring in
    let e : (q.head == q.tail) ≡ false = ground (arith, n) in
    let (first, rest) = take-Held h.ring in
    rw (e, first)
      (oldest m ms (record q { head = step q.cap q.head })
        (record { ring = rest; waiting = h.waiting; short = h.short }))

close-Has :
    {l : Option Queue} {ms : List Netpack} {P : ℕ → Option Progress} (fd : ℕ)
    → Has l ms P
    → Has (close_uncomplete l fd) ms (set_waiting P fd none)
unfolding close_uncomplete
close-Has {l} {ms} {P} fd h = elim (Option-cases (P fd)) [
  | inl e ↦ rw (find-none fd h e) (Has-eq refl (same_waiting P fd e) h)
  | inr (p, e) ↦ let f = find-some fd p h e in rw (f.found) (f.has)
]

-- When a socket is closed or fails, `lfilter` drops what waits for it, and nothing else that the queue holds.
pub lfilter-close :
    {l : Option Queue} {ms : List Netpack} {P : ℕ → Option Progress} (fd : ℕ) (message : List ℕ)
    → Has l ms P
    → (l' : Option Queue) × (lfilter l (socket_close fd) ≡ some (l', closed fd))
      × (lfilter l (socket_error fd message) ≡ some (l', failed fd message))
      × Has l' ms (set_waiting P fd none)
unfolding lfilter
lfilter-close {l} fd message h = (close_uncomplete l fd, refl, refl, close-Has fd h)
