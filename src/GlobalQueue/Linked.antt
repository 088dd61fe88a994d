-- ===== src/GlobalQueue/Linked.antt =====
-- The global queue of skynet_mq.c as a list of addresses: the chain of `next` fields from
-- `Q->head` to `Q->tail`.
use mathlib.Core.Option
use skynet_notes.Prelude.{
  ℕ, ◌+◌, ◌≤◌, ◌≡◌, ◌≢◌, refl, ◌∙◌, Option, none, some, List, [], ◌∷◌, ◌++◌, ◌==◌, ==_iff,
  if◌then◌else◌, Bool-cases, inl, inr, arith,
}
use skynet_notes.Mq.{MessageQueue}
use skynet_notes.GlobalQueue.Monad.{World, update}

abbrev pub Cells : Type 0
Cells = ℕ → Option MessageQueue

abbrev pub count : ℕ → List ℕ → ℕ
count a [] = 0
count a (x ∷ xs) = (if x == a then 1 else 0) + count a xs

abbrev pub get_last? : List ℕ → Option ℕ
get_last? [] = none
get_last? (x ∷ []) = some x
get_last? (x ∷ y ∷ ys) = get_last? (y ∷ ys)

-- From the pointer `h` on, the `next` fields lead through the queues `ps` to NULL.
abbrev pub Linked : Cells → Option ℕ → List ℕ → Type 0
Linked c h [] = h ≡ none
Linked c h (p ∷ ps) = (h ≡ some p) × (q : MessageQueue) × (c p ≡ some q) × Linked c q.next ps

-- The queues in the global queue, none of them twice; a queue outside has no successor.
pub record GlobalIs (w : World) (ps : List ℕ) : Type 0 where
  pub linked : Linked w.cell w.head ps
  pub tail_last : w.tail ≡ get_last? ps
  pub once : (p : ℕ) → count p ps ≤ 1
  pub loose : (p : ℕ) (q : MessageQueue) → w.cell p ≡ some q → count p ps ≡ 0 → q.next ≡ none

-- A queue but for its place in the global queue.
abbrev pub unlink : MessageQueue → MessageQueue
unlink q = record q { next = none }

abbrev pub body : World → ℕ → Option MessageQueue
body w p = Option.map unlink (w.cell p)

pub count-snoc :
    (a p : ℕ) (ps : List ℕ) → count a (ps ++ p ∷ []) ≡ (if p == a then 1 else 0) + count a ps
count-snoc a p [] = refl
count-snoc a p (q ∷ ps) = omega (arith, count-snoc a p ps)

pub get_last?-append : (xs : List ℕ) (y : ℕ) → get_last? (xs ++ y ∷ []) ≡ some y
get_last?-append [] y = refl
get_last?-append (x ∷ []) y = refl
get_last?-append (x ∷ z ∷ zs) y = get_last?-append (z ∷ zs) y

pub count-get_last? :
    (x : ℕ) (xs : List ℕ) (t : ℕ) → get_last? (x ∷ xs) ≡ some t → 1 ≤ count t (x ∷ xs)
count-get_last? x [] t e = ground arith
count-get_last? x (y ∷ ys) t e = omega (arith, count-get_last? y ys t e)

pub update_self : (c : Cells) (p : ℕ) (v : Option MessageQueue) → update c p v p ≡ v
update_self c p v = rw ((==_iff p p).1 refl)

pub update_ne : (c : Cells) (p j : ℕ) (v : Option MessageQueue) → j ≢ p → update c p v j ≡ c j
update_ne c p j v h = elim (Bool-cases (j == p)) [
  | inl e ↦ absurd (h ((==_iff j p).0 e))
  | inr e ↦ rw e
]

-- A write to a queue outside the list does not break it.
pub Linked-update :
    (c : Cells) (p : ℕ) (v : Option MessageQueue) (h : Option ℕ) (ps : List ℕ)
    → count p ps ≡ 0
    → Linked c h ps
    → Linked (update c p v) h ps
Linked-update c p v h [] out l = l
Linked-update c p v h (x ∷ ps) out (e, q, at, l) =
    let apart : x ≢ p = λ s. absurd (ground arith) in
    (e, q, update_ne c p x v apart ∙ at, Linked-update c p v q.next ps (omega arith) l)

-- Nor does a write that keeps the `next` field.
pub Linked-write :
    (c : Cells) (p : ℕ) (old new : MessageQueue) (h : Option ℕ) (ps : List ℕ)
    → c p ≡ some old
    → new.next ≡ old.next
    → Linked c h ps
    → Linked (update c p (some new)) h ps
Linked-write c p old new h [] here same l = l
Linked-write c p old new h (x ∷ ps) here same (e, q, at, l) = elim (Bool-cases (x == p)) [
  | inl s ↦
      let e' : x ≡ p = (==_iff x p).0 s in
      let q' : q ≡ old = cc in
      (e, new, rw s, rw (same, ← q') (Linked-write c p old new q.next ps here same l))
  | inr s ↦ (e, q, rw s at, Linked-write c p old new q.next ps here same l)
]

-- The last queue's `next` set to a queue outside puts that behind the list.
pub Linked-append :
    (c : Cells) (h : Option ℕ) (x : ℕ) (ps : List ℕ) (t : ℕ) (last : MessageQueue) (p : ℕ)
    (q : MessageQueue)
    → ((a : ℕ) → count a (x ∷ ps) ≤ 1)
    → get_last? (x ∷ ps) ≡ some t
    → c t ≡ some last
    → c p ≡ some q
    → q.next ≡ none
    → count p (x ∷ ps) ≡ 0
    → Linked c h (x ∷ ps)
    → Linked (update c t (some (record last { next = some p }))) h (x ∷ ps ++ p ∷ [])
Linked-append c h x [] t last p q once e at here null out (k, r, atx, l) =
    let s : x ≡ t = cc in
    let apart : p ≢ t = λ z. absurd (ground arith) in
    (
      k,
      record last { next = some p },
      rw s (update_self c t _),
      (refl, q, update_ne c t p _ apart ∙ here, null),
    )
Linked-append c h x (y ∷ ys) t last p q once e at here null out (k, r, atx, l) =
    let apart : x ≢ t = λ s. absurd (ground (arith, once t, count-get_last? y ys t e)) in
    (
      k,
      r,
      update_ne c t x _ apart ∙ atx,
      Linked-append c r.next y ys t last p q (λ a. omega (arith, once a)) e at here null
          (omega arith) l,
    )
