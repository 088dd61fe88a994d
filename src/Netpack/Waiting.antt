-- ===== src/Netpack/Waiting.antt =====
-- What the queue of lua-netpack.c holds: the packets in its ring, and for each fd the packet that waits for more
-- data.
use skynet_notes.Prelude.{
  ℕ, ◌+◌, ◌-◌, ◌<◌, ◌≡◌, ◌≢◌, refl, ap, sym, ◌∙◌, true, false, Option, none, some, List, [], ◌∷◌,
  ◌++◌, length, leb, ◌==◌, ==_iff, if◌then◌else◌, Bool-cases, inl, inr, arith,
}
use skynet_notes.Prelude.Ring.Held.{Held, step, store-Held, grow-Held, tail_in}
use skynet_notes.Netpack.{
  Netpack, Progress, header, body, Uncomplete, Queue, queue_size, hash_fd, set_bucket,
  take_uncomplete, find_uncomplete, get_queue, expand_queue, push_data, save_uncomplete,
}

-- The entries of a list for an fd.
abbrev pub matches : List Uncomplete → ℕ → List Progress
matches [] fd = []
matches (uc ∷ list) fd = if uc.id == fd then uc.progress ∷ matches list fd else matches list fd

abbrev pub to_list : Option Progress → List Progress
to_list none = []
to_list (some p) = p ∷ []

abbrev pub set_waiting : (ℕ → Option Progress) → ℕ → Option Progress → ℕ → Option Progress
set_waiting P fd o g = if g == fd then o else P g

-- A body that waits is not complete.
abbrev pub Waits : Option Progress → Type 0
Waits none = Unit {0}
Waits (some (header h)) = Unit {0}
Waits (some (body size read)) = length read < size

-- The userdata `l` holds the packets `ms`, and for each fd what `P` says.
pub record Has (l : Option Queue) (ms : List Netpack) (P : ℕ → Option Progress) : Type 0 where
  pub ring : let q = get_queue l in Held q.queue q.cap q.head q.tail ms
  pub waiting : (fd : ℕ) → matches ((get_queue l).hash (hash_fd fd)) fd ≡ to_list (P fd)
  pub short : (fd : ℕ) → Waits (P fd)

nothing_found :
    (list : List Uncomplete) (fd : ℕ) → matches list fd ≡ [] → take_uncomplete list fd ≡ none
unfolding take_uncomplete
nothing_found [] fd e = refl
nothing_found (uc ∷ list) fd e = elim (Bool-cases (uc.id == fd)) [
  | inl q ↦ absurd (not_nil (rw q at e))
  | inr q ↦ rw (q, nothing_found list fd (rw q at e)) refl
]
  where
    not_nil : {ps : List Progress} → uc.progress ∷ ps ≢ []
    not_nil e = ground (arith, e)

-- The first entry for an fd is found and taken out, and no other.
record Taken (list : List Uncomplete) (fd : ℕ) (p : Progress) (ps : List Progress) : Type 0 where
  left : List Uncomplete
  found : take_uncomplete list fd ≡ some (p, left)
  here : matches left fd ≡ ps
  others : (g : ℕ) → g ≢ fd → matches left g ≡ matches list g

taken :
    (list : List Uncomplete) (fd : ℕ) (p : Progress) (ps : List Progress)
    → matches list fd ≡ p ∷ ps
    → Taken list fd p ps
unfolding take_uncomplete
taken [] fd p ps e = absurd (ground (arith, e))
taken (uc ∷ list) fd p ps e = elim (Bool-cases (uc.id == fd)) [
  | inl q ↦
      let (same, rest) = parts (rw q at e) in
      record {
        left = list;
        found = rw (q, same) refl;
        here = rest;
        others = λ g n. let apart : (uc.id == g) ≡ false = ground (arith, q, n) in rw apart refl;
      }
  | inr q ↦
      let t = taken list fd p ps (rw q at e) in
      record {
        left = uc ∷ t.left;
        found = rw (q, t.found) refl;
        here = rw q t.here;
        others = λ g n.
            ap (λ (l : List Progress). if uc.id == g then uc.progress ∷ l else l) (t.others g n);
      }
]
  where
    parts : {a b : Progress} {xs ys : List Progress} → a ∷ xs ≡ b ∷ ys → (a ≡ b) × (xs ≡ ys)
    parts e = ground (arith, e)

pub at_same : (P : ℕ → Option Progress) (fd : ℕ) (o : Option Progress) → set_waiting P fd o fd ≡ o
at_same P fd o = let e : (fd == fd) ≡ true = (==_iff fd fd).1 refl in rw e refl

pub at_other :
    (P : ℕ → Option Progress) (fd g : ℕ) (o : Option Progress) → g ≢ fd → set_waiting P fd o g ≡ P g
at_other P fd g o n = let e : (g == fd) ≡ false = ground (arith, n) in rw e refl

pub find-none :
    {l : Option Queue} {ms : List Netpack} {P : ℕ → Option Progress} (fd : ℕ)
    → Has l ms P
    → P fd ≡ none
    → find_uncomplete l fd ≡ none
unfolding find_uncomplete get_queue
find-none {l = none} fd h e = refl
find-none {l = some q} fd h e =
    rw (nothing_found (q.hash (hash_fd fd)) fd (h.waiting fd ∙ ap to_list e)) refl

-- A change of one list, after which it has `o` for `fd` and is otherwise the same.
changed :
    (hash : ℕ → List Uncomplete) (P : ℕ → Option Progress) (fd : ℕ) (list : List Uncomplete)
    (o : Option Progress)
    → ((g : ℕ) → matches (hash (hash_fd g)) g ≡ to_list (P g))
    → matches list fd ≡ to_list o
    → ((g : ℕ) → g ≢ fd → matches list g ≡ matches (hash (hash_fd fd)) g)
    → (g : ℕ)
    → matches (set_bucket hash (hash_fd fd) list (hash_fd g)) g ≡ to_list (set_waiting P fd o g)
changed hash P fd list o w e k g = elim (Bool-cases (g == fd)) [
  | inl q ↦
      let same : g ≡ fd = (==_iff g fd).0 q in
      let bucket : (hash_fd g == hash_fd fd) ≡ true =
        (==_iff (hash_fd g) (hash_fd fd)).1 (ap hash_fd same) in
      rw (q, bucket) (ap (matches list) same ∙ e)
  | inr q ↦ elim (Bool-cases (hash_fd g == hash_fd fd)) [
    | inl b ↦
        rw (q, b)
          (k g (λ s. ground (arith, q, s))
            ∙ ap (λ (i : ℕ). matches (hash i) g) (sym ((==_iff (hash_fd g) (hash_fd fd)).0 b))
            ∙ w g)
    | inr b ↦ rw (q, b) (w g)
  ]
]

changed-Waits :
    (P : ℕ → Option Progress) (fd : ℕ) (o : Option Progress)
    → ((g : ℕ) → Waits (P g))
    → Waits o
    → (g : ℕ) → Waits (set_waiting P fd o g)
changed-Waits P fd o w h g = elim (Bool-cases (g == fd)) [ inl q ↦ rw q h | inr q ↦ rw q (w g) ]

pub record Found (l : Option Queue) (ms : List Netpack) (P : ℕ → Option Progress) (fd : ℕ)
    (p : Progress) : Type 0 where
  pub left : Queue
  pub found : find_uncomplete l fd ≡ some (p, left)
  pub has : Has (some left) ms (set_waiting P fd none)

pub find-some :
    {l : Option Queue} {ms : List Netpack} {P : ℕ → Option Progress} (fd : ℕ) (p : Progress)
    → Has l ms P
    → P fd ≡ some p
    → Found l ms P fd p
unfolding find_uncomplete get_queue
find-some {l = none} fd p h e = absurd (ground (arith, h.waiting fd, ap to_list e))
find-some {l = some q} {ms} {P} fd p h e =
    let t = taken (q.hash (hash_fd fd)) fd p [] (h.waiting fd ∙ ap to_list e) in
    record {
      left = record q { hash = set_bucket q.hash (hash_fd fd) t.left };
      found = rw (t.found) refl;
      has = record {
        ring = h.ring;
        waiting = changed q.hash P fd t.left none h.waiting t.here t.others;
        short = changed-Waits P fd none h.short tt;
      };
    }

pub save-Has :
    {l : Option Queue} {ms : List Netpack} {P : ℕ → Option Progress} (fd : ℕ) (p : Progress)
    → Has l ms P
    → P fd ≡ none
    → Waits (some p)
    → Has (some (save_uncomplete l fd p)) ms (set_waiting P fd (some p))
unfolding save_uncomplete get_queue
save-Has {l} {ms} {P} fd p h e w =
    let q = get_queue l in
    let uc : Uncomplete = record { id = fd; progress = p } in
    let same : (fd == fd) ≡ true = (==_iff fd fd).1 refl in
    record {
      ring = h.ring;
      waiting =
          changed q.hash P fd (uc ∷ q.hash (hash_fd fd)) (some p) h.waiting
            (rw same (ap (λ (t : List Progress). p ∷ t) (h.waiting fd ∙ ap to_list e)))
            (λ g n. let apart : (fd == g) ≡ false = ground (arith, n) in rw apart refl);
      short = changed-Waits P fd (some p) h.short w;
    }

next_tail : (c t : ℕ) → t < c → (if leb c (t + 1) then t + 1 - c else t + 1) ≡ step c t
next_tail c t h = ground arith

pub push-Has :
    {l : Option Queue} {ms : List Netpack} {P : ℕ → Option Progress} (fd : ℕ) (bytes : List ℕ)
    → Has l ms P
    → Has (some (push_data l fd bytes)) (ms ++ record { id = fd; buffer = bytes } ∷ []) P
unfolding push_data expand_queue get_queue
push-Has {l} {ms} {P} fd bytes h =
    let q = get_queue l in
    let m : Netpack = record { id = fd; buffer = bytes } in
    let turn = next_tail q.cap q.tail (tail_in h.ring) in
    elim (Bool-cases (q.head == step q.cap q.tail)) [
      | inl e ↦
          rw (turn, e)
            (record {
              ring = grow-Held m queue_size h.ring ((==_iff _ _).0 e) (omega arith);
              waiting = h.waiting;
              short = h.short;
            })
      | inr e ↦
          rw (turn, e)
            (record {
              ring = store-Held m h.ring (λ s. ground (arith, e, s));
              waiting = h.waiting;
              short = h.short;
            })
    ]
