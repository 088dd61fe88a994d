-- ===== src/Mq/Valid.antt =====
-- What a message queue of skynet_mq.c holds, and that its functions keep it well formed.
use native.Mathlib.Nat.{mod-lt, mod-eq_of_lt, mod_self, mod-add-mod, zero-add}
use skynet_notes.Prelude.{
  ℕ, suc, ◌+◌, ◌*◌, ◌%◌, ◌≤◌, ◌<◌, ◌≡◌, ◌≢◌, refl, ap, ◌∙◌, sym, true, none, some, Bool-cases, inl,
  inr, List, [], ◌∷◌, ◌++◌, map, arith, length, length-append, length-set, length-replicate, leb,
  ◌==◌, ==_iff, if◌then◌else◌, replicate,
}
use skynet_notes.Prelude.Ring.{copy, full_iff, length-copy, copy-set, copy-stored}
use skynet_notes.Mq.{Message, Slot, MessageQueue, create, doubled_ring, store, put}

-- The slots from `head` on hold the messages `ms`, and `tail` is the slot behind them.
pub record Holds (q : MessageQueue) (ms : List Message) : Type 0 where
  pub sized : length q.queue ≡ q.cap
  pub head_in : q.head < q.cap
  pub room : length ms < q.cap
  pub window : copy q.queue q.cap q.head (length ms) ≡ map some ms
  pub tail_at : (q.head + length ms) % q.cap ≡ q.tail

map-snoc : (ms : List Message) (m : Message) → map some (ms ++ m ∷ []) ≡ map some ms ++ some m ∷ []
map-snoc [] m = refl
map-snoc (x ∷ ms) m = ap (λ (r : List Slot). some x ∷ r) (map-snoc ms m)

-- `if (++i >= cap) i = 0;`
pub wrap_step : (i c : ℕ) → i < c → (if leb c (i + 1) then 0 else i + 1) ≡ (i + 1) % c
wrap_step i c h = elim (Bool-cases (leb c (i + 1))) [
  | inl e ↦ rw e (let same : i + 1 ≡ c = ground arith in rw same (sym (mod_self c)))
  | inr e ↦ rw e (sym (mod-eq_of_lt (ground arith)))
]

length-snoc : (ms : List Message) (m : Message) → length (ms ++ m ∷ []) ≡ suc (length ms)
length-snoc ms m = omega (arith, length-append ms (m ∷ []))

pub create-Holds : (handle : ℕ) → Holds (create handle) []
unfolding create copy
create-Holds handle = record {
  sized = refl;
  head_in = omega arith;
  room = omega arith;
  window = refl;
  tail_at = refl;
}

-- The queue and its tail behind a `store`, before the test that the ring is full.
record Stored (q : MessageQueue) (ms : List Message) : Type 0 where
  sized : length q.queue ≡ q.cap
  head_in : q.head < q.cap
  few : length ms ≤ q.cap
  window : copy q.queue q.cap q.head (length ms) ≡ map some ms
  tail_at : (q.head + length ms) % q.cap ≡ q.tail

pub tail_in : {q : MessageQueue} {ms : List Message} → Holds q ms → q.tail < q.cap
tail_in h = rw (← h.tail_at) (mod-lt _ (omega arith))

store-Stored :
    {q : MessageQueue} {ms : List Message} (m : Message)
    → Holds q ms
    → Stored (store q m) (ms ++ m ∷ [])
unfolding store
store-Stored {q} {ms} m h = record {
  sized = length-set q.queue q.tail (some m) ∙ h.sized;
  head_in = h.head_in;
  few = omega (arith, length-snoc ms m);
  window =
      rw (length-snoc ms m, map-snoc ms m, ← h.window)
        (copy-set q.queue (some m) q.cap q.head (length ms) q.tail h.sized h.room h.tail_at);
  tail_at =
      rw (length-snoc ms m, wrap_step q.tail q.cap (tail_in h), ← h.tail_at)
        (ap (λ (k : ℕ). k % q.cap) (omega arith) ∙ sym (mod-add-mod (q.head + length ms) q.cap 1));
}

-- The copy of a full ring starts at index 0.
expand-Holds :
    {q : MessageQueue} {ms : List Message}
    → Stored q ms
    → length ms ≡ q.cap
    → Holds (doubled_ring q) ms
unfolding doubled_ring
expand-Holds {q} {ms} h full = record {
  sized = omega (
    arith,
    length-append slots fresh,
    length-copy q.queue q.cap q.head q.cap,
    length-replicate {A = Slot} q.cap none,
  );
  head_in = omega arith;
  room = omega arith;
  window =
      ap (copy (slots ++ fresh) (q.cap * 2) 0) (full ∙ sym (length-copy q.queue q.cap q.head q.cap))
      ∙ copy-stored (slots ++ fresh) [] slots fresh (q.cap * 2) refl
          (omega (arith, length-copy q.queue q.cap q.head q.cap))
      ∙ ap (copy q.queue q.cap q.head) (sym full)
      ∙ h.window;
  tail_at = mod-eq_of_lt (omega arith) ∙ zero-add (length ms) ∙ full;
}
  where
    slots : List Slot
    slots = copy q.queue q.cap q.head q.cap

    fresh : List Slot
    fresh = replicate q.cap none

-- Head and tail meet behind a `store` only when the ring is full.
pub full_cap :
    {q : MessageQueue} {ms : List Message} (m : Message)
    → Holds q ms
    → ((store q m).head == (store q m).tail) ≡ true
    → suc (length ms) ≡ q.cap
unfolding store
full_cap {q} {ms} m h e =
    let s = store-Stored m h in
    let turn : (q.head + suc (length ms)) % q.cap ≡ (store q m).tail =
      rw (← length-snoc ms m) s.tail_at in
    (full_iff q.head (length ms) q.cap h.head_in h.room).0
      (turn ∙ sym ((==_iff (store q m).head (store q m).tail).0 e))

pub put-Holds :
    {q : MessageQueue} {ms : List Message} (m : Message)
    → Holds q ms
    → Holds (put q m) (ms ++ m ∷ [])
unfolding put
put-Holds {q} {ms} m h =
    let s = store-Stored m h in
    let size = length-snoc ms m in
    let full = full_iff q.head (length ms) q.cap h.head_in h.room in
    let turn : (q.head + suc (length ms)) % q.cap ≡ (store q m).tail = rw (← size) s.tail_at in
    let meet = ==_iff (store q m).head (store q m).tail in
    elim (Bool-cases ((store q m).head == (store q m).tail)) [
      | inl e ↦ rw e (expand-Holds s (size ∙ full.0 (turn ∙ sym (meet.0 e))))
      | inr e ↦
          let apart : suc (length ms) ≢ q.cap = λ f. cc (e, meet.1 (sym (full.1 f) ∙ turn)) in
          rw e (record {
            sized = s.sized;
            head_in = s.head_in;
            room = omega (arith, s.few);
            window = s.window;
            tail_at = s.tail_at;
          })
    ]
