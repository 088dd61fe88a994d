-- ===== src/Mq/Int.antt =====
-- The ints of skynet_mq.c: a ring of less than 2 ^ 30 messages does not overflow them.
use skynet_notes.Prelude.{
  ℕ, zero, suc, ◌+◌, ◌*◌, ◌^◌, ◌≤◌, ◌<◌, ◌≡◌, refl, Bool, true, some, List, length, leb, ◌==◌,
  either, Bool-cases, inl, inr, arith,
}
use skynet_notes.Mq.{
  Slot, Message, MessageQueue, mq_length, length_int, pop, doubled_ring, expand_queue, store, put,
  put_int,
}
use skynet_notes.Mq.Valid.{Holds, tail_in, full_cap}

-- The capacities that doubling takes to 2 ^ 30.
pub data IsRingSize : ℕ → Type 0 where
  largest : (cap : ℕ) → cap ≡ 2 ^ 30 → IsRingSize cap
  half : (cap : ℕ) → IsRingSize (cap * 2) → IsRingSize cap

abbrev doubled : ℕ → ℕ → ℕ
doubled zero cap = cap
doubled (suc n) cap = doubled n (cap * 2)

pub doubled-IsRingSize : (n cap : ℕ) → doubled n cap ≡ 2 ^ 30 → IsRingSize cap
doubled-IsRingSize zero cap e = largest cap e
doubled-IsRingSize (suc n) cap e = half cap (doubled-IsRingSize n (cap * 2) e)

IsRingSize-bound : (cap : ℕ) → IsRingSize cap → cap ≤ 2 ^ 30
IsRingSize-bound cap (largest _ e) = omega (arith, e)
IsRingSize-bound cap (half _ s) = omega (arith, IsRingSize-bound (cap * 2) s)

twice : (cap : ℕ) → cap < 2 ^ 30 → IsRingSize cap → IsRingSize (cap * 2)
twice cap h (largest _ e) = absurd (omega (arith, h, e))
twice cap h (half _ s) = s

pub length_int-Holds :
    {q : MessageQueue} {ms : List Message}
    → Holds q ms
    → IsRingSize q.cap
    → length_int q ≡ some (mq_length q)
unfolding length_int mq_length
length_int-Holds {q} h s =
    let fits : leb (q.tail + q.cap) 0x7fffffff ≡ true =
      ground (arith, tail_in h, IsRingSize-bound q.cap s) in
    elim (Bool-cases (leb q.head q.tail)) [ inl e ↦ rw e refl | inr e ↦ rw (e, fits) refl ]

pub put_int-Holds :
    {q : MessageQueue} {ms : List Message} (m : Message)
    → Holds q ms
    → suc (length ms) < 2 ^ 30
    → IsRingSize q.cap
    → (put_int q m ≡ some (put q m)) × IsRingSize (put q m).cap
unfolding put_int put store expand_queue doubled_ring
put_int-Holds {q} {ms} m h b s = elim (Bool-cases ((store q m).head == (store q m).tail)) [
  | inl e ↦
      let cap : suc (length ms) ≡ q.cap = full_cap m h e in
      let fits : leb (q.cap * 2) 0x7fffffff ≡ true = ground (arith, cap, b) in
      rw (e, fits) (refl, twice q.cap (omega (arith, cap, b)) s)
  | inr e ↦ rw e (refl, s)
]

pub pop-cap : (q : MessageQueue) → (pop q).2.cap ≡ q.cap
unfolding pop
pop-cap q =
    either (λ (r : Bool × Slot × MessageQueue). r.2.cap ≡ q.cap) (q.head == q.tail) (λ e. refl)
      (λ e. refl)
