-- ===== src/Handle/Grow.antt =====
-- `skynet_handle_register` of skynet_handle.c with no slot free: the array of twice the size.
use native.Mathlib.Nat.{add-mul-mod_self_right}
use skynet_notes.Prelude.{
  ℕ, zero, suc, ◌+◌, ◌-◌, ◌*◌, ◌/◌, ◌%◌, ◌^◌, ◌≤◌, ◌<◌, ◌≡◌, ◌≢◌, refl, sym, ap, ◌∙◌, inl, inr,
  true, false, Option, none, some, ltb, ltb_iff, ◌==◌, ==_iff, if◌then◌else◌, Bool-cases, arith,
  bit_and,
}
use skynet_notes.Handle.{HandleStorage, rehash}
use skynet_notes.Handle.Slots.{option_cases}
use skynet_notes.Handle.Register.{IsSlots, pow_split}
use skynet_notes.Prelude.Bits.{bit_and-low_ones, two_pow_pos}

-- Counting on from any handle, each remainder comes up.
pub reach : (h i p : ℕ) → i < p → (j : ℕ) × (j < p) × ((h + j) % p ≡ i)
reach h i p q = elim (Bool-cases (ltb i (h % p))) [
  | inr t ↦ (i - h % p, omega arith, grind arith)
  | inl t ↦ (i + p - h % p, ground (arith, ltb_iff i (h % p)), grind (arith, ltb_iff i (h % p)))
]

mod-mod : (a p : ℕ) → 0 < p → a % (p * 2) % p ≡ a % p
mod-mod a p h =
    let parts : a % (p * 2) + 2 * (a / (p * 2)) * p ≡ a = grind arith in
    sym (add-mul-mod_self_right (a % (p * 2)) (2 * (a / (p * 2))) p) ∙ ap (λ x. x % p) parts

pub low-low : (k a : ℕ) → bit_and (bit_and a (2 ^ (k + 1) - 1)) (2 ^ k - 1) ≡ bit_and a (2 ^ k - 1)
low-low k a =
    rw (bit_and-low_ones (k + 1) a, bit_and-low_ones k (a % 2 ^ (k + 1)), bit_and-low_ones k a)
      (ap (λ x. a % x % 2 ^ k) (pow_split k 1) ∙ mod-mod a (2 ^ k) (two_pow_pos k))

module _ {A : Type 0} {k harbor : ℕ} {s : HandleStorage A} (v : IsSlots k harbor s) where
  abbrev pub low : ℕ → ℕ
  low x = bit_and x (s.slot_size - 1)

  abbrev pub wide : ℕ → ℕ
  wide x = bit_and x (s.slot_size * 2 - 1)

  pub double : s.slot_size * 2 ≡ 2 ^ (k + 1)
  double = omega (arith, v.size, pow_split k 1)

  pub low-wide : (x : ℕ) → low (wide x) ≡ low x
  low-wide x = rw (double, v.size) (low-low k x)

  -- Each context goes where its handle's low bits say.
  abbrev pub keep : Option ℕ → ℕ → Option ℕ
  keep none x = none
  keep (some c) x = if wide (s.context_handle c) == x then some c else none

  pub record Rehashed (i : ℕ) (new_slot : ℕ → Option ℕ) : Type 0 where
    pub done : (x : ℕ) → low x < i → new_slot x ≡ keep (s.slot (low x)) x
    pub rest : (x : ℕ) → i ≤ low x → new_slot x ≡ none

  pub rehash-Rehashed :
      (n : ℕ) (new_slot : ℕ → Option ℕ) (i : ℕ)
      → i + n ≡ s.slot_size
      → ((j : ℕ) → j < s.slot_size → s.slot j ≢ none)
      → Rehashed i new_slot
      → (new_slot' : ℕ → Option ℕ) × (rehash n s new_slot i ≡ some new_slot')
        × Rehashed s.slot_size new_slot'
  unfolding rehash
  rehash-Rehashed zero new_slot i h all r =
      let end : i ≡ s.slot_size = omega arith in (new_slot, refl, rw end at r)
  rehash-Rehashed (suc n) new_slot i h all r = elim (option_cases (s.slot i)) [
    | inl e ↦ absurd (all i (omega arith) e)
    | inr (c, e) ↦
        let hash = wide (s.context_handle c) in
        let mine : low hash ≡ i = low-wide (s.context_handle c) ∙ v.home i c (omega arith) e in
        let empty : new_slot hash ≡ none = r.rest hash (omega arith) in
        let next : Rehashed (i + 1) (λ x. if x == hash then some c else new_slot x) = record {
          done = λ x p. elim (Bool-cases (x == hash)) [
            | inl t ↦
                let this : x ≡ hash = (==_iff x hash).0 t in
                let back : (hash == x) ≡ true = (==_iff hash x).1 (sym this) in
                let here : s.slot (low x) ≡ some c =
                  ap (λ y. s.slot (low y)) this ∙ ap s.slot mine ∙ e in
                rw (t, here, back) refl
            | inr t ↦ rw t (elim (Bool-cases (low x == i)) [
              | inl u ↦
                  let at_i : low x ≡ i = (==_iff (low x) i).0 u in
                  let here : s.slot (low x) ≡ some c = ap s.slot at_i ∙ e in
                  let other : (hash == x) ≡ false = ground (arith, ==_iff hash x, ==_iff x hash) in
                  r.rest x (omega arith) ∙ rw (here, other) refl
              | inr u ↦ r.done x (ground (arith, ==_iff (low x) i))
            ])
          ];
          rest = λ x p. elim (Bool-cases (x == hash)) [
            | inl t ↦
                let this : low x ≡ i = ap low ((==_iff x hash).0 t) ∙ mine in absurd (omega arith)
            | inr t ↦ rw t (r.rest x (omega arith))
          ];
        } in
        rw (e, empty)
          (rehash-Rehashed n (λ x. if x == hash then some c else new_slot x) (i + 1) (omega arith)
            all next)
  ]
