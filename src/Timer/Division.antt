-- ===== src/Timer/Division.antt =====
-- Where `add_node` of skynet_timer.c puts a node, in terms of quotients, and what a tick changes of it.
use skynet_notes.Prelude.{
  ℕ, ◌+◌, ◌-◌, ◌/◌, ◌%◌, ◌^◌, ◌<◌, ◌≡◌, ◌≢◌, ◌↔◌, Option, none, some, ◌==◌, ==_iff, if◌then◌else◌,
  bit_or, arith,
}
use native.Mathlib.Decide.{dec_lt, ℕ_discrete}
use skynet_notes.Prelude.Bits.{bit_and-low_ones, bit_or-low_ones-eq}
use skynet_notes.Timer.{Place, near_at, level_at, u32, place}

-- `place` with its masks read as divisions.
abbrev pub place_div : ℕ → ℕ → Place
place_div c e =
    if e / 2 ^ 8 == c / 2 ^ 8
    then near_at (e % 2 ^ 8)
    else if e / 2 ^ 14 == c / 2 ^ 14
    then level_at 0 (e / 2 ^ 8 % 2 ^ 6)
    else if e / 2 ^ 20 == c / 2 ^ 20
    then level_at 1 (e / 2 ^ 14 % 2 ^ 6)
    else if e / 2 ^ 26 == c / 2 ^ 26
    then level_at 2 (e / 2 ^ 20 % 2 ^ 6)
    else level_at 3 (e / 2 ^ 26 % 2 ^ 6)

==-iff : (a b c d : ℕ) → (a ≡ b) ↔ (c ≡ d) → a == b ≡ (c == d)
==-iff a b c d h = ground (arith, ==_iff a b, ==_iff c d)

masks-eq : (k c e : ℕ) → (bit_or e (2 ^ k - 1) == bit_or c (2 ^ k - 1)) ≡ (e / 2 ^ k == c / 2 ^ k)
masks-eq k c e = ==-iff _ _ _ _ (bit_or-low_ones-eq k e c)

pub place-eq-place_div : (c e : ℕ) → place c e ≡ place_div c e
unfolding place
place-eq-place_div c e =
    rw (masks-eq 8 c e, masks-eq 14 c e, masks-eq 20 c e, masks-eq 26 c e, bit_and-low_ones 8 e)
      (ground (
        arith,
        bit_and-low_ones 6 (e / 2 ^ 8),
        bit_and-low_ones 6 (e / 2 ^ 14),
        bit_and-low_ones 6 (e / 2 ^ 20),
        bit_and-low_ones 6 (e / 2 ^ 26),
      ))

-- The ticks left at time `c` until `e`, both of 32 bits.
abbrev pub left : ℕ → ℕ → ℕ
left c e = (e + 2 ^ 32 - c) % 2 ^ 32

-- A time that a node may still wait for: after now, and less than 2 ^ 31 ticks ahead, since the
-- `int time` of `timer_add` is positive.
abbrev pub IsAhead : ℕ → ℕ → Type 0
IsAhead c e = (0 < left c e) × (left c e < 2 ^ 31)

-- The list that `timer_shift` moves when the time becomes `c`.
abbrev pub moved : ℕ → Option Place
moved c =
    if c == 0
    then some (level_at 3 0)
    else if c % 2 ^ 8 == 0
    then if c / 2 ^ 8 % 2 ^ 6 == 0
      then if c / 2 ^ 14 % 2 ^ 6 == 0
        then if c / 2 ^ 20 % 2 ^ 6 == 0
          then some (level_at 3 (c / 2 ^ 26 % 2 ^ 6))
          else some (level_at 2 (c / 2 ^ 20 % 2 ^ 6))
        else some (level_at 1 (c / 2 ^ 14 % 2 ^ 6))
      else some (level_at 0 (c / 2 ^ 8 % 2 ^ 6))
    else none

-- A tick inside a block of 256 changes no place.
place_div-near : (c e : ℕ) → (c + 1) % 2 ^ 8 ≢ 0 → place_div (c + 1) e ≡ place_div c e
place_div-near c e h =
    let same : (c + 1) / 2 ^ 8 ≡ c / 2 ^ 8 = omega arith in
    let same₂ : (c + 1) / 2 ^ 14 ≡ c / 2 ^ 14 = omega arith in
    let same₃ : (c + 1) / 2 ^ 20 ≡ c / 2 ^ 20 = omega arith in
    let same₄ : (c + 1) / 2 ^ 26 ≡ c / 2 ^ 26 = omega arith in rw (same, same₂, same₃, same₄)

-- A tick into a new block of `256 * 64 ^ i` changes the places of one list.
place_div-level_0 :
    (c e : ℕ)
    → c + 1 < 2 ^ 32
    → e < 2 ^ 32
    → (c + 1) % 2 ^ 8 ≡ 0
    → (c + 1) / 2 ^ 8 % 2 ^ 6 ≢ 0
    → IsAhead c e
    → place_div c e ≢ level_at 0 ((c + 1) / 2 ^ 8 % 2 ^ 6)
    → place_div (c + 1) e ≡ place_div c e
place_div-level_0 c e hc he block digit ahead other =
    let same₂ : (c + 1) / 2 ^ 14 ≡ c / 2 ^ 14 = omega arith in
    let same₃ : (c + 1) / 2 ^ 20 ≡ c / 2 ^ 20 = omega arith in
    let same₄ : (c + 1) / 2 ^ 26 ≡ c / 2 ^ 26 = omega arith in
    rw (same₂, same₃, same₄) (ground arith)

place_div-level_1 :
    (c e : ℕ)
    → c + 1 < 2 ^ 32
    → e < 2 ^ 32
    → (c + 1) % 2 ^ 14 ≡ 0
    → (c + 1) / 2 ^ 14 % 2 ^ 6 ≢ 0
    → IsAhead c e
    → place_div c e ≢ level_at 1 ((c + 1) / 2 ^ 14 % 2 ^ 6)
    → place_div (c + 1) e ≡ place_div c e
place_div-level_1 c e hc he block digit ahead other =
    let same₃ : (c + 1) / 2 ^ 20 ≡ c / 2 ^ 20 = omega arith in
    let same₄ : (c + 1) / 2 ^ 26 ≡ c / 2 ^ 26 = omega arith in rw (same₃, same₄) (ground arith)

place_div-level_2 :
    (c e : ℕ)
    → c + 1 < 2 ^ 32
    → e < 2 ^ 32
    → (c + 1) % 2 ^ 20 ≡ 0
    → (c + 1) / 2 ^ 20 % 2 ^ 6 ≢ 0
    → IsAhead c e
    → place_div c e ≢ level_at 2 ((c + 1) / 2 ^ 20 % 2 ^ 6)
    → place_div (c + 1) e ≡ place_div c e
place_div-level_2 c e hc he block digit ahead other =
    let same₄ : (c + 1) / 2 ^ 26 ≡ c / 2 ^ 26 = omega arith in rw same₄ (ground arith)

place_div-level_3 :
    (c e : ℕ)
    → c + 1 < 2 ^ 32
    → e < 2 ^ 32
    → (c + 1) % 2 ^ 26 ≡ 0
    → IsAhead c e
    → place_div c e ≢ level_at 3 ((c + 1) / 2 ^ 26 % 2 ^ 6)
    → place_div (c + 1) e ≡ place_div c e
place_div-level_3 c e hc he block ahead other = ground arith

-- The tick that wraps the time round to 0.
place_div-wrap :
    (c e : ℕ)
    → c + 1 ≡ 2 ^ 32
    → e < 2 ^ 32
    → IsAhead c e
    → place_div c e ≢ level_at 3 0
    → place_div 0 e ≡ place_div c e
place_div-wrap c e hc he ahead other = ground arith

place_div-stable :
    (c e : ℕ)
    → c + 1 < 2 ^ 32
    → e < 2 ^ 32
    → IsAhead c e
    → moved (c + 1) ≢ some (place_div c e)
    → place_div (c + 1) e ≡ place_div c e
place_div-stable c e hc he ahead other = elim (ℕ_discrete ((c + 1) % 2 ^ 8) 0) [
  | no b ↦ place_div-near c e b
  | yes b ↦ elim (ℕ_discrete ((c + 1) / 2 ^ 8 % 2 ^ 6) 0) [
    | no d ↦
        let m : moved (c + 1) ≡ some (level_at 0 ((c + 1) / 2 ^ 8 % 2 ^ 6)) = ground arith in
        place_div-level_0 c e hc he b d ahead (λ q. other (rw q m))
    | yes d ↦ elim (ℕ_discrete ((c + 1) / 2 ^ 14 % 2 ^ 6) 0) [
      | no d₁ ↦
          let m : moved (c + 1) ≡ some (level_at 1 ((c + 1) / 2 ^ 14 % 2 ^ 6)) = ground arith in
          place_div-level_1 c e hc he (omega arith) d₁ ahead (λ q. other (rw q m))
      | yes d₁ ↦ elim (ℕ_discrete ((c + 1) / 2 ^ 20 % 2 ^ 6) 0) [
        | no d₂ ↦
            let m : moved (c + 1) ≡ some (level_at 2 ((c + 1) / 2 ^ 20 % 2 ^ 6)) = ground arith in
            place_div-level_2 c e hc he (omega arith) d₂ ahead (λ q. other (rw q m))
        | yes d₂ ↦
            let m : moved (c + 1) ≡ some (level_at 3 ((c + 1) / 2 ^ 26 % 2 ^ 6)) = ground arith in
            place_div-level_3 c e hc he (omega arith) ahead (λ q. other (rw q m))
      ]
    ]
  ]
]

-- At a tick the place of a time ahead changes only if it was the list that is moved.
pub place-stable :
    (c e : ℕ)
    → c < 2 ^ 32
    → e < 2 ^ 32
    → IsAhead c e
    → moved (u32 (c + 1)) ≢ some (place c e)
    → place (u32 (c + 1)) e ≡ place c e
place-stable c e hc he ahead other =
    let other' = rw (place-eq-place_div c e) at other in
    rw (place-eq-place_div (u32 (c + 1)) e, place-eq-place_div c e)
      (elim (dec_lt (c + 1) (2 ^ 32)) [
        | yes p ↦
            let n : u32 (c + 1) ≡ c + 1 = omega arith in
            rw n (place_div-stable c e p he ahead (rw n at other'))
        | no p ↦
            let n : u32 (c + 1) ≡ 0 = omega arith in
            rw n (place_div-wrap c e (omega arith) he ahead (λ q. (rw n at other') (rw q)))
      ])
