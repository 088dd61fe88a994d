-- ===== src/Timer/Shift.antt =====
-- `timer_shift` of skynet_timer.c finds the list to move, or none, within its four rounds.
use skynet_notes.Prelude.{
  ℕ, ◌+◌, ◌/◌, ◌^◌, ◌<◌, ◌≡◌, ◌≢◌, ◌∙◌, Option, none, some, [], ◌==◌, Bool-cases, inl, inr, arith,
}
use skynet_notes.Prelude.Bits.{bit_and-low_ones}
use skynet_notes.Timer.{
  Place, Timer, u32, cell, set_cell, add_all, move_list, shift_loop, timer_shift,
}
use skynet_notes.Timer.Division.{moved}

-- The time becomes `c`, and the nodes of the list `p`, if there is one, are linked anew.
abbrev pub relink : Option Place → Timer → ℕ → Timer
relink none T c = record T { time = c }
relink (some p) T c = add_all (set_cell (record T { time = c }) p []) (cell T p)

shift-nonzero :
    (T : Timer) (c : ℕ)
    → c < 2 ^ 32
    → c ≢ 0
    → shift_loop 4 (record T { time = c }) c 256 (c / 2 ^ 8) 0 ≡ relink (moved c) T c
unfolding shift_loop move_list
shift-nonzero T c h nz =
    let q₁ : c / 2 ^ 8 / 2 ^ 6 ≡ c / 2 ^ 14 = omega arith in
    let q₂ : c / 2 ^ 14 / 2 ^ 6 ≡ c / 2 ^ 20 = omega arith in
    let q₃ : c / 2 ^ 20 / 2 ^ 6 ≡ c / 2 ^ 26 = omega arith in
    rw (bit_and-low_ones 8 c, bit_and-low_ones 14 c, bit_and-low_ones 20 c, bit_and-low_ones 26 c)
      (rw (q₁, q₂, q₃)
        (rw
          (
            bit_and-low_ones 6 (c / 2 ^ 8),
            bit_and-low_ones 6 (c / 2 ^ 14),
            bit_and-low_ones 6 (c / 2 ^ 20),
            bit_and-low_ones 6 (c / 2 ^ 26),
          )
          (ground arith)))

-- `timer_shift` sets the time to the next tick and links the nodes of the moved list anew.
pub timer_shift-relink :
    (T : Timer) → timer_shift T ≡ relink (moved (u32 (T.time + 1))) T (u32 (T.time + 1))
unfolding timer_shift move_list
timer_shift-relink T = elim (Bool-cases (u32 (T.time + 1) == 0)) [
  | inl e ↦ rw e
  | inr e ↦
      let c = u32 (T.time + 1) in
      let loop : timer_shift T ≡ shift_loop 4 (record T { time = c }) c 256 (c / 2 ^ 8) 0 = rw e in
      loop ∙ shift-nonzero T c (omega arith) (λ z. ground arith)
]
