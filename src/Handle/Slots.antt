-- ===== src/Handle/Slots.antt =====
-- `skynet_handle_grab` and `skynet_handle_retire` of skynet_handle.c, and the array of slots twice as large.
use skynet_notes.Prelude.{
  ℕ, ◌-◌, ◌≡◌, refl, sym, ap, ◌∙◌, ◌⊎◌, inl, inr, true, false, Option, none, some, ◌==◌, ==_iff,
  if◌then◌else◌, Bool-cases, arith, bit_and,
}
use skynet_notes.Handle.{HandleStorage, grab, retire}

pub option_cases : (o : Option ℕ) → (o ≡ none) ⊎ ((c : ℕ) × (o ≡ some c))
option_cases none = inl refl
option_cases (some c) = inr (c, refl)

-- The answer of `skynet_handle_retire` for what the handle finds: 1 and the context to be released, or 0.
abbrev pub answer : Option ℕ → ℕ × Option ℕ
answer none = (0, none)
answer (some c) = (1, some c)

module _ {A : Type 0} where
  pub grab-null :
      (s : HandleStorage A) (h : ℕ) → s.slot (bit_and h (s.slot_size - 1)) ≡ none → grab s h ≡ none
  unfolding grab
  grab-null s h e = rw e refl

  pub grab-slot :
      (s : HandleStorage A) (h c : ℕ)
      → s.slot (bit_and h (s.slot_size - 1)) ≡ some c
      → grab s h ≡ (if s.context_handle c == h then some c else none)
  unfolding grab
  grab-slot s h c e = rw e refl

  pub grab-own :
      (s : HandleStorage A) (h c : ℕ)
      → s.slot (bit_and h (s.slot_size - 1)) ≡ some c
      → (s.context_handle c == h) ≡ true
      → grab s h ≡ some c
  grab-own s h c e q = grab-slot s h c e ∙ rw q refl

  pub grab-foreign :
      (s : HandleStorage A) (h c : ℕ)
      → s.slot (bit_and h (s.slot_size - 1)) ≡ some c
      → (s.context_handle c == h) ≡ false
      → grab s h ≡ none
  grab-foreign s h c e q = grab-slot s h c e ∙ rw q refl

  -- A storage with one slot emptied.
  grab-emptied :
      (s t : HandleStorage A) (hash h : ℕ)
      → t.slot_size ≡ s.slot_size
      → t.context_handle ≡ s.context_handle
      → t.slot ≡ (λ i. if i == hash then none else s.slot i)
      → grab t h ≡ (if bit_and h (s.slot_size - 1) == hash then none else grab s h)
  unfolding grab
  grab-emptied s t hash h e₁ e₂ e₃ =
      rw (e₁, e₂, e₃)
        (elim (Bool-cases (bit_and h (s.slot_size - 1) == hash)) [
          | inl q ↦ rw q refl
          | inr q ↦ rw q refl
        ])

  here :
      (s : HandleStorage A) (handle h : ℕ)
      → (h == handle) ≡ true
      → grab s handle ≡ none
      → grab s h ≡ none
  here s handle h q e = ap (grab s) ((==_iff h handle).0 q) ∙ e

  -- The slot of the handle emptied, as the other handles see it.
  emptied_others :
      (s : HandleStorage A) (handle c h : ℕ)
      → s.slot (bit_and handle (s.slot_size - 1)) ≡ some c
      → (s.context_handle c == handle) ≡ true
      → (if bit_and h (s.slot_size - 1) == bit_and handle (s.slot_size - 1) then none else grab s h)
        ≡ (if h == handle then none else grab s h)
  emptied_others s handle c h e q = elim (Bool-cases (h == handle)) [
    | inl p ↦
        let same : h ≡ handle = (==_iff h handle).0 p in
        let hash = ap (λ x. bit_and x (s.slot_size - 1)) same in rw (p, (==_iff _ _).1 hash) refl
    | inr p ↦ elim (Bool-cases (bit_and h (s.slot_size - 1) == bit_and handle (s.slot_size - 1))) [
      | inl r ↦
          let foreign : (s.context_handle c == h) ≡ false = ground (
            arith,
            ==_iff (s.context_handle c) h,
            ==_iff (s.context_handle c) handle,
            ==_iff h handle,
          ) in
          rw (p, r) (sym (grab-foreign s h c (ap s.slot ((==_iff _ _).0 r) ∙ e) foreign))
      | inr r ↦ rw (p, r) refl
    ]
  ]

  -- `skynet_handle_retire` returns 1 and releases the context that `skynet_handle_grab` would return, or
  -- returns 0 and releases none if that would return none; afterwards the handle finds no context, and every
  -- other handle finds what it found before.
  pub retire-grab :
      (s : HandleStorage A) (handle : ℕ)
      → let r = retire s handle in
        (r.0 ≡ answer (grab s handle))
        × ((h : ℕ) → grab r.1 h ≡ (if h == handle then none else grab s h))
  unfolding retire
  retire-grab s handle = elim (option_cases (s.slot (bit_and handle (s.slot_size - 1)))) [
    | inl e ↦
        rw (e, grab-null s handle e)
          (
            refl,
            λ h. elim (Bool-cases (h == handle)) [
              | inl q ↦ rw q (here s handle h q (grab-null s handle e))
              | inr q ↦ rw q refl
            ],
          )
    | inr (c, e) ↦ elim (Bool-cases (s.context_handle c == handle)) [
      | inl own ↦
          rw (e, own, grab-own s handle c e own)
            (
              refl,
              λ h.
                  grab-emptied s _ (bit_and handle (s.slot_size - 1)) h refl refl refl
                  ∙ emptied_others s handle c h e own,
            )
      | inr foreign ↦
          rw (e, foreign, grab-foreign s handle c e foreign)
            (
              refl,
              λ h. elim (Bool-cases (h == handle)) [
                | inl q ↦ rw q (here s handle h q (grab-foreign s handle c e foreign))
                | inr q ↦ rw q refl
              ],
            )
    ]
  ]
