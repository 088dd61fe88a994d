-- ===== src/Handle/Forget.antt =====
-- `skynet_handle_retire` of skynet_handle.c: the names that are left.
use skynet_notes.Prelude.{
  ℕ, zero, suc, ◌+◌, ◌-◌, ◌≤◌, ◌<◌, ◌≡◌, refl, sym, ap, ◌∙◌, ◌⊎◌, inl, inr, true, false, List, [],
  ◌∷◌, ◌++◌, append-nil, append_assoc, ◌==◌, ==_iff, if◌then◌else◌, Bool-cases, arith, bit_and,
}
use skynet_notes.Handle.{HandleName, HandleStorage, is_null, grab, keep_name, keep_names, retire}
use skynet_notes.Handle.Slots.{option_cases, grab-null, grab-own, grab-foreign}

module _ {A : Type 0} where
  -- The `n` entries of a table from `i` on.
  abbrev pub entries : (ℕ → HandleName A) → ℕ → ℕ → List (HandleName A)
  entries table i zero = []
  entries table i (suc n) = table i ∷ entries table (i + 1) n

  -- The entries that name another handle.
  abbrev pub without : ℕ → List (HandleName A) → List (HandleName A)
  without handle [] = []
  without handle (e ∷ es) = if e.handle == handle then without handle es else e ∷ without handle es

  entries-written :
      (table : ℕ → HandleName A) (j : ℕ) (e : HandleName A) (n i : ℕ)
      → (j < i) ⊎ (i + n ≤ j)
      → entries (λ k. if k == j then e else table k) i n ≡ entries table i n
  entries-written table j e zero i h = refl
  entries-written table j e (suc n) i h =
      let other : (i == j) ≡ false = ground (arith, ==_iff i j) in
      rw (other, entries-written table j e n (i + 1) (ground arith)) refl

  entries-snoc :
      (table : ℕ → HandleName A) (n i : ℕ)
      → entries table i (n + 1) ≡ entries table i n ++ table (i + n) ∷ []
  entries-snoc table zero i = ap (λ k. table k ∷ []) (omega arith)
  entries-snoc table (suc n) i =
      let step : suc n + 1 ≡ suc (n + 1) = omega arith in
      ap (entries table i) step
      ∙ ap (λ (l : List (HandleName A)). table i ∷ l)
          (entries-snoc table n (i + 1)
            ∙ ap (λ k. entries table (i + 1) n ++ table k ∷ []) (omega arith))

  -- A kept entry stands behind those before `j`.
  entries-kept :
      (table table' : ℕ → HandleName A) (handle i j n : ℕ)
      → entries table' 0 j ≡ entries table 0 j
      → table' (0 + j) ≡ table i
      → entries table' (i + 1) n ≡ entries table (i + 1) n
      → entries table' 0 (j + 1) ++ without handle (entries table' (i + 1) n)
        ≡ entries table 0 j ++ table i ∷ without handle (entries table (i + 1) n)
  entries-kept table table' handle i j n e₁ e₂ e₃ =
      rw (entries-snoc table' j 0, e₁, e₂, e₃)
        (append_assoc (entries table 0 j) (table i ∷ []) (without handle (entries table (i + 1) n)))

  -- The loop keeps what stands before `j`, and moves the rest of the names of other handles behind it.
  keep_names-without :
      (n : ℕ) (table : ℕ → HandleName A) (handle i j : ℕ)
      → j ≤ i
      → let r = keep_names n table handle i j in
        entries r.0 0 r.1 ≡ entries table 0 j ++ without handle (entries table i n)
  unfolding keep_names
  keep_names-without zero table handle i j h = sym (append-nil (entries table 0 j))
  keep_names-without (suc n) table handle i j h = elim (Bool-cases ((table i).handle == handle)) [
    | inl e ↦
        from (table, j) (rw e refl)
          (keep_names-without n table handle (i + 1) j (omega arith) ∙ rw e refl)
    | inr e ↦ elim (Bool-cases (i == j)) [
      | inl t ↦
          let here : 0 + j ≡ i = omega (arith, (==_iff i j).0 t) in
          from (table, j + 1) (rw (e, t) refl)
            (keep_names-without n table handle (i + 1) (j + 1) (omega arith)
              ∙ entries-kept table table handle i j n refl (ap table here) refl
              ∙ rw e refl)
      | inr t ↦
          let table' : ℕ → HandleName A = λ k. if k == j then table i else table k in
          let here : (0 + j == j) ≡ true = (==_iff (0 + j) j).1 (omega arith) in
          from (table', j + 1) (rw (e, t) refl)
            (keep_names-without n table' handle (i + 1) (j + 1) (omega arith)
              ∙ entries-kept table table' handle i j n
                  (entries-written table j (table i) j 0 (inr (omega arith))) (rw here refl)
                  (entries-written table j (table i) n (i + 1) (inl (omega arith)))
              ∙ rw e refl)
    ]
  ]
    where
      from :
          (st : (ℕ → HandleName A) × ℕ) {l : List (HandleName A)}
          → keep_name table handle i j ≡ st
          → (let r = keep_names n st.0 handle (i + 1) st.1 in entries r.0 0 r.1 ≡ l)
          → (let r = keep_names (suc n) table handle i j in entries r.0 0 r.1 ≡ l)
      from st e p =
          ap
            (λ (st : (ℕ → HandleName A) × ℕ).
              let r = keep_names n st.0 handle (i + 1) st.1 in entries r.0 0 r.1)
            e
          ∙ p

  -- If the handle finds a context, `skynet_handle_retire` leaves of the table of names the entries of other
  -- handles, in their order; otherwise it leaves all of them.
  pub retire-entries :
      (s : HandleStorage A) (handle : ℕ)
      → let s' = (retire s handle).1 in
        let before = entries s.name 0 s.name_count in
        entries s'.name 0 s'.name_count
        ≡ (if is_null (grab s handle) then before else without handle before)
  unfolding retire
  retire-entries s handle = elim (option_cases (s.slot (bit_and handle (s.slot_size - 1)))) [
    | inl e ↦ rw (e, grab-null s handle e) refl
    | inr (c, e) ↦ elim (Bool-cases (s.context_handle c == handle)) [
      | inl own ↦
          rw (e, own, grab-own s handle c e own)
            (keep_names-without s.name_count s.name handle 0 0 (omega arith))
      | inr foreign ↦ rw (e, foreign, grab-foreign s handle c e foreign) refl
    ]
  ]
