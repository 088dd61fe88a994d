-- ===== src/Handle/Names/Insert.antt =====
-- `_insert_name_before` of skynet_handle.c: the entries of the table behind it, on both of its branches.
use skynet_notes.Prelude.{
  ℕ, zero, suc, ◌+◌, ◌-◌, ◌*◌, ◌≤◌, ◌<◌, ◌≡◌, refl, ap, ◌∙◌, ◌⊎◌, inl, inr, true, some, ltb, leb,
  ◌==◌, ==_iff, if◌then◌else◌, Bool-cases, arith,
}
use skynet_notes.Handle.{HandleName, HandleStorage, max_slot_size}
use skynet_notes.Handle.Names.{copy_names, shift_names, make_gap, insert_name_before}

module _ {A : Type 0} where
  copy_names_lem :
      (k : ℕ) (table : ℕ → HandleName A) (d : ℕ) (n : ℕ → HandleName A) (i x : ℕ)
      → copy_names k table d n i x
        ≡ (if ltb x (i + d) then n x else if ltb x (i + k + d) then table (x - d) else n x)
  unfolding copy_names
  copy_names_lem zero table d n i x = ground arith
  copy_names_lem (suc k) table d n i x =
      copy_names_lem k table d (λ j. if j == i + d then table i else n j) (i + 1) x
      ∙ elim (Bool-cases (x == i + d)) [
        | inl s ↦
            let back : i ≡ x - d = omega (arith, (==_iff x (i + d)).0 s) in
            let here : table i ≡ table (x - d) = ap table back in
            ground (arith, here, ==_iff x (i + d))
        | inr s ↦ ground (arith, ==_iff x (i + d))
      ]

  shift_names_lem :
      (k : ℕ) (table : ℕ → HandleName A) (i x : ℕ)
      → k ≤ i
      → shift_names k table i x
        ≡ (if leb x (i - k) then table x else if leb x i then table (x - 1) else table x)
  unfolding shift_names
  shift_names_lem zero table i x h = ground arith
  shift_names_lem (suc k) table i x h =
      shift_names_lem k (λ j. if j == i then table (i - 1) else table j) (i - 1) x (omega arith)
      ∙ elim (Bool-cases (x == i)) [
        | inl s ↦
            let back : i - 1 ≡ x - 1 = omega (arith, (==_iff x i).0 s) in
            let here : table (i - 1) ≡ table (x - 1) = ap table back in
            ground (arith, here, ==_iff x i)
        | inr s ↦ ground (arith, ==_iff x i)
      ]

  -- An entry of the table behind `_insert_name_before`.
  abbrev pub entry_behind : (ℕ → HandleName A) → ℕ → HandleName A → ℕ → HandleName A
  entry_behind table before e x =
      if ltb x before then table x else if x == before then e else table (x - 1)

  abbrev pub HasRoom : HandleStorage A → Type 0
  HasRoom s = (s.name_count < s.name_cap) ⊎ (s.name_cap * 2 ≤ max_slot_size)

  -- The storage behind a name that went in at `before`.
  pub record Inserted (s t : HandleStorage A) (before : ℕ) (e : HandleName A) : Type 0 where
    pub count : t.name_count ≡ s.name_count + 1
    pub room : t.name_count ≤ t.name_cap
    pub entry : (x : ℕ) → x ≤ s.name_count → t.name x ≡ entry_behind s.name before e x
    pub slots : (t.slot ≡ s.slot) × (t.slot_size ≡ s.slot_size)

  pub insert_name_before_lem :
      (s : HandleStorage A) (blank : ℕ → HandleName A) (key : A) (handle before : ℕ)
      → HasRoom s
      → 0 < s.name_cap
      → s.name_count ≤ s.name_cap
      → before ≤ s.name_count
      → (t : HandleStorage A) × (insert_name_before s blank key handle before ≡ some t)
        × Inserted s t before (record { name = key; handle = handle })
  unfolding insert_name_before make_gap
  insert_name_before_lem s blank key handle before room some_cap fits h =
      elim (Bool-cases (leb s.name_cap s.name_count)) [
        | inl full ↦
            let twice : leb (s.name_cap * 2) max_slot_size ≡ true = ground arith in
            rw (full, twice)
              (
                _,
                refl,
                record {
                  count = refl;
                  room = ground arith;
                  entry = λ x p.
                      rw
                        (
                          copy_names_lem (s.name_count - before) s.name 1 _ before x,
                          copy_names_lem before s.name 0 blank 0 x,
                        )
                        (ground (arith, ==_iff x before));
                  slots = (refl, refl);
                },
              )
        | inr free ↦ rw free (
          _,
          refl,
          record {
            count = refl;
            room = ground arith;
            entry = λ x p.
                rw (shift_names_lem (s.name_count - before) s.name s.name_count x (omega arith))
                  (ground (arith, ==_iff x before));
            slots = (refl, refl);
          },
        )
      ]
