-- ===== src/Handle/Names/Named.antt =====
-- `skynet_handle_namehandle` of skynet_handle.c: it adds one name to the finite map, or none.
use skynet_notes.Prelude.{
  ℕ, ◌+◌, ◌-◌, ◌<◌, ◌≡◌, ◌≢◌, refl, sym, ap, ◌∙◌, ◌⊎◌, inl, inr, Bool, true, false, Option, some,
  ltb, ltb_iff, ◌==◌, ==_iff, Bool-cases, arith,
}
use skynet_notes.Handle.{HandleName, HandleStorage}
use skynet_notes.Handle.Names.{Sign, missing_at, findname, insert_name}
use skynet_notes.Handle.Names.Search.{IsOrder, IsSorted, Finds}
use skynet_notes.Handle.Names.Insert.{entry_behind, HasRoom, Inserted, insert_name_before_lem}
use skynet_notes.Handle.Names.Lookup.{
  IsTable, IsAbsent, place_cases, look, look-Finds, missing-IsAbsent, findname-entry,
  findname-absent,
}

module _ {A : Type 0} where
  -- Where an entry behind the insertion comes from.
  entry_cases :
      (table : ℕ → HandleName A) (b : ℕ) (e : HandleName A) (x : ℕ)
      → ((x < b) × (entry_behind table b e x ≡ table x))
        ⊎ ((x ≡ b) × (entry_behind table b e x ≡ e))
        ⊎ ((b < x) × (entry_behind table b e x ≡ table (x - 1)))
  entry_cases table b e x = elim (Bool-cases (ltb x b)) [
    | inl p ↦ inl ((ltb_iff x b).0 p, rw p refl)
    | inr p ↦ elim (Bool-cases (x == b)) [
      | inl q ↦ inr (inl ((==_iff x b).0 q, rw (p, q) refl))
      | inr q ↦ inr (inr (ground (arith, ltb_iff x b, ==_iff x b), rw (p, q) refl))
    ]
  ]

module _ {A : Type 0} {strcmp : A → A → Sign} (order : IsOrder strcmp) where
  -- A name put where the search ended leaves the table sorted.
  behind-IsSorted :
      (table : ℕ → HandleName A) (n b : ℕ) (e : HandleName A)
      → IsSorted strcmp table n
      → Finds strcmp table n e.name (missing_at b)
      → IsSorted strcmp (entry_behind table b e) (n + 1)
  behind-IsSorted table n b e sorted f i j p q = elim (entry_cases table b e i) [
    | inl (h, u) ↦ elim (entry_cases table b e j) [
      | inl (k, v) ↦ rw (u, v) (sorted i j p (omega arith))
      | inr (inl (k, v)) ↦ rw (u, v) (f.1 i h)
      | inr (inr (k, v)) ↦ rw (u, v) (sorted i (j - 1) (omega arith) (omega arith))
    ]
    | inr (inl (h, u)) ↦ elim (entry_cases table b e j) [
      | inl (k, v) ↦ absurd (omega arith)
      | inr (inl (k, v)) ↦ absurd (omega arith)
      | inr (inr (k, v)) ↦ rw (u, v) (order.swap _ _ (f.2 (j - 1) (omega arith) (omega arith)))
    ]
    | inr (inr (h, u)) ↦ elim (entry_cases table b e j) [
      | inl (k, v) ↦ absurd (omega arith)
      | inr (inl (k, v)) ↦ absurd (omega arith)
      | inr (inr (k, v)) ↦ rw (u, v) (sorted (i - 1) (j - 1) (omega arith) (omega arith))
    ]
  ]

  -- What `skynet_handle_namehandle` does: the name is there already and nothing changes, or it goes in.
  pub data NamesHandle (s : HandleStorage A) (key : A) (handle : ℕ)
      : Option (Bool × HandleStorage A) → Type 0 where
    in_use :
        (i : ℕ)
        → i < s.name_count
        → (s.name i).name ≡ key
        → NamesHandle s key handle (some (false, s))
    named :
        (t : HandleStorage A)
        → IsAbsent s key
        → IsTable strcmp t
        → findname strcmp t key ≡ handle
        → ((other : A) → other ≢ key → findname strcmp t other ≡ findname strcmp s other)
        → NamesHandle s key handle (some (true, t))

  -- In the table behind an insertion.
  module _ {s t : HandleStorage A} {b : ℕ} {e : HandleName A} (ins : Inserted s t b e)
      (table : IsTable strcmp s) (f : Finds strcmp s.name s.name_count e.name (missing_at b)) where
    Inserted-IsTable : IsTable strcmp t
    Inserted-IsTable = record {
      sorted = λ i j p q.
          rw (ins.entry i (omega (arith, ins.count)), ins.entry j (omega (arith, ins.count)))
            (behind-IsSorted s.name s.name_count b e table.sorted f i j p
              (omega (arith, ins.count)));
      fits = ins.room;
      some_cap = omega (arith, ins.count, ins.room);
    }

    findname-new : IsTable strcmp t → findname strcmp t e.name ≡ e.handle
    findname-new table' =
        let here : t.name b ≡ e = ins.entry b f.0 ∙ ground arith in
        findname-entry order t e.name b table' (omega (arith, ins.count, f.0))
          (ap (λ x. x.name) here)
        ∙ ap (λ x. x.handle) here

    -- Every old entry is in the new table.
    old_entry : (i : ℕ) → i < s.name_count → (j : ℕ) × (j < t.name_count) × (t.name j ≡ s.name i)
    old_entry i h = elim (Bool-cases (ltb i b)) [
      | inl p ↦ (i, omega (arith, ins.count), ins.entry i (omega arith) ∙ rw p refl)
      | inr p ↦ (
        i + 1,
        omega (arith, ins.count),
        ins.entry (i + 1) (omega arith)
            ∙ (let back : s.name (i + 1 - 1) ≡ s.name i = ap s.name (omega arith) in
                ground (arith, back, ltb_iff i b, ==_iff (i + 1) b)),
      )
    ]

    still-IsAbsent : {other : A} → other ≢ e.name → IsAbsent s other → IsAbsent t other
    still-IsAbsent ne absent i h q =
        let same = λ (d : HandleName A) (u : entry_behind s.name b e i ≡ d).
          ap (λ (x : HandleName A). x.name) (sym u ∙ sym (ins.entry i (omega (arith, ins.count))))
          ∙ q in
        elim (entry_cases s.name b e i) [
          | inl (k, u) ↦ absent i (omega (arith, f.0)) (same _ u)
          | inr (inl (k, u)) ↦ ne (sym (same _ u))
          | inr (inr (k, u)) ↦ absent (i - 1) (omega (arith, ins.count)) (same _ u)
        ]

    findname-other :
        IsTable strcmp t
        → (other : A) → other ≢ e.name
        → findname strcmp t other ≡ findname strcmp s other
    findname-other table' other ne = elim (place_cases (look order s other)) [
      | inl (m, p) ↦
          let g = rw p at (look-Finds order s other table) in
          let (j, h, same) = old_entry m g.0 in
          findname-entry order t other j table' h (ap (λ x. x.name) same ∙ g.1)
          ∙ ap (λ x. x.handle) same
          ∙ sym (findname-entry order s other m table g.0 g.1)
      | inr (c, p) ↦
          let absent =
            missing-IsAbsent order s other c (rw p at (look-Finds order s other table)) in
          findname-absent order t other table' (still-IsAbsent ne absent)
          ∙ sym (findname-absent order s other table absent)
    ]

  -- If `strcmp` orders the strings, and the table is in order and below its greatest size, then
  -- `skynet_handle_namehandle` changes nothing when the name is there already; otherwise the table is in
  -- order again, `skynet_handle_findname` returns the handle for the new name, and what it returned before
  -- for every other name.
  pub insert_name_lem :
      (s : HandleStorage A) (blank : ℕ → HandleName A) (key : A) (handle : ℕ)
      → IsTable strcmp s
      → HasRoom s
      → NamesHandle s key handle (insert_name strcmp s blank key handle)
  unfolding insert_name
  insert_name_lem s blank key handle table room = elim (place_cases (look order s key)) [
    | inl (m, p) ↦ let f = rw p at (look-Finds order s key table) in rw p (in_use m f.0 f.1)
    | inr (b, p) ↦
        let f = rw p at (look-Finds order s key table) in
        let (t, q, ins) =
          insert_name_before_lem s blank key handle b room table.some_cap table.fits f.0 in
        let table' = Inserted-IsTable ins table f in
        rw (p, q)
          (named t (missing-IsAbsent order s key b f) table' (findname-new ins table f table')
            (findname-other ins table f table'))
  ]
