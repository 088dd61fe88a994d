-- ===== src/Handle/Names/Lookup.antt =====
-- The names of skynet_handle.c as a finite map: what `skynet_handle_findname` returns, before and behind
-- `skynet_handle_namehandle`.
use skynet_notes.Prelude.{
  ℕ, ◌≤◌, ◌<◌, ◌≡◌, ◌≢◌, refl, sym, ap, ◌∙◌, ◌⊎◌, inl, inr, ltb, ltb_iff, Bool-cases, arith,
}
use skynet_notes.Handle.{HandleStorage}
use skynet_notes.Handle.Names.{
  Sign, negative, equal, positive, Place, found_at, missing_at, search, findname,
}
use skynet_notes.Handle.Names.Search.{IsOrder, IsSorted, Finds, search-Finds}

-- The table of names in order: sorted, within its capacity, which is not 0.
pub record IsTable {A : Type 0} (strcmp : A → A → Sign) (s : HandleStorage A) : Type 0 where
  pub sorted : IsSorted strcmp s.name s.name_count
  pub fits : s.name_count ≤ s.name_cap
  pub some_cap : 0 < s.name_cap

-- No entry has the name.
abbrev pub IsAbsent : {A : Type 0} → HandleStorage A → A → Type 0
IsAbsent s key = (i : ℕ) → i < s.name_count → (s.name i).name ≢ key

pub place_cases : (p : Place) → ((m : ℕ) × (p ≡ found_at m)) ⊎ ((b : ℕ) × (p ≡ missing_at b))
place_cases (found_at m) = inl (m, refl)
place_cases (missing_at b) = inr (b, refl)

negative-ne : negative ≢ equal
negative-ne h = ground arith

positive-ne : positive ≢ equal
positive-ne h = ground arith

module _ {A : Type 0} {strcmp : A → A → Sign} (order : IsOrder strcmp) where
  abbrev pub look : HandleStorage A → A → Place
  look s key = search strcmp s.name_count s.name key 0 s.name_count

  pub look-Finds :
      (s : HandleStorage A) (key : A)
      → IsTable strcmp s
      → Finds strcmp s.name s.name_count key (look s key)
  look-Finds s key t =
      search-Finds order s.name_count s.name s.name_count key 0 s.name_count t.sorted (omega arith)
        (omega arith) (omega arith) (λ i h. absurd (omega arith)) (λ i h k. absurd (omega arith))

  findname-found :
      (s : HandleStorage A) (key : A) (m : ℕ)
      → look s key ≡ found_at m
      → findname strcmp s key ≡ (s.name m).handle
  unfolding findname
  findname-found s key m h = rw h refl

  pub findname-missing :
      (s : HandleStorage A) (key : A) (b : ℕ)
      → look s key ≡ missing_at b
      → findname strcmp s key ≡ 0
  unfolding findname
  findname-missing s key b h = rw h refl

  -- Two entries with one name are one entry.
  same_entry :
      (s : HandleStorage A) (i j : ℕ)
      → IsTable strcmp s
      → i < s.name_count
      → j < s.name_count
      → (s.name i).name ≡ (s.name j).name
      → i ≡ j
  same_entry s i j t h k e = elim (Bool-cases (ltb i j)) [
    | inl p ↦ absurd (clash i j e (t.sorted i j ((ltb_iff i j).0 p) k))
    | inr p ↦ elim (Bool-cases (ltb j i)) [
      | inl q ↦ absurd (clash j i (sym e) (t.sorted j i ((ltb_iff j i).0 q) h))
      | inr q ↦ ground (arith, ltb_iff i j, ltb_iff j i)
    ]
  ]
    where
      clash :
          (i j : ℕ)
          → (s.name i).name ≡ (s.name j).name
          → ¬ (strcmp (s.name i).name (s.name j).name ≡ negative)
      clash i j e c =
          negative-ne
            (sym c ∙ ap (λ a. strcmp a (s.name j).name) e ∙ order.reflexive (s.name j).name)

  pub missing-IsAbsent :
      (s : HandleStorage A) (key : A) (b : ℕ)
      → Finds strcmp s.name s.name_count key (missing_at b)
      → IsAbsent s key
  missing-IsAbsent s key b f i h e =
      let same : strcmp (s.name i).name key ≡ equal =
        ap (λ a. strcmp a key) e ∙ order.reflexive key in
      elim (Bool-cases (ltb i b)) [
        | inl p ↦ negative-ne (sym (f.1 i ((ltb_iff i b).0 p)) ∙ same)
        | inr p ↦ positive-ne (sym (f.2 i (ground (arith, ltb_iff i b)) h) ∙ same)
      ]

  -- `findname` returns the handle of the entry with the name.
  pub findname-entry :
      (s : HandleStorage A) (key : A) (i : ℕ)
      → IsTable strcmp s
      → i < s.name_count
      → (s.name i).name ≡ key
      → findname strcmp s key ≡ (s.name i).handle
  findname-entry s key i t h e = elim (place_cases (look s key)) [
    | inl (m, p) ↦
        let f = rw p at (look-Finds s key t) in
        findname-found s key m p
        ∙ ap (λ k. (s.name k).handle) (same_entry s m i t f.0 h (f.1 ∙ sym e))
    | inr (b, p) ↦ absurd (missing-IsAbsent s key b (rw p at (look-Finds s key t)) i h e)
  ]

  pub findname-absent :
      (s : HandleStorage A) (key : A)
      → IsTable strcmp s
      → IsAbsent s key
      → findname strcmp s key ≡ 0
  findname-absent s key t h = elim (place_cases (look s key)) [
    | inl (m, p) ↦ let f = rw p at (look-Finds s key t) in absurd (h m f.0 f.1)
    | inr (b, p) ↦ findname-missing s key b p
  ]
