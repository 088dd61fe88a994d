-- ===== src/Handle/Names/Search.antt =====
-- The binary search of skynet_handle.c in a sorted table.
use skynet_notes.Prelude.{
  ℕ, zero, suc, ◌+◌, ◌-◌, ◌/◌, ◌≤◌, ◌<◌, ◌≡◌, refl, ap, ◌∙◌, ◌⊎◌, inl, inr, ltb, ltb_iff, ◌==◌,
  ==_iff, Bool-cases, arith,
}
use skynet_notes.Handle.{HandleName}
use skynet_notes.Handle.Names.{Sign, negative, equal, positive, Place, found_at, missing_at, search}

-- What the code relies on in `strcmp`: its sign orders the strings.
pub record IsOrder {A : Type 0} (strcmp : A → A → Sign) : Type 0 where
  pub same : (a b : A) → strcmp a b ≡ equal → a ≡ b
  pub reflexive : (a : A) → strcmp a a ≡ equal
  pub swap : (a b : A) → strcmp a b ≡ positive → strcmp b a ≡ negative
  pub swap_back : (a b : A) → strcmp a b ≡ negative → strcmp b a ≡ positive
  pub transitive :
      (a b c : A) → strcmp a b ≡ negative → strcmp b c ≡ negative → strcmp a c ≡ negative

-- The first `n` names stand in strictly increasing order.
abbrev pub IsSorted : {A : Type 0} → (A → A → Sign) → (ℕ → HandleName A) → ℕ → Type 0
IsSorted strcmp table n =
    (i j : ℕ) → i < j → j < n → strcmp (table i).name (table j).name ≡ negative

-- What the search finds: an entry with the name, or where it belongs.
abbrev pub Finds : {A : Type 0} → (A → A → Sign) → (ℕ → HandleName A) → ℕ → A → Place → Type 0
Finds strcmp table n key (found_at m) = (m < n) × ((table m).name ≡ key)
Finds strcmp table n key (missing_at b) =
    (b ≤ n)
    × ((i : ℕ) → i < b → strcmp (table i).name key ≡ negative)
    × ((i : ℕ) → b ≤ i → i < n → strcmp (table i).name key ≡ positive)

pub sign_cases : (c : Sign) → (c ≡ negative) ⊎ (c ≡ equal) ⊎ (c ≡ positive)
sign_cases negative = inl refl
sign_cases equal = inr (inl refl)
sign_cases positive = inr (inr refl)

module _ {A : Type 0} {strcmp : A → A → Sign} (order : IsOrder strcmp) where
  -- What stands before a smaller name, or behind a greater one.
  still_below :
      (table : ℕ → HandleName A) (n m : ℕ) (key : A)
      → IsSorted strcmp table n
      → m < n
      → strcmp (table m).name key ≡ negative
      → (i : ℕ) → i < m + 1
      → strcmp (table i).name key ≡ negative
  still_below table n m key sorted h c i p = elim (Bool-cases (i == m)) [
    | inl s ↦ ap (λ k. strcmp (table k).name key) ((==_iff i m).0 s) ∙ c
    | inr s ↦
        let before : i < m = ground (arith, ==_iff i m) in
        order.transitive _ _ _ (sorted i m before h) c
  ]

  still_above :
      (table : ℕ → HandleName A) (n m : ℕ) (key : A)
      → IsSorted strcmp table n
      → m < n
      → strcmp (table m).name key ≡ positive
      → (i : ℕ) → m ≤ i
      → i < n
      → strcmp (table i).name key ≡ positive
  still_above table n m key sorted h c i p q = elim (Bool-cases (i == m)) [
    | inl s ↦ ap (λ k. strcmp (table k).name key) ((==_iff i m).0 s) ∙ c
    | inr s ↦
        let behind : m < i = ground (arith, ==_iff i m) in
        order.swap_back _ _ (order.transitive _ _ _ (order.swap _ _ c) (sorted m i behind q))
  ]

  -- With as much fuel as there are entries left, the search finds the name or its place.
  pub search-Finds :
      (fuel : ℕ) (table : ℕ → HandleName A) (n : ℕ) (key : A) (begin stop : ℕ)
      → IsSorted strcmp table n
      → stop ≤ n
      → begin ≤ stop
      → stop - begin ≤ fuel
      → ((i : ℕ) → i < begin → strcmp (table i).name key ≡ negative)
      → ((i : ℕ) → stop ≤ i → i < n → strcmp (table i).name key ≡ positive)
      → Finds strcmp table n key (search strcmp fuel table key begin stop)
  unfolding search
  search-Finds zero table n key begin stop sorted h₁ h₂ h₃ below above =
      (omega arith, below, λ i p q. above i (omega arith) q)
  search-Finds (suc fuel) table n key begin stop sorted h₁ h₂ h₃ below above =
      let mid = (begin + (stop - 1)) / 2 in
      elim (Bool-cases (ltb begin stop)) [
        | inr s ↦
            let done : stop ≡ begin = ground (arith, ltb_iff begin stop) in
            rw s (omega arith, below, λ i p q. above i (omega arith) q)
        | inl s ↦
            let more : begin < stop = (ltb_iff begin stop).0 s in
            elim (sign_cases (strcmp (table mid).name key)) [
              | inl c ↦
                  rw (s, c)
                    (search-Finds fuel table n key (mid + 1) stop sorted h₁ (omega arith)
                      (omega arith) (still_below table n mid key sorted (omega arith) c) above)
              | inr (inl c) ↦ rw (s, c) (omega arith, order.same _ _ c)
              | inr (inr c) ↦
                  rw (s, c)
                    (search-Finds fuel table n key begin mid sorted (omega arith) (omega arith)
                      (omega arith) below (still_above table n mid key sorted (omega arith) c))
            ]
      ]
