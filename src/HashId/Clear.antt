-- ===== src/HashId/Clear.antt =====
-- A node of hashid.h that was taken out of its chain becomes free.
use skynet_notes.Prelude.{
  ℕ, ◌≡◌, ◌≢◌, refl, ap, sym, ◌∙◌, false, Option, none, some, List, [], ◌∷◌, ◌==◌, ==_iff,
  if◌then◌else◌, either, Bool-cases, inl, inr, arith,
}
use skynet_notes.HashId.{HashIdNode, HashId, is_free, clear}
use skynet_notes.HashId.Count.{used-taken}
use skynet_notes.HashId.Chain.{
  Chain, AllOf, Distinct, In, AllOf-at, AllOf-map, Chain-frame, without, AllOf-without,
  without-Distinct, without-gone, In-without, other, same,
}
use skynet_notes.HashId.Refine.{bucket, Member, members_at, Table}

-- A map with one entry less.
abbrev pub without_entry : ℕ → (ℕ → Option ℕ) → ℕ → Option ℕ
without_entry id map y = if id == y then none else map y

pub some_same : {a b : ℕ} → some a ≡ some b → a ≡ b
some_same e = ground (arith, e)

module _ (hi : HashId) (map : ℕ → Option ℕ) (id t : ℕ) (table : Table hi map)
    (found : map id ≡ some t) (node : ℕ → HashIdNode) (hash : ℕ → Option ℕ)
    (ids : (d : ℕ) → (node d).id ≡ (hi.node d).id)
    (nexts : (d : ℕ) → (hi.node d).id ≡ none → (node d).next ≡ (hi.node d).next)
    (cut : Chain node (hash (bucket hi id)) (without t (table.chain (bucket hi id))))
    (others : (i : ℕ) → (i == bucket hi id) ≡ false → Chain node (hash i) (table.chain i)) where
  abbrev pub cleared : HashId
  cleared = (clear (record hi { node = node; hash = hash }) t).0

  abbrev left : ℕ → List ℕ
  left i = if i == bucket hi id then without t (table.chain (bucket hi id)) else table.chain i

  holds_id : (hi.node t).id ≡ some id
  holds_id = (table.complete id t found).1

  gone : (i : ℕ) → AllOf (λ d. d ≢ t) (left i)
  gone i =
      let h = bucket hi id in
      either (AllOf (λ d. d ≢ t)) (i == h) (λ e. without-gone t (table.chain h) (table.distinct h))
        (λ e.
          AllOf-map (Member hi map i) (λ d. d ≢ t) (table.chain i)
            (λ d m f.
              let q : id ≡ Member.id m =
                some_same
                  (sym holds_id ∙ ap (λ (j : ℕ). (hi.node j).id) (sym f) ∙ Member.holds m) in
              absurd (ground (arith, e, ap (bucket hi) q ∙ Member.belongs m)))
            (table.members i))

  cleared_chain :
      {o : Option ℕ} {l : List ℕ} → AllOf (λ d. d ≢ t) l → Chain node o l → Chain cleared.node o l
  cleared_chain {l = l} f k =
      Chain-frame node cleared.node
        (AllOf-map (λ d. d ≢ t) (λ d. (cleared.node d).next ≡ (node d).next) l
          (λ d g. rw (other d t g) refl) f)
        k

  cleared_chained : (i : ℕ) → Chain cleared.node (hash i) (left i)
  cleared_chained i =
      let h = bucket hi id in
      cleared_chain (gone i) (elim (Bool-cases (i == h)) [
        | inl e ↦ rw (e, (==_iff i h).0 e) cut
        | inr e ↦ rw e (others i e)
      ])

  cleared-Distinct : (i : ℕ) → Distinct (left i)
  cleared-Distinct i =
      let h = bucket hi id in
      either Distinct (i == h) (λ e. without-Distinct t (table.chain h) (table.distinct h))
        (λ e. table.distinct i)

  left_members : (i : ℕ) → AllOf (Member hi map i) (left i)
  left_members i =
      let h = bucket hi id in
      either (AllOf (Member hi map i)) (i == h)
        (λ e.
          members_at hi map h i (without t (table.chain h)) (sym ((==_iff i h).0 e))
            (AllOf-without (Member hi map h) t (table.chain h) (table.members h)))
        (λ e. table.members i)

  cleared-Member : (i d : ℕ) → d ≢ t → Member hi map i d → Member cleared (without_entry id map) i d
  cleared-Member i d f m =
      let n : (id == m.id) ≡ false =
        other id m.id (λ e. absurd (f (some_same (sym (m.maps) ∙ ap map (sym e) ∙ found)))) in
      record {
        id = m.id;
        below = m.below;
        holds = rw (other d t f) (ids d ∙ m.holds);
        belongs = m.belongs;
        maps = rw n (m.maps);
      }

  cleared_members : (i : ℕ) → AllOf (Member cleared (without_entry id map) i) (left i)
  cleared_members i = all (left i) (gone i) (left_members i)
    where
      all :
          (l : List ℕ)
          → AllOf (λ d. d ≢ t) l
          → AllOf (Member hi map i) l
          → AllOf (Member cleared (without_entry id map) i) l
      all [] f m = tt
      all (d ∷ l) f m = (cleared-Member i d f.0 m.0, all l f.1 m.1)

  cleared_complete :
      (y d : ℕ)
      → without_entry id map y ≡ some d
      → In d (left (bucket hi y)) × ((cleared.node d).id ≡ some y)
  cleared_complete y d e = elim (Bool-cases (id == y)) [
    | inl q ↦ absurd (ground (arith, rw q at e))
    | inr q ↦
        let (i, n) = table.complete y d (rw q at e) in
        let f : d ≢ t = λ g. absurd (
          ground
            (arith, q, some_same (sym holds_id ∙ ap (λ (j : ℕ). (hi.node j).id) (sym g) ∙ n))) in
        (stays y d f i, rw (other d t f) (ids d ∙ n))
  ]
    where
      stays : (y d : ℕ) → d ≢ t → In d (table.chain (bucket hi y)) → In d (left (bucket hi y))
      stays y d f i =
          let h = bucket hi id in
          either (In d) (bucket hi y == h)
            (λ e. In-without d t f (rw ((==_iff (bucket hi y) h).0 e) at i)) (λ e. i)

  cleared_loose : (d : ℕ) → (cleared.node d).id ≡ none → (cleared.node d).next ≡ none
  cleared_loose d e = elim (Bool-cases (d == t)) [
    | inl q ↦ rw q refl
    | inr q ↦
        let free : (hi.node d).id ≡ none = sym (ids d) ∙ rw q at e in
        rw q (nexts d free ∙ table.loose d free)
  ]

  pub cleared-Table : Table cleared (without_entry id map)
  cleared-Table = record {
    chain = left;
    chained = cleared_chained;
    distinct = cleared-Distinct;
    members = cleared_members;
    complete = cleared_complete;
    loose = cleared_loose;
    counted =
        let freed =
          used-taken hi.cap cleared.node hi.node t (λ d f. rw (other d t f) (sym (ids d)))
            (Member.below (
              AllOf-at (Member hi map (bucket hi id)) t (table.members (bucket hi id))
                (table.complete id t found).0))
            (rw (same t) refl) (ap is_free holds_id) in
        omega (arith, table.counted, freed);
  }
