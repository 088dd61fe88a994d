-- ===== src/HashId/Insert.antt =====
-- `hashid_insert` of hashid.h.
use skynet_notes.Prelude.{
  ℕ, zero, suc, ◌+◌, ◌-◌, ◌%◌, ◌≤◌, ◌<◌, ◌≡◌, ◌≢◌, refl, ap, sym, ◌∙◌, true, false, Option, none,
  some, List, [], ◌∷◌, ltb, ◌==◌, ==_iff, if◌then◌else◌, either, Bool-cases, inl, inr, arith,
}
use skynet_notes.HashId.{
  HashId, is_free, linked, link_node, find_free, hashid_insert, hashid_full, hashid_lookup,
}
use skynet_notes.HashId.Count.{used, used-taken, free_one, used-bound}
use skynet_notes.HashId.Chain.{
  Chain, link, AllOf, Distinct, In, here, there, AllOf-map, Chain-frame, other, same,
}
use skynet_notes.HashId.Refine.{bucket, Member, members_at, Table, hashid_lookup_lem}

-- A map with one more entry.
abbrev pub with_entry : ℕ → ℕ → (ℕ → Option ℕ) → ℕ → Option ℕ
with_entry id c map y = if id == y then some c else map y

module _ (hi : HashId) (map : ℕ → Option ℕ) (id c : ℕ) (t : Table hi map)
    (free : (hi.node c).id ≡ none) where
  not_in : (h : ℕ) → AllOf (λ d. d ≢ c) (t.chain h)
  not_in h =
      AllOf-map (Member hi map h) (λ d. d ≢ c) (t.chain h)
        (λ d m e.
          absurd (ground (arith, sym (Member.holds m) ∙ ap (λ (i : ℕ). (hi.node i).id) e ∙ free)))
        (t.members h)

  abbrev new_chain : ℕ → List ℕ
  new_chain i = if i == bucket hi id then c ∷ t.chain (bucket hi id) else t.chain i

  old_chained :
      (h : ℕ) {o : Option ℕ}
      → Chain hi.node o (t.chain h)
      → Chain (linked hi id c).node o (t.chain h)
  old_chained h k =
      Chain-frame hi.node (linked hi id c).node
        (AllOf-map (λ d. d ≢ c) (λ d. ((linked hi id c).node d).next ≡ (hi.node d).next) (t.chain h)
          (λ d f. rw (other d c f) refl) (not_in h))
        k

  new_chained : (i : ℕ) → Chain (linked hi id c).node ((linked hi id c).hash i) (new_chain i)
  new_chained i =
      let h = bucket hi id in
      elim (Bool-cases (i == h)) [
        | inl e ↦ rw e (link c (rw (same c) (old_chained h (t.chained h))))
        | inr e ↦ rw e (old_chained i (t.chained i))
      ]

  new_chain-Distinct : (i : ℕ) → Distinct (new_chain i)
  new_chain-Distinct i =
      let h = bucket hi id in
      either Distinct (i == h) (λ e. (not_in h, t.distinct h)) (λ e. t.distinct i)

  linked-Member :
      map id ≡ none
      → (h d : ℕ) → d ≢ c
      → Member hi map h d
      → Member (linked hi id c) (with_entry id c map) h d
  linked-Member u h d f m =
      let n : (id == m.id) ≡ false =
        other id m.id (λ e. absurd (ground (arith, sym u ∙ ap map e ∙ m.maps))) in
      record {
        id = m.id;
        below = m.below;
        holds = rw (other d c f) (m.holds);
        belongs = m.belongs;
        maps = rw n (m.maps);
      }

  old_members :
      map id ≡ none → (h : ℕ) → AllOf (Member (linked hi id c) (with_entry id c map) h) (t.chain h)
  old_members u h = all (t.chain h) (not_in h) (t.members h)
    where
      all :
          (l : List ℕ)
          → AllOf (λ d. d ≢ c) l
          → AllOf (Member hi map h) l
          → AllOf (Member (linked hi id c) (with_entry id c map) h) l
      all [] f m = tt
      all (d ∷ l) f m = (linked-Member u h d f.0 m.0, all l f.1 m.1)

  linked_id-Member : c < hi.cap → Member (linked hi id c) (with_entry id c map) (bucket hi id) c
  linked_id-Member b = record {
    id = id;
    below = b;
    holds = rw (same c) refl;
    belongs = refl;
    maps = rw (same id) refl;
  }

  new_members :
      c < hi.cap
      → map id ≡ none
      → (i : ℕ) → AllOf (Member (linked hi id c) (with_entry id c map) i) (new_chain i)
  new_members b u i =
      let h = bucket hi id in
      either (AllOf (Member (linked hi id c) (with_entry id c map) i)) (i == h)
        (λ e.
          members_at (linked hi id c) (with_entry id c map) h i (c ∷ t.chain h)
            (sym ((==_iff i h).0 e)) (linked_id-Member b, old_members u h))
        (λ e. old_members u i)

  new_chain-In : (d i : ℕ) → In d (t.chain i) → In d (new_chain i)
  new_chain-In d i m =
      let h = bucket hi id in
      either (In d) (i == h) (λ e. there c (rw ((==_iff i h).0 e) at m)) (λ e. m)

  linked_id-In : In c (new_chain (bucket hi id))
  linked_id-In = rw (same (bucket hi id)) here

  new_complete :
      (y d : ℕ)
      → with_entry id c map y ≡ some d
      → In d (new_chain (bucket hi y)) × (((linked hi id c).node d).id ≡ some y)
  new_complete y d e = elim (Bool-cases (id == y)) [
    | inl q ↦ found ((==_iff id y).0 q) (rw q at e)
    | inr q ↦
        let (i, n) = t.complete y d (rw q at e) in
        let f : d ≢ c =
          λ g. absurd (ground (arith, sym n ∙ ap (λ (j : ℕ). (hi.node j).id) g ∙ free)) in
        (new_chain-In d (bucket hi y) i, rw (other d c f) n)
  ]
    where
      found :
          id ≡ y
          → some c ≡ some d
          → In d (new_chain (bucket hi y)) × (((linked hi id c).node d).id ≡ some y)
      found e f =
          let g : c ≡ d = ground (arith, f) in rw (sym g, sym e) (linked_id-In, rw (same c) refl)

  new_loose : (d : ℕ) → ((linked hi id c).node d).id ≡ none → ((linked hi id c).node d).next ≡ none
  new_loose d e = elim (Bool-cases (d == c)) [
    | inl q ↦ absurd (ground (arith, rw q at e))
    | inr q ↦ rw q (t.loose d (rw q at e))
  ]

  -- A free node is taken for an id that is not in the table.
  pub linked-Table : c < hi.cap → map id ≡ none → Table (linked hi id c) (with_entry id c map)
  linked-Table b u = record {
    chain = new_chain;
    chained = new_chained;
    distinct = new_chain-Distinct;
    members = new_members b u;
    complete = new_complete;
    loose = new_loose;
    counted = omega (
      arith,
      t.counted,
      used-taken hi.cap hi.node (linked hi id c).node c (λ d f. rw (other d c f) refl) b
          (ap is_free free) (rw (same c) refl),
    );
  }

-- A node that is found is free.
abbrev FreeAt : HashId → Option ℕ → Type 0
FreeAt hi none = Unit {0}
FreeAt hi (some c) = (c < hi.cap) × ((hi.node c).id ≡ none)

no_id : (o : Option ℕ) → is_free o ≡ true → o ≡ none
no_id none e = refl
no_id (some x) e = absurd (ground (arith, e))

find_free-FreeAt : (n : ℕ) (hi : HashId) (id i : ℕ) → 0 < hi.cap → FreeAt hi (find_free n hi id i)
unfolding find_free
find_free-FreeAt zero hi id i b = tt
find_free-FreeAt (suc n) hi id i b =
    let index = (i + id) % hi.cap in
    either (FreeAt hi) (ltb 0x7fffffff (i + id)) (λ e. tt)
      (λ e.
        either (FreeAt hi) (is_free (hi.node index).id)
          (λ f. (mod-below (i + id) hi.cap b, no_id (hi.node index).id f))
          (λ f. find_free-FreeAt n hi id (i + 1) b))
  where
    mod-below : (a b : ℕ) → 0 < b → a % b < b
    mod-below a b h = grind arith

-- The round in which the node `j` is looked at.
round_of : (j cap id : ℕ) → j < cap → (k : ℕ) × (k < cap) × ((k + id) % cap ≡ j)
round_of j cap id h =
    let r = id % cap in
    elim (Bool-cases (ltb j r)) [
      | inl e ↦ (j + cap - r, grind arith, grind arith)
      | inr e ↦ (j - r, grind arith, grind arith)
    ]

-- A free node that the rounds reach is found, or one before it.
find_free-some :
    (n : ℕ) (hi : HashId) (id i k : ℕ)
    → i ≤ k
    → k < i + n
    → i + n + id ≤ 0x80000000
    → is_free (hi.node ((k + id) % hi.cap)).id ≡ true
    → find_free n hi id i ≢ none
unfolding find_free
find_free-some zero hi id i k a b c f = absurd (omega arith)
find_free-some (suc n) hi id i k a b c f =
    let index = (i + id) % hi.cap in
    either (λ o. o ≢ none) (ltb 0x7fffffff (i + id)) (λ e. absurd (ground (arith, e)))
      (λ e.
        either (λ o. o ≢ none) (is_free (hi.node index).id) (λ g h. absurd (ground (arith, h)))
          (λ g. find_free-some n hi id (i + 1) k (later g) (omega arith) (omega arith) f))
  where
    later : is_free (hi.node ((i + id) % hi.cap)).id ≡ false → i + 1 ≤ k
    later g = elim (Bool-cases (i == k)) [
      | inl e ↦ absurd (
          ground (
            arith,
            f,
            g,
            ap (λ (j : ℕ). is_free (hi.node ((j + id) % hi.cap)).id) ((==_iff i k).0 e),
          ))
      | inr e ↦ ground (arith, e, a)
    ]

-- What `hashid_insert` does to the map.
pub data Inserted (map : ℕ → Option ℕ) (id : ℕ) : Option (HashId × ℕ) → Type 0 where
  inserted :
      (hi : HashId) (c : ℕ)
      → c < hi.cap
      → Table hi (with_entry id c map)
      → ((y : ℕ) → hashid_lookup hi y ≡ with_entry id c map y)
      → Inserted map id (some (hi, c))

link_node-Inserted :
    (hi : HashId) (map : ℕ → Option ℕ) (id : ℕ) (o : Option ℕ)
    → Table hi map
    → map id ≡ none
    → FreeAt hi o
    → o ≢ none
    → Inserted map id (link_node hi id o)
link_node-Inserted hi map id none t u f n = absurd (n refl)
link_node-Inserted hi map id (some c) t u f n =
    let t' = linked-Table hi map id c t f.1 f.0 u in
    rw (t.loose c f.1) (
      inserted (linked hi id c) c f.0 t'
        (λ y. hashid_lookup_lem (linked hi id c) (with_entry id c map) y t'))

-- In a table that is not full, an id that is not in it gets the index of a free node, and is found there from
-- then on, the other ids where they were. The sum of the id and the size must be within the range of an int.
pub hashid_insert_lem :
    (hi : HashId) (map : ℕ → Option ℕ) (id : ℕ)
    → Table hi map
    → map id ≡ none
    → hashid_full hi ≡ false
    → id + hi.cap ≤ 0x80000000
    → Inserted map id (hashid_insert hi id)
unfolding hashid_insert
hashid_insert_lem hi map id t u f b =
    let some_left : used hi.cap hi.node < hi.cap =
      ground (arith, f, t.counted, used-bound hi.cap hi.node) in
    let (j, below, free) = free_one hi.cap hi.node some_left in
    let (k, in_time, there_is) = round_of j hi.cap id below in
    let some_cap : 0 < hi.cap = omega (arith, below) in
    link_node-Inserted hi map id (find_free hi.cap hi id 0) t u
      (find_free-FreeAt hi.cap hi id 0 some_cap)
      (find_free-some hi.cap hi id 0 k (omega arith) (omega (arith, in_time)) (omega (arith, b))
        (rw there_is free))
