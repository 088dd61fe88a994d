-- ===== src/HashId/Refine.antt =====
-- The table of hashid.h is a finite map from ids to indices.
use skynet_notes.Prelude.{
  ℕ, zero, suc, ◌<◌, ◌≡◌, refl, ap, sym, ◌∙◌, true, false, Option, none, some, List, [], ◌∷◌,
  ==_iff, either, Option-cases, inl, inr, bit_and, arith,
}
use skynet_notes.HashId.{HashId, has_id, hashid_lookup, hashid_init}
use skynet_notes.HashId.Count.{used}
use skynet_notes.HashId.Chain.{
  Chain, ends, AllOf, Distinct, In, here, there, AllOf-map, find_id, lookup_from-Chain, pigeonhole,
}

abbrev pub bucket : HashId → ℕ → ℕ
bucket hi id = bit_and id hi.hashmod

-- A node of the chain of `h` holds an id that is found there.
pub record Member (hi : HashId) (map : ℕ → Option ℕ) (h c : ℕ) : Type 0 where
  pub id : ℕ
  pub below : c < hi.cap
  pub holds : (hi.node c).id ≡ some id
  pub belongs : bucket hi id ≡ h
  pub maps : map id ≡ some c

-- The table stands for a map from ids to indices.
pub record Table (hi : HashId) (map : ℕ → Option ℕ) : Type 0 where
  pub chain : ℕ → List ℕ
  pub chained : (h : ℕ) → Chain hi.node (hi.hash h) (chain h)
  pub distinct : (h : ℕ) → Distinct (chain h)
  pub members : (h : ℕ) → AllOf (Member hi map h) (chain h)
  pub complete :
      (id c : ℕ) → map id ≡ some c → In c (chain (bucket hi id)) × ((hi.node c).id ≡ some id)
  pub loose : (c : ℕ) → (hi.node c).id ≡ none → (hi.node c).next ≡ none
  pub counted : hi.count ≡ used hi.cap hi.node

-- A member of one chain, as a member of the same chain by another name.
pub members_at :
    (hi : HashId) (map : ℕ → Option ℕ) (h i : ℕ) (l : List ℕ)
    → h ≡ i
    → AllOf (Member hi map h) l
    → AllOf (Member hi map i) l
members_at hi map h i l e = AllOf-map (Member hi map h) (Member hi map i) l (λ c m. record {
  id = m.id;
  below = m.below;
  holds = m.holds;
  belongs = m.belongs ∙ e;
  maps = m.maps;
})

has_id-same : (o : Option ℕ) (id : ℕ) → o ≡ some id → has_id o id ≡ true
has_id-same o id e = ap (λ (p : Option ℕ). has_id p id) e ∙ (==_iff id id).1 refl

find_id-map :
    (hi : HashId) (map : ℕ → Option ℕ) (h id : ℕ) (l : List ℕ)
    → AllOf (Member hi map h) l
    → ((c : ℕ) → map id ≡ some c → In c l × ((hi.node c).id ≡ some id))
    → find_id hi.node id l ≡ map id
find_id-map hi map h id [] a f = elim (Option-cases (map id)) [
  | inl e ↦ sym e
  | inr (c, e) ↦ elim (f c e).0 [ ]
]
find_id-map hi map h id (c ∷ l) a f =
    either (λ o. o ≡ map id) (has_id (hi.node c).id id)
      (λ e.
        let same : Member.id a.0 ≡ id =
          (==_iff (Member.id a.0) id).0
            (ap (λ (o : Option ℕ). has_id o id) (sym (Member.holds a.0)) ∙ e) in
        sym (Member.maps a.0) ∙ ap map same)
      (λ e. find_id-map hi map h id l a.1 (λ d q. (rest e d (f d q).0 (f d q).1, (f d q).1)))
  where
    rest :
        has_id (hi.node c).id id ≡ false
        → (d : ℕ) → In d (c ∷ l)
        → (hi.node d).id ≡ some id
        → In d l
    rest e d here q = absurd (ground (arith, e, has_id-same (hi.node c).id id q))
    rest e d (there _ i) q = i

-- Looking an id up is looking it up in the map that the table stands for.
pub hashid_lookup_lem :
    (hi : HashId) (map : ℕ → Option ℕ) (id : ℕ) → Table hi map → hashid_lookup hi id ≡ map id
unfolding hashid_lookup
hashid_lookup_lem hi map id t =
    let h = bucket hi id in
    let l = t.chain h in
    let short =
      pigeonhole hi.cap l (t.distinct h)
        (AllOf-map (Member hi map h) (λ c. c < hi.cap) l (λ c m. Member.below m) (t.members h)) in
    lookup_from-Chain hi.cap hi.node id (t.chained h) short
    ∙ find_id-map hi map h id l (t.members h) (λ c e. t.complete id c e)

empty_count : (n : ℕ) → used n (λ i. record { id = none; next = none }) ≡ 0
empty_count zero = refl
empty_count (suc n) = omega (arith, empty_count n)

-- A new table is empty.
pub hashid_init_lem : (max : ℕ) → Table (hashid_init max) (λ id. none)
unfolding hashid_init
hashid_init_lem max = record {
  chain = λ h. [];
  chained = λ h. ends;
  distinct = λ h. tt;
  members = λ h. tt;
  complete = λ id c e. absurd (ground (arith, e));
  loose = λ c e. refl;
  counted = sym (empty_count max);
}
