-- ===== src/HashId/Remove.antt =====
-- `hashid_remove` of hashid.h.
use skynet_notes.Prelude.{
  ℕ, zero, suc, ◌≤◌, ◌<◌, ◌≡◌, ◌≢◌, refl, ap, sym, ◌∙◌, true, false, Option, none, some, List, ◌∷◌,
  length, ◌==◌, ==_iff, if◌then◌else◌, either, Bool-cases, Option-cases, inl, inr, arith,
}
use skynet_notes.HashId.{
  HashIdNode, HashId, has_id, set_next, remove_from, remove_at, hashid_remove, hashid_lookup,
}
use skynet_notes.HashId.Chain.{
  Chain, ends, link, AllOf, Distinct, In, here, there, AllOf-map, Chain-frame, without, other, same,
  same_test, pigeonhole,
}
use skynet_notes.HashId.Clear.{without_entry, some_same, cleared-Table}
use skynet_notes.HashId.Refine.{bucket, Member, Table, hashid_lookup_lem}

-- The node `t` is taken out of the chain behind `c`, which is `l`; other chains stay as they are.
record Cut (node node' : ℕ → HashIdNode) (c t : ℕ) (l : List ℕ) : Type 0 where
  kept : Chain node' (some c) (c ∷ without t l)
  ids : (d : ℕ) → (node' d).id ≡ (node d).id
  frame : (d : ℕ) → AllOf (λ x. x ≢ d) (c ∷ l) → (node' d).next ≡ (node d).next

at_once :
    (node : ℕ → HashIdNode) (c t : ℕ) {m : List ℕ}
    → Chain node (node t).next m
    → Distinct (c ∷ t ∷ m)
    → Cut node (set_next node c (node t).next) c t (t ∷ m)
at_once node c t {m} k d = record {
  kept = rw (same t) (
      link c (
        rw (same c) (
          Chain-frame node (set_next node c (node t).next)
            (AllOf-map (λ x. x ≢ c) (λ x. (set_next node c (node t).next x).next ≡ (node x).next) m
              (λ x f. rw (other x c f) refl) d.0.1)
            k)));
  ids = λ x.
      either (λ (n : HashIdNode). n.id ≡ (node x).id) (x == c)
        (λ e. ap (λ (i : ℕ). (node i).id) (sym ((==_iff x c).0 e))) (λ e. refl);
  frame = λ x f. rw (other x c (λ e. f.0 (sym e))) refl;
}

after_more :
    (node node' : ℕ → HashIdNode) (c d t : ℕ) {m : List ℕ}
    → (node c).next ≡ some d
    → (d == t) ≡ false
    → Distinct (c ∷ d ∷ m)
    → Cut node node' d t m
    → Cut node node' c t (d ∷ m)
after_more node node' c d t {m} e f u p = record {
  kept = rw f (link c (rw (p.frame c u.0, e) (p.kept)));
  ids = p.ids;
  frame = λ x a. p.frame x a.1;
}

-- A list whose only node with the id is `t`.
abbrev OnlyAt : (ℕ → HashIdNode) → ℕ → ℕ → List ℕ → Type 0
OnlyAt node id t l = AllOf (λ d. has_id (node d).id id ≡ (d == t)) l

remove_from-Cut :
    (node : ℕ → HashIdNode) (fuel c t id : ℕ) {o : Option ℕ} {l : List ℕ}
    → Chain node o l
    → (node c).next ≡ o
    → length l ≤ fuel
    → Distinct (c ∷ l)
    → In t l
    → OnlyAt node id t l
    → (node' : ℕ → HashIdNode) × (remove_from fuel node c o id ≡ some (t, node'))
      × Cut node node' c t l
unfolding remove_from
remove_from-Cut node fuel c t id ends e h d i a = elim i [ ]
remove_from-Cut node zero c t id (link x k) e h d i a = absurd (omega (arith, h))
remove_from-Cut node (suc fuel) c t id {l = _ ∷ m} (link x k) e h d i a =
    elim (Bool-cases (x == t)) [
      | inl q ↦
          let found : has_id (node x).id id ≡ true = a.0 ∙ q in
          (
            set_next node c (node x).next,
            rw found (ap (λ y. some (y, set_next node c (node x).next)) ((==_iff x t).0 q)),
            rw (sym ((==_iff x t).0 q)) (at_once node c x k d),
          )
      | inr q ↦
          let (node', r, p) =
            remove_from-Cut node fuel x t id k refl (omega (arith, h)) d.1 (behind i q) a.1 in
          (node', rw (a.0, q) r, after_more node node' c x t e q d p)
    ]
  where
    behind : {x : ℕ} {m : List ℕ} → In t (x ∷ m) → (x == t) ≡ false → In t m
    behind here q = absurd (ground (arith, q))
    behind (there _ i) q = i

remove_from-none :
    (node : ℕ → HashIdNode) (fuel c id : ℕ) {o : Option ℕ} {l : List ℕ}
    → Chain node o l
    → AllOf (λ d. has_id (node d).id id ≡ false) l
    → remove_from fuel node c o id ≡ none
unfolding remove_from
remove_from-none node zero c id ends a = refl
remove_from-none node (suc fuel) c id ends a = refl
remove_from-none node zero c id (link x k) a = refl
remove_from-none node (suc fuel) c id (link x k) a =
    rw (a.0) (remove_from-none node fuel x id k a.1)

-- What `hashid_remove` does to the map.
pub data Removed (map : ℕ → Option ℕ) (id : ℕ) : Option (HashId × ℕ) → Type 0 where
  absent : map id ≡ none → Removed map id none
  removed :
      (hi : HashId) (t : ℕ)
      → map id ≡ some t
      → Table hi (without_entry id map)
      → ((y : ℕ) → hashid_lookup hi y ≡ without_entry id map y)
      → Removed map id (some (hi, t))

no_holder :
    (hi : HashId) (map : ℕ → Option ℕ) (id h : ℕ) (l : List ℕ)
    → map id ≡ none
    → AllOf (Member hi map h) l
    → AllOf (λ d. has_id (hi.node d).id id ≡ false) l
no_holder hi map id h l e =
    AllOf-map (Member hi map h) (λ d. has_id (hi.node d).id id ≡ false) l
      (λ d m.
        ap (λ (o : Option ℕ). has_id o id) (Member.holds m)
        ∙ other (Member.id m) id
            (λ q. absurd (ground (arith, sym e ∙ ap map (sym q) ∙ Member.maps m))))

only_holder :
    (hi : HashId) (map : ℕ → Option ℕ) (id t h : ℕ) (l : List ℕ)
    → map id ≡ some t
    → (hi.node t).id ≡ some id
    → AllOf (Member hi map h) l
    → OnlyAt hi.node id t l
only_holder hi map id t h l e n =
    AllOf-map (Member hi map h) (λ d. has_id (hi.node d).id id ≡ (d == t)) l
      (λ d m.
        ap (λ (o : Option ℕ). has_id o id) (Member.holds m)
        ∙ same_test (Member.id m) id d t (λ q. some_same (sym (Member.maps m) ∙ ap map q ∙ e))
            (λ q. some_same (sym (Member.holds m) ∙ ap (λ (j : ℕ). (hi.node j).id) q ∙ n)))

-- Two chains have no node in common.
disjoint :
    (hi : HashId) (map : ℕ → Option ℕ) (table : Table hi map) (i h : ℕ)
    → (i == h) ≡ false
    → AllOf (λ x. AllOf (λ y. y ≢ x) (table.chain h)) (table.chain i)
disjoint hi map table i h e =
    AllOf-map (Member hi map i) (λ x. AllOf (λ y. y ≢ x) (table.chain h)) (table.chain i)
      (λ x m.
        AllOf-map (Member hi map h) (λ y. y ≢ x) (table.chain h)
          (λ y n f.
            let q : Member.id n ≡ Member.id m =
              some_same
                (sym (Member.holds n) ∙ ap (λ (j : ℕ). (hi.node j).id) f ∙ Member.holds m) in
            absurd (
              ground
                (arith, e, sym (Member.belongs m) ∙ ap (bucket hi) (sym q) ∙ Member.belongs n)))
          (table.members h))
      (table.members i)

-- The table without the id, as the result.
gives :
    (map : ℕ → Option ℕ) (id : ℕ) (hi : HashId) (t : ℕ)
    → map id ≡ some t
    → Table hi (without_entry id map)
    → Removed map id (some (hi, t))
gives map id hi t e table =
    removed hi t e table (λ y. hashid_lookup_lem hi (without_entry id map) y table)

module _ (hi : HashId) (map : ℕ → Option ℕ) (id : ℕ) (table : Table hi map) where
  fits : (h : ℕ) → length (table.chain h) ≤ hi.cap
  fits h = pigeonhole hi.cap (table.chain h) (table.distinct h) (
      AllOf-map (Member hi map h) (λ c. c < hi.cap) (table.chain h) (λ c m. Member.below m)
        (table.members h))

  -- The id is not in the chain.
  remove_at-none :
      {o : Option ℕ} {l : List ℕ}
      → Chain hi.node o l
      → AllOf (λ d. has_id (hi.node d).id id ≡ false) l
      → remove_at hi id o ≡ none
  remove_at-none ends a = refl
  remove_at-none (link c k) a = rw (a.0, remove_from-none hi.node hi.cap c id k a.1) refl

  -- A free node is in no chain.
  free_apart : (d : ℕ) → (hi.node d).id ≡ none → AllOf (λ x. x ≢ d) (table.chain (bucket hi id))
  free_apart d free =
      let h = bucket hi id in
      AllOf-map (Member hi map h) (λ x. x ≢ d) (table.chain h)
        (λ x m e.
          absurd (ground (arith, sym (Member.holds m) ∙ ap (λ (j : ℕ). (hi.node j).id) e ∙ free)))
        (table.members h)

  -- The other chains are not touched.
  kept_chain :
      (node' : ℕ → HashIdNode) (c t : ℕ) (m : List ℕ)
      → table.chain (bucket hi id) ≡ c ∷ m
      → Cut hi.node node' c t m
      → (i : ℕ) → (i == bucket hi id) ≡ false
      → Chain node' (hi.hash i) (table.chain i)
  kept_chain node' c t m q p i g =
      Chain-frame hi.node node'
        (AllOf-map (λ x. AllOf (λ y. y ≢ x) (table.chain (bucket hi id)))
          (λ x. (node' x).next ≡ (hi.node x).next) (table.chain i)
          (λ x f. Cut.frame p x (rw q at f)) (disjoint hi map table i (bucket hi id) g))
        (table.chained i)

  -- The id is in the chain of its bucket, `l`.
  remove_at-Removed :
      (t : ℕ) (o : Option ℕ) (l : List ℕ)
      → map id ≡ some t
      → hi.hash (bucket hi id) ≡ o
      → table.chain (bucket hi id) ≡ l
      → Chain hi.node o l
      → length l ≤ hi.cap
      → Distinct l
      → In t l
      → OnlyAt hi.node id t l
      → Removed map id (remove_at hi id o)
  remove_at-Removed t _ _ e w q ends b d i a = elim i [ ]
  remove_at-Removed t _ (_ ∷ m) e w q (link c k) b d i a = elim (Bool-cases (c == t)) [
    | inl f ↦
        let h = bucket hi id in
        let hash = λ (i : ℕ). if i == h then (hi.node c).next else hi.hash i in
        rw (a.0 ∙ f) (
          gives map id _ c (e ∙ ap some (sym ((==_iff c t).0 f))) (
            cleared-Table hi map id c table (e ∙ ap some (sym ((==_iff c t).0 f))) hi.node hash
              (λ x. refl) (λ x y. refl) (rw (same h, q, same c) k) (λ i g. rw g (table.chained i))))
    | inr f ↦
        let (node', r, p) =
          remove_from-Cut hi.node hi.cap c t id k refl (omega (arith, b)) d (behind i f) a.1 in
        rw (a.0 ∙ f, r)
          (gives map id _ t e (
            cleared-Table hi map id t table e node' hi.hash (Cut.ids p)
              (λ x free. Cut.frame p x (rw q at (free_apart x free))) (rw (w, q, f) (Cut.kept p))
              (λ i g. kept_chain node' c t m q p i g)))
  ]
    where
      behind : {t x : ℕ} {m : List ℕ} → In t (x ∷ m) → (x == t) ≡ false → In t m
      behind here q = absurd (ground (arith, q))
      behind (there _ i) q = i

-- An id that is in the table is taken out of it, and its index is returned; for another one nothing happens.
pub hashid_remove_lem :
    (hi : HashId) (map : ℕ → Option ℕ) (id : ℕ)
    → Table hi map
    → Removed map id (hashid_remove hi id)
unfolding hashid_remove
hashid_remove_lem hi map id table =
    let h = bucket hi id in
    elim (Option-cases (map id)) [
      | inl e ↦
          rw
            (remove_at-none hi map id table (table.chained h)
              (no_holder hi map id h (table.chain h) e (table.members h)))
            (absent e)
      | inr (t, e) ↦
          let (i, n) = table.complete id t e in
          remove_at-Removed hi map id table t (hi.hash h) (table.chain h) e refl refl
            (table.chained h) (fits hi map id table h) (table.distinct h) i
            (only_holder hi map id t h (table.chain h) e n (table.members h))
    ]
