-- ===== src/HashId/Chain.antt =====
-- The chains of hashid.h as lists of indices.
use skynet_notes.Prelude.{
  ℕ, zero, suc, ◌+◌, ◌≤◌, ◌<◌, ◌≡◌, ◌≢◌, refl, ap, sym, ◌∙◌, true, false, Option, none, some, List,
  [], ◌∷◌, length, ◌==◌, ==_iff, if◌then◌else◌, either, Bool-cases, inl, inr, arith,
}
use skynet_notes.HashId.{HashIdNode, has_id, lookup_from}

pub data Chain (node : ℕ → HashIdNode) : Option ℕ → List ℕ → Type 0 where
  ends : Chain node none []
  link : (c : ℕ) {l : List ℕ} → Chain node (node c).next l → Chain node (some c) (c ∷ l)

abbrev pub AllOf : (ℕ → Type 0) → List ℕ → Type 0
AllOf P [] = Unit {0}
AllOf P (c ∷ l) = P c × AllOf P l

abbrev pub Distinct : List ℕ → Type 0
Distinct [] = Unit {0}
Distinct (c ∷ l) = AllOf (λ d. d ≢ c) l × Distinct l

pub data In (c : ℕ) : List ℕ → Type 0 where
  here : {l : List ℕ} → In c (c ∷ l)
  there : (d : ℕ) {l : List ℕ} → In c l → In c (d ∷ l)

pub AllOf-at : (P : ℕ → Type 0) (c : ℕ) {l : List ℕ} → AllOf P l → In c l → P c
AllOf-at P c a here = a.0
AllOf-at P c a (there d i) = AllOf-at P c a.1 i

pub AllOf-map : (P Q : ℕ → Type 0) (l : List ℕ) → ((c : ℕ) → P c → Q c) → AllOf P l → AllOf Q l
AllOf-map P Q [] f a = tt
AllOf-map P Q (c ∷ l) f a = (f c a.0, AllOf-map P Q l f a.1)

-- A chain depends on the nodes in it.
pub Chain-frame :
    (node node' : ℕ → HashIdNode) {o : Option ℕ} {l : List ℕ}
    → AllOf (λ c. (node' c).next ≡ (node c).next) l
    → Chain node o l
    → Chain node' o l
Chain-frame node node' a ends = ends
Chain-frame node node' {l = c ∷ l} a (link _ k) = link c (rw (a.0) (Chain-frame node node' a.1 k))

abbrev pub without : ℕ → List ℕ → List ℕ
without t [] = []
without t (c ∷ l) = if c == t then l else c ∷ without t l

-- The first node of a list that has the id.
abbrev pub find_id : (ℕ → HashIdNode) → ℕ → List ℕ → Option ℕ
find_id node id [] = none
find_id node id (c ∷ l) =
    let rest = find_id node id l in if has_id (node c).id id then some c else rest

pub lookup_from-Chain :
    (fuel : ℕ) (node : ℕ → HashIdNode) (id : ℕ) {o : Option ℕ} {l : List ℕ}
    → Chain node o l
    → length l ≤ fuel
    → lookup_from fuel node o id ≡ find_id node id l
unfolding lookup_from
lookup_from-Chain zero node id ends h = refl
lookup_from-Chain (suc fuel) node id ends h = refl
lookup_from-Chain zero node id (link c k) h = absurd (omega arith)
lookup_from-Chain (suc fuel) node id (link c k) h =
    ap (λ (o : Option ℕ). if has_id (node c).id id then some c else o)
      (lookup_from-Chain fuel node id k (omega arith))

without-shorter : (t : ℕ) (l : List ℕ) → length l ≤ length (without t l) + 1
without-shorter t [] = omega arith
without-shorter t (c ∷ l) =
    either (λ (m : List ℕ). suc (length l) ≤ length m + 1) (c == t) (λ e. omega arith)
      (λ e. omega (arith, without-shorter t l))

pub AllOf-without : (P : ℕ → Type 0) (t : ℕ) (l : List ℕ) → AllOf P l → AllOf P (without t l)
AllOf-without P t [] a = tt
AllOf-without P t (c ∷ l) a =
    either (AllOf P) (c == t) (λ e. a.1) (λ e. (a.0, AllOf-without P t l a.1))

pub without-Distinct : (t : ℕ) (l : List ℕ) → Distinct l → Distinct (without t l)
without-Distinct t [] d = tt
without-Distinct t (c ∷ l) d =
    either Distinct (c == t) (λ e. d.1)
      (λ e. (AllOf-without (λ x. x ≢ c) t l d.0, without-Distinct t l d.1))

-- What is taken out of a list of distinct numbers is no longer in it.
pub without-gone : (t : ℕ) (l : List ℕ) → Distinct l → AllOf (λ c. c ≢ t) (without t l)
without-gone t [] d = tt
without-gone t (c ∷ l) d =
    either (AllOf (λ x. x ≢ t)) (c == t)
      (λ e. AllOf-map (λ x. x ≢ c) (λ x. x ≢ t) l (λ x f g. f (g ∙ sym ((==_iff c t).0 e))) d.0)
      (λ e. (λ f. absurd (ground (arith, e, f)), without-gone t l d.1))

-- Distinct numbers below `n` are at most `n`.
pub pigeonhole : (n : ℕ) (l : List ℕ) → Distinct l → AllOf (λ c. c < n) l → length l ≤ n
pigeonhole zero [] d a = omega arith
pigeonhole zero (c ∷ l) d a = absurd (omega (arith, a.0))
pigeonhole (suc n) l d a =
    let fewer = without n l in
    let below = lower fewer (AllOf-without (λ c. c < suc n) n l a) (without-gone n l d) in
    omega (arith, without-shorter n l, pigeonhole n fewer (without-Distinct n l d) below)
  where
    lower : (m : List ℕ) → AllOf (λ c. c < suc n) m → AllOf (λ c. c ≢ n) m → AllOf (λ c. c < n) m
    lower [] p q = tt
    lower (c ∷ m) p q = (omega (arith, p.0, q.0), lower m p.1 q.1)

pub other : (d c : ℕ) → d ≢ c → (d == c) ≡ false
other d c f = ground (arith, f)

pub same : (c : ℕ) → (c == c) ≡ true
same c = (==_iff c c).1 refl

pub In-without : (d t : ℕ) {l : List ℕ} → d ≢ t → In d l → In d (without t l)
In-without d t {l = []} f i = elim i [ ]
In-without d t {l = _ ∷ l} f here = rw (other d t f) here
In-without d t {l = c ∷ l} f (there _ i) =
    either (In d) (c == t) (λ e. i) (λ e. there c (In-without d t f i))

pub same_test : (a b c d : ℕ) → (a ≡ b → c ≡ d) → (c ≡ d → a ≡ b) → (a == b) ≡ (c == d)
same_test a b c d f g = elim (Bool-cases (a == b)) [
  | inl e ↦ e ∙ sym ((==_iff c d).1 (f ((==_iff a b).0 e)))
  | inr e ↦ e ∙ sym (other c d (λ q. absurd (ground (arith, e, g q))))
]
