-- ===== src/HashId/Count.antt =====
-- How many nodes of a table of hashid.h are in use.
use skynet_notes.Prelude.{
  ℕ, zero, suc, ◌+◌, ◌≤◌, ◌<◌, ◌≡◌, ◌≢◌, refl, true, false, ◌==◌, ==_iff, if◌then◌else◌, either,
  Bool-cases, inl, inr, arith,
}
use skynet_notes.HashId.{HashIdNode, is_free}

abbrev pub used : ℕ → (ℕ → HashIdNode) → ℕ
used zero node = 0
used (suc n) node = used n node + (if is_free (node n).id then 0 else 1)

pub used-same :
    (n : ℕ) (node node' : ℕ → HashIdNode)
    → ((d : ℕ) → d < n → (node' d).id ≡ (node d).id)
    → used n node' ≡ used n node
used-same zero node node' f = refl
used-same (suc n) node node' f =
    rw (used-same n node node' (λ d h. f d (omega arith)), f n (omega arith)) refl

-- The node `c` is free, and then it is not.
pub used-taken :
    (n : ℕ) (node node' : ℕ → HashIdNode) (c : ℕ)
    → ((d : ℕ) → d ≢ c → (node' d).id ≡ (node d).id)
    → c < n
    → is_free (node c).id ≡ true
    → is_free (node' c).id ≡ false
    → used n node' ≡ used n node + 1
used-taken zero node node' c f h e g = absurd (omega arith)
used-taken (suc n) node node' c f h e g = elim (Bool-cases (n == c)) [
  | inl q ↦
      let p : n ≡ c = (==_iff n c).0 q in
      let rest = used-same n node node' (λ d k. f d (λ r. absurd (omega (arith, r, p, k)))) in
      rw (rest, p, e, g) (omega arith)
  | inr q ↦
      let p : n ≢ c = λ r. absurd (ground (arith, q, r)) in
      rw (f n p) (omega (arith, used-taken n node node' c f (ground (arith, q, h)) e g))
]

-- Not all nodes are in use: one is free.
pub free_one :
    (n : ℕ) (node : ℕ → HashIdNode)
    → used n node < n
    → (j : ℕ) × (j < n) × (is_free (node j).id ≡ true)
free_one zero node h = absurd (omega arith)
free_one (suc n) node h = elim (Bool-cases (is_free (node n).id)) [
  | inl e ↦ (n, omega arith, e)
  | inr e ↦
      let k : used n node + 1 < suc n = rw e at h in
      let (j, b, f) = free_one n node (omega (arith, k)) in (j, omega (arith, b), f)
]

pub used-bound : (n : ℕ) (node : ℕ → HashIdNode) → used n node ≤ n
used-bound zero node = omega arith
used-bound (suc n) node =
    either (λ m. used n node + m ≤ suc n) (is_free (node n).id)
      (λ e. omega (arith, used-bound n node)) (λ e. omega (arith, used-bound n node))
