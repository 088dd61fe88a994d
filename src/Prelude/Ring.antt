-- ===== src/Prelude/Ring.antt =====
-- Arrays of C used as rings: the loop that copies a ring to the start of a larger array, read as the sequence
-- of slots from an index on, modulo the capacity, and what it says of a write, of a step of the head, and of
-- the copy itself.
pub mod Held
use native.Mathlib.Nat.{mod-add-mod, mod-eq_of_lt, mod-eq-sub-mod, mod-lt}
use native.Mathlib.Decide.{dec_lt}
use Prim.Native.Nat.{ℕ, zero, suc, ◌+◌, ◌-◌, ◌%◌, ◌≤◌, ◌<◌}
use mathlib.Core.Path.{◌≡◌, refl, ap, ap₂, ◌∙◌, sym}
use mathlib.Core.Logic.{◌≢◌, ◌↔◌}
use mathlib.Core.Option.{Option, none}
use mathlib.Core.List.{List, [], ◌∷◌, ◌++◌, append_assoc}
use native.Mathlib.Omega.{arith}
use skynet_notes.Prelude.{length, get_or, set, length-append}

-- `new_queue[i] = q->queue[(q->head + i) % q->cap]` for `n` values of `i`; `at` is `q->head + i`. A slot is
-- none where nothing was written to its memory.
unfoldable pub copy : {A : Type 0} → List (Option A) → ℕ → ℕ → ℕ → List (Option A)
copy queue cap at zero = []
copy queue cap at (suc n) = get_or queue (at % cap) none ∷ copy queue cap (at + 1) n

-- Fewer than `cap` steps round the ring do not come back to the start.
mod-add-ne : (a k cap : ℕ) → suc k < cap → (a + suc k) % cap ≢ a % cap
mod-add-ne a k cap h e =
    let r = a % cap in
    let low : r < cap = mod-lt a (omega arith) in
    let shifted : (r + suc k) % cap ≡ r = mod-add-mod a cap (suc k) ∙ e in
    elim (dec_lt (r + suc k) cap) [
      | yes p ↦ omega (arith, mod-eq_of_lt p)
      | no p ↦ omega (
        arith,
        mod-eq-sub-mod {n = r + suc k} {m = cap} (omega arith),
        mod-eq_of_lt {n = r + suc k - cap} {m = cap} (omega arith),
      )
    ]

-- A ring is full exactly when the index behind its slots is the first one again.
pub full_iff : (a n c : ℕ) → a < c → n < c → ((a + suc n) % c ≡ a) ↔ (suc n ≡ c)
full_iff a n c lo room = (
  (λ e. elim (dec_lt (suc n) c) [
    | yes p ↦ absurd (mod-add-ne a n c p (e ∙ sym (mod-eq_of_lt lo)))
    | no p ↦ omega arith
  ]),
  (λ e. rw e (grind (arith, mod-eq_of_lt))),
)

module _ {A : Type 0} where
  get_or-set_self :
      (xs : List (Option A)) (i : ℕ) (v : Option A) → i < length xs → get_or (set xs i v) i none ≡ v
  get_or-set_self [] i v h = absurd (omega arith)
  get_or-set_self (x ∷ xs) zero v h = refl
  get_or-set_self (x ∷ xs) (suc i) v h = get_or-set_self xs i v (omega arith)

  get_or-set_ne :
      (xs : List (Option A)) (i j : ℕ) (v : Option A)
      → i ≢ j
      → get_or (set xs i v) j none ≡ get_or xs j none
  get_or-set_ne [] i j v h = refl
  get_or-set_ne (x ∷ xs) zero zero v h = absurd (h refl)
  get_or-set_ne (x ∷ xs) zero (suc j) v h = refl
  get_or-set_ne (x ∷ xs) (suc i) zero v h = refl
  get_or-set_ne (x ∷ xs) (suc i) (suc j) v h = get_or-set_ne xs i j v (λ e. h (ap suc e))

  get_or-append :
      (xs : List (Option A)) (y : Option A) (zs : List (Option A))
      → get_or (xs ++ y ∷ zs) (length xs) none ≡ y
  get_or-append [] y zs = refl
  get_or-append (x ∷ xs) y zs = get_or-append xs y zs

  pub length-copy : (xs : List (Option A)) (cap at n : ℕ) → length (copy xs cap at n) ≡ n
  unfolding copy
  length-copy xs cap at zero = refl
  length-copy xs cap at (suc n) = ap suc (length-copy xs cap (at + 1) n)

  -- Only the start modulo the capacity matters.
  pub copy-congr :
      (xs : List (Option A)) (cap a b n : ℕ) → a % cap ≡ b % cap → copy xs cap a n ≡ copy xs cap b n
  unfolding copy
  copy-congr xs cap a b zero e = refl
  copy-congr xs cap a b (suc n) e =
      ap₂ (λ i (rest : List (Option A)). get_or xs i none ∷ rest) e
        (copy-congr xs cap (a + 1) (b + 1) n
          (sym (mod-add-mod a cap 1) ∙ ap (λ (r : ℕ). (r + 1) % cap) e ∙ mod-add-mod b cap 1))

  -- A write just behind `n` slots extends them by one.
  pub copy-set :
      (xs : List (Option A)) (v : Option A) (c at n i : ℕ)
      → length xs ≡ c
      → n < c
      → (at + n) % c ≡ i
      → copy (set xs i v) c at (suc n) ≡ copy xs c at n ++ v ∷ []
  unfolding copy
  copy-set xs v c at zero i size h e =
      let here : at % c ≡ i = ap (λ (k : ℕ). k % c) (omega arith) ∙ e in
      rw (here, get_or-set_self xs i v (rw (size, ← e) (mod-lt _ h)))
  copy-set xs v c at (suc n) i size h e =
      let apart : i ≢ at % c = λ same. mod-add-ne at n c h (e ∙ same) in
      let next : (at + 1 + n) % c ≡ i = ap (λ (k : ℕ). k % c) (omega arith) ∙ e in
      ap₂ ◌∷◌ (get_or-set_ne xs i (at % c) v apart)
        (copy-set xs v c (at + 1) n i size (omega arith) next)

  -- A list that stands in the array from an index on is what the loop reads there.
  pub copy-stored :
      (xs pre ms rest : List (Option A)) (c : ℕ)
      → xs ≡ pre ++ (ms ++ rest)
      → length pre + length ms ≤ c
      → copy xs c (length pre) (length ms) ≡ ms
  unfolding copy
  copy-stored xs pre [] rest c e h = refl
  copy-stored xs pre (m ∷ ms) rest c e h =
      let here : length pre % c ≡ length pre = mod-eq_of_lt (omega arith) in
      let longer : length (pre ++ m ∷ []) ≡ length pre + 1 = length-append pre (m ∷ []) in
      ap₂ ◌∷◌ (rw (here, e) (get_or-append pre m (ms ++ rest))) (
        rw (← longer) (
          copy-stored xs (pre ++ m ∷ []) ms rest c
            (e ∙ sym (append_assoc pre (m ∷ []) (ms ++ rest))) (omega arith)))
