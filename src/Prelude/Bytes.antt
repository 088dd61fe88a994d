-- ===== src/Prelude/Bytes.antt =====
-- Prefixes and rests of sequences.
use Prim.Native.Nat.{ℕ, zero, suc, ◌+◌, ◌-◌, ◌≤◌, ◌<◌}
use mathlib.Core.Path.{◌≡◌, refl, sym, ap, ◌∙◌}
use mathlib.Core.List.{List, [], ◌∷◌, ◌++◌}
use native.Mathlib.Omega.{arith}
use skynet_notes.Prelude.Lists.{length, take, drop}

module _ {A : Type 0} where
  pub take-append : (n : ℕ) (l m : List A) → n ≤ length l → take n (l ++ m) ≡ take n l
  take-append zero l m h = refl
  take-append (suc n) [] m h = absurd (omega arith)
  take-append (suc n) (x ∷ l) m h = rw (take-append n l m (omega arith)) refl

  pub drop-append : (n : ℕ) (l m : List A) → n ≤ length l → drop n (l ++ m) ≡ drop n l ++ m
  drop-append zero l m h = refl
  drop-append (suc n) [] m h = absurd (omega arith)
  drop-append (suc n) (x ∷ l) m h = drop-append n l m (omega arith)

  pub take_past :
      (n : ℕ) (l m : List A) → length l ≤ n → take n (l ++ m) ≡ l ++ take (n - length l) m
  take_past n [] m h = ap (λ k. take k m) (omega arith)
  take_past zero (x ∷ l) m h = absurd (omega arith)
  take_past (suc n) (x ∷ l) m h =
      rw (take_past n l m (omega arith)) (ap (λ k. x ∷ l ++ take k m) (omega arith))

  pub drop_past : (n : ℕ) (l m : List A) → length l ≤ n → drop n (l ++ m) ≡ drop (n - length l) m
  drop_past n [] m h = ap (λ k. drop k m) (omega arith)
  drop_past zero (x ∷ l) m h = absurd (omega arith)
  drop_past (suc n) (x ∷ l) m h = drop_past n l m (omega arith) ∙ ap (λ k. drop k m) (omega arith)

  drop-nil : (n : ℕ) → drop {A = A} n [] ≡ []
  drop-nil zero = refl
  drop-nil (suc n) = refl

  pub drop-drop : (m n : ℕ) (l : List A) → drop n (drop m l) ≡ drop (m + n) l
  drop-drop zero n l = ap (λ k. drop k l) (omega arith)
  drop-drop (suc m) n [] = drop-nil n ∙ sym (drop-nil (suc m + n))
  drop-drop (suc m) n (x ∷ l) =
      let step : suc m + n ≡ suc (m + n) = omega arith in
      drop-drop m n l ∙ ap (λ k. drop k (x ∷ l)) (sym step)

  pub take_all : (n : ℕ) (l : List A) → length l ≤ n → take n l ≡ l
  take_all zero [] h = refl
  take_all (suc n) [] h = refl
  take_all zero (x ∷ l) h = absurd (omega arith)
  take_all (suc n) (x ∷ l) h = rw (take_all n l (omega arith)) refl

-- The bytes of a string are below 256.
abbrev pub AllBytes : List ℕ → Type 0
AllBytes [] = Unit {0}
AllBytes (b ∷ bs) = (b < 256) × AllBytes bs

pub drop-AllBytes : (n : ℕ) (bs : List ℕ) → AllBytes bs → AllBytes (drop n bs)
drop-AllBytes zero bs h = h
drop-AllBytes (suc n) [] h = h
drop-AllBytes (suc n) (b ∷ bs) h = drop-AllBytes n bs h.1
