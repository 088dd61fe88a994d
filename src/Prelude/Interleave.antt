-- ===== src/Prelude/Interleave.antt =====
-- Two sequences merged into one, each in its order.
use mathlib.Core.List.{List, [], ◌∷◌, ◌++◌}

-- `zs` has the elements of `xs` and of `ys`, and keeps the order of both.
pub data Interleave {A : Type 0} : List A → List A → List A → Type 0 where
  neither : Interleave [] [] []
  first : (x : A) {xs ys zs : List A} → Interleave xs ys zs → Interleave (x ∷ xs) ys (x ∷ zs)
  second : (y : A) {xs ys zs : List A} → Interleave xs ys zs → Interleave xs (y ∷ ys) (y ∷ zs)

module _ {A : Type 0} where
  pub append_first :
      (bs : List A) {xs ys zs : List A} → Interleave xs ys zs → Interleave (xs ++ bs) ys (zs ++ bs)
  append_first [] neither = neither
  append_first (b ∷ bs) neither = first b (append_first bs neither)
  append_first bs (first x m) = first x (append_first bs m)
  append_first bs (second y m) = second y (append_first bs m)

  pub append_second :
      (bs : List A) {xs ys zs : List A} → Interleave xs ys zs → Interleave xs (ys ++ bs) (zs ++ bs)
  append_second [] neither = neither
  append_second (b ∷ bs) neither = second b (append_second bs neither)
  append_second bs (first x m) = first x (append_second bs m)
  append_second bs (second y m) = second y (append_second bs m)
