-- ===== src/Crypt/Xor.antt =====
-- `lxor_str` of skynet/lualib-src/lua-crypt.c.
use skynet_notes.Prelude.{
  ℕ, suc, ◌%◌, ◌≡◌, refl, ap, ◌∙◌, false, Option, none, some, inl, inr, ◌⊎◌, List, [], ◌∷◌, ◌==◌,
  if◌then◌else◌, length, get_or, bit_xor, arith,
}
use skynet_notes.Prelude.Bits.{bit_xor_twice}

-- `lxor_str`: s1[i] ^ s2[i % len2], from the index `i` on
unfoldable pub xor_from : ℕ → List ℕ → List ℕ → List ℕ
xor_from i s2 [] = []
xor_from i s2 (c ∷ s1) = bit_xor c (get_or s2 (i % length s2) 0) ∷ xor_from (suc i) s2 s1

unfoldable pub xor_str : List ℕ → List ℕ → Option (List ℕ)
unfolding xor_from
xor_str s1 s2 = if length s2 == 0 then none else some (xor_from 0 s2 s1)

xor_from_twice : (i : ℕ) (s2 s1 : List ℕ) → xor_from i s2 (xor_from i s2 s1) ≡ s1
unfolding xor_from
xor_from_twice i s2 [] = refl
xor_from_twice i s2 (c ∷ s1) = rw (bit_xor_twice, xor_from_twice (suc i) s2 s1) refl

xor_str-some :
    (s1 : List ℕ) (k : ℕ) (s2 : List ℕ) → xor_str s1 (k ∷ s2) ≡ some (xor_from 0 (k ∷ s2) s1)
unfolding xor_str
xor_str-some s1 k s2 = let e : (suc (length s2) == 0) ≡ false = ground arith in rw e refl

-- `lxor_str` fails if the key is empty; if not, it gives a text, which a second time with the same key gives
-- the first text back.
pub xor_str_twice :
    (s1 s2 : List ℕ)
    → ((s2 ≡ []) × (xor_str s1 s2 ≡ none))
      ⊎ ((s : List ℕ) × (xor_str s1 s2 ≡ some s) × (xor_str s s2 ≡ some s1))
unfolding xor_str
xor_str_twice s1 [] = inl (refl, refl)
xor_str_twice s1 (k ∷ s2) = inr (
  xor_from 0 (k ∷ s2) s1,
  xor_str-some s1 k s2,
  xor_str-some (xor_from 0 (k ∷ s2) s1) k s2 ∙ ap some (xor_from_twice 0 (k ∷ s2) s1),
)
