-- ===== src/Crypt/Base64/Ends.antt =====
-- The outer loop of `lb64decode` of skynet/lualib-src/lua-crypt.c comes to an end: each round takes a
-- character at least.
use skynet_notes.Prelude.{
  ℕ, zero, suc, ◌<◌, ◌≤◌, ◌≡◌, refl, Option, none, some, List, [], ◌∷◌, ◌++◌, length, arith,
}
use skynet_notes.Crypt.{◌>>=◌}
use skynet_notes.Crypt.Base64.{
  Index, index, padding, other, b64index, gathered, gather, bytes_of_group, decode_loop, b64decode,
}

-- What is left is shorter by `n` at least.
data Shorter (n : ℕ) : Option (List Index × List ℕ) → Type 0 where
  fails : Shorter n none
  leaves : (r : List Index × List ℕ) → length r.1 ≤ n → Shorter n (some r)

weaken : {m n : ℕ} {r : Option (List Index × List ℕ)} → m ≤ n → Shorter m r → Shorter n r
weaken h fails = fails
weaken h (leaves r e) = leaves r (omega arith)

bind-Shorter :
    (n : ℕ) (i : Index) (r : Option (List Index × List ℕ))
    → Shorter n r
    → Shorter n (r >>= λ p. some (i ∷ p.0, p.1))
bind-Shorter n i _ fails = fails
bind-Shorter n i _ (leaves r e) = leaves _ e

gathered-Shorter :
    (n : ℕ) (i : Index) (skipped taken : Option (List Index × List ℕ))
    → Shorter n skipped
    → Shorter n taken
    → Shorter n (gathered i skipped taken)
gathered-Shorter n (index v) s t h k = bind-Shorter n (index v) t k
gathered-Shorter n padding s t h k = bind-Shorter n padding t k
gathered-Shorter n other s t h k = h

gather-Shorter : (j : ℕ) (text : List ℕ) → Shorter (length text) (gather j text)
unfolding gather
gather-Shorter zero text = leaves _ (omega arith)
gather-Shorter (suc j) [] = fails
gather-Shorter (suc j) (c ∷ text) =
    gathered-Shorter (suc (length text)) (b64index c) (gather (suc j) text) (gather j text)
      (weaken (omega arith) (gather-Shorter (suc j) text))
      (weaken (omega arith) (gather-Shorter j text))

gather_some-Shorter : (j c : ℕ) (text : List ℕ) → Shorter (length text) (gather (suc j) (c ∷ text))
unfolding gather
gather_some-Shorter j c text =
    gathered-Shorter (length text) (b64index c) (gather (suc j) text) (gather j text)
      (gather-Shorter (suc j) text) (gather-Shorter j text)

-- The rounds behind the first one, given what the first one leaves.
same_after :
    (n : ℕ) (r : Option (List Index × List ℕ)) (f g : List ℕ → Option (List ℕ))
    → Shorter n r
    → ((rest : List ℕ) → length rest ≤ n → f rest ≡ g rest)
    → (r >>= λ p. bytes_of_group p.0 >>= λ bytes. f p.1 >>= λ more. some (bytes ++ more))
      ≡ (r >>= λ p. bytes_of_group p.0 >>= λ bytes. g p.1 >>= λ more. some (bytes ++ more))
same_after n _ f g fails k = refl
same_after n _ f g (leaves r e) k = rw (k r.1 e) refl

decode_loop_same :
    (text : List ℕ) (f g : ℕ)
    → length text < f
    → length text < g
    → decode_loop f text ≡ decode_loop g text
unfolding decode_loop
decode_loop_same text zero g h k = absurd (omega arith)
decode_loop_same text (suc f) zero h k = absurd (omega arith)
decode_loop_same [] (suc f) (suc g) h k = refl
decode_loop_same (c ∷ text) (suc f) (suc g) h k =
    same_after (length text) (gather 4 (c ∷ text)) (decode_loop f) (decode_loop g)
      (gather_some-Shorter 3 c text)
      (λ rest e. decode_loop_same rest f g (omega arith) (omega arith))

-- `b64decode` is what the loop gives with any number of rounds above the length of the text: it does not
-- fail for want of rounds.
pub decode_loop_enough :
    (text : List ℕ) (rounds : ℕ) → length text < rounds → decode_loop rounds text ≡ b64decode text
unfolding b64decode
decode_loop_enough text rounds h = decode_loop_same text rounds (suc (length text)) h (omega arith)
