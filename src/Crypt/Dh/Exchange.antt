-- ===== src/Crypt/Dh/Exchange.antt =====
-- `ldhexchange` and `ldhsecret` of skynet/lualib-src/lua-crypt.c: both sides come to the same secret.
use skynet_notes.Prelude.{
  ℕ, zero, suc, ◌+◌, ◌*◌, ◌/◌, ◌%◌, ◌^◌, ◌<◌, ◌≡◌, ◌≢◌, refl, ap, ap₂, sym, ◌∙◌, false, ◌==◌, some,
  List, [], ◌∷◌, bit_or, arith,
}
use skynet_notes.Prelude.Bits.{bit_or-disjoint}
use native.Mathlib.Nat.{mod-lt, mul_comm, mul_assoc, pow-suc, pow-zero, mul-one}
use skynet_notes.Crypt.{AllBytes}
use skynet_notes.Crypt.Dh.{prime, base, word_of, number_of_key, push64, dhsecret, dhexchange}
use skynet_notes.Crypt.Dh.Residues.{mod-mul, mod-mul-mod, mod-pow, pow_mul}
use skynet_notes.Crypt.Dh.Power.{powmodp_lem}

word_of_bytes :
    (x0 x1 x2 x3 : ℕ)
    → x0 < 256
    → x1 < 256
    → x2 < 256
    → word_of x0 x1 x2 x3 ≡ x0 + x1 * 256 + x2 * 65536 + x3 * 16777216
word_of_bytes x0 x1 x2 x3 h0 h1 h2 =
    let e1 = bit_or-disjoint 8 x0 x1 h0 in
    let e2 = bit_or-disjoint 16 (bit_or x0 (x1 * 2 ^ 8)) x2 (omega (arith, e1)) in
    omega (
      arith,
      e1,
      e2,
      bit_or-disjoint 24 (bit_or (bit_or x0 (x1 * 2 ^ 8)) (x2 * 2 ^ 16)) x3 (omega (arith, e1, e2)),
    )

four_digits :
    (r : ℕ)
    → r % 256 + r / 2 ^ 8 % 256 * 256 + r / 2 ^ 16 % 256 * 65536 + r / 2 ^ 24 % 256 * 16777216
      ≡ r % 2 ^ 32
four_digits r = omega arith

shifted :
    (r : ℕ)
    → (r / 2 ^ 32 / 2 ^ 8 ≡ r / 2 ^ 40)
      × (r / 2 ^ 32 / 2 ^ 16 ≡ r / 2 ^ 48)
      × (r / 2 ^ 32 / 2 ^ 24 ≡ r / 2 ^ 56)
shifted r = (omega arith, omega arith, omega arith)

low_word :
    (r : ℕ) → word_of (r % 256) (r / 2 ^ 8 % 256) (r / 2 ^ 16 % 256) (r / 2 ^ 24 % 256) ≡ r % 2 ^ 32
low_word r =
    word_of_bytes (r % 256) (r / 2 ^ 8 % 256) (r / 2 ^ 16 % 256) (r / 2 ^ 24 % 256) (omega arith)
      (omega arith) (omega arith)
    ∙ four_digits r

high_word :
    (r : ℕ)
    → word_of (r / 2 ^ 32 % 256) (r / 2 ^ 40 % 256) (r / 2 ^ 48 % 256) (r / 2 ^ 56 % 256)
      ≡ r / 2 ^ 32 % 2 ^ 32
high_word r = let (e, f, g) = shifted r in rw (sym e, sym f, sym g) (low_word (r / 2 ^ 32))

number_of_key-push64 : (r : ℕ) → r < 2 ^ 64 → number_of_key (push64 r) ≡ some r
unfolding number_of_key push64
number_of_key-push64 r h = ap some (
    ap₂ (λ (s t : ℕ). bit_or s (t * 2 ^ 32)) (low_word r) (high_word r)
    ∙ bit_or-disjoint 32 (r % 2 ^ 32) (r / 2 ^ 32 % 2 ^ 32) (omega arith)
    ∙ omega (arith, h))

some_lt : (m n : ℕ) → some m ≡ some n → m < 2 ^ 64 → n < 2 ^ 64
some_lt m n e h = ground (arith, e, h)

key_lt : (x : List ℕ) (n : ℕ) → AllBytes x → number_of_key x ≡ some n → n < 2 ^ 64
unfolding number_of_key
key_lt (x0 ∷ x1 ∷ x2 ∷ x3 ∷ x4 ∷ x5 ∷ x6 ∷ x7 ∷ []) n h e =
    let (h0, (h1, (h2, (h3, (h4, (h5, (h6, (h7, _)))))))) = h in
    let low = word_of_bytes x0 x1 x2 x3 h0 h1 h2 in
    let high = word_of_bytes x4 x5 x6 x7 h4 h5 h6 in
    let sum =
      bit_or-disjoint 32 (word_of x0 x1 x2 x3) (word_of x4 x5 x6 x7)
        (omega (arith, low, h0, h1, h2, h3)) in
    some_lt (bit_or (word_of x0 x1 x2 x3) (word_of x4 x5 x6 x7 * 2 ^ 32)) n e
      (omega (arith, low, high, sum, h0, h1, h2, h3, h4, h5, h6, h7))
key_lt _ n h e = absurd (ground (arith, e))

-- 5 has an inverse modulo P.
inverse : ℕ
inverse = 7378697629483820623

invertible : base * inverse % prime ≡ 1
unfolding inverse
invertible = refl

power_some : (n : ℕ) → base ^ n % prime ≢ 0
unfolding inverse
power_some zero e = absurd (omega (arith, e, pow-zero base))
power_some (suc n) e = power_some n (
    sym (mod-mul-mod prime (base ^ n) 1 ∙ ap (λ (t : ℕ). t % prime) (mul-one (base ^ n)))
    ∙ ap (λ (t : ℕ). base ^ n % prime * t % prime) (sym invertible)
    ∙ mod-mul-mod prime (base ^ n) (base * inverse)
    ∙ ap (λ (t : ℕ). t % prime)
        (sym (mul_assoc (base ^ n) base inverse)
          ∙ ap (λ (t : ℕ). t * inverse) (sym (pow-suc base n)))
    ∙ sym (mod-mul prime (base ^ suc n) inverse)
    ∙ ap (λ (t : ℕ). t * inverse % prime) e)

dhexchange_lem :
    (x : List ℕ) (m : ℕ)
    → AllBytes x
    → number_of_key x ≡ some m
    → 0 < m
    → dhexchange x ≡ some (push64 (base ^ m % prime))
unfolding dhexchange
dhexchange_lem x m b e h =
    let some_key : (m == 0) ≡ false = ground arith in
    rw
      (
        e,
        some_key,
        powmodp_lem base m (omega arith) (λ q. absurd (omega (arith, q))) h (key_lt x m b e),
      )
      refl

secret_of :
    (r n : ℕ) (y : List ℕ)
    → r < prime
    → r ≢ 0
    → AllBytes y
    → number_of_key y ≡ some n
    → 0 < n
    → dhsecret (push64 r) y ≡ some (push64 (r ^ n % prime))
unfolding dhsecret
secret_of r n y h k b e l =
    let some_r : (r == 0) ≡ false = ground (arith, k) in
    let some_n : (n == 0) ≡ false = ground arith in
    rw
      (
        number_of_key-push64 r (omega (arith, h)),
        e,
        some_r,
        some_n,
        powmodp_lem r n (omega (arith, h)) (λ q. absurd (omega (arith, h, q))) l (key_lt y n b e),
      )
      refl

dhsecret_lem :
    (y : List ℕ) (m n : ℕ)
    → AllBytes y
    → number_of_key y ≡ some n
    → 0 < n
    → dhsecret (push64 (base ^ m % prime)) y ≡ some (push64 (base ^ (m * n) % prime))
dhsecret_lem y m n b e h =
    secret_of (base ^ m % prime) n y (mod-lt (base ^ m) (omega arith)) (power_some m) b e h
    ∙ ap (λ (t : ℕ). some (push64 t))
        (mod-pow prime (base ^ m) n ∙ ap (λ (t : ℕ). t % prime) (pow_mul base m n))

-- Two parties with secret keys of eight bytes, not all zero, exchange what `ldhexchange` makes of them; then
-- `ldhsecret` gives both of them the same secret, and none of these calls fails.
pub dhsecret-agree :
    (x y : List ℕ) (m n : ℕ)
    → AllBytes x
    → AllBytes y
    → number_of_key x ≡ some m
    → number_of_key y ≡ some n
    → 0 < m
    → 0 < n
    → (x' : List ℕ) × (y' : List ℕ) × (s : List ℕ) × (dhexchange x ≡ some x')
      × (dhexchange y ≡ some y')
      × (dhsecret x' y ≡ some s)
      × (dhsecret y' x ≡ some s)
dhsecret-agree x y m n bx by ex ey hm hn = (
  push64 (base ^ m % prime),
  push64 (base ^ n % prime),
  push64 (base ^ (m * n) % prime),
  dhexchange_lem x m bx ex hm,
  dhexchange_lem y n by ey hn,
  dhsecret_lem y m n by ey hn,
  dhsecret_lem x n m bx ex hm ∙ ap (λ (t : ℕ). some (push64 (base ^ t % prime))) (mul_comm n m),
)
