-- ===== src/Prelude/Bits.antt =====
-- Laws of `&` and `|` with a mask of low ones, for every width, from the digit recursion that the
-- native operations stand for.
use Prim.Native.Nat.{
  ℕ, zero, suc, ◌+◌, ◌-◌, ◌*◌, ◌/◌, ◌%◌, ◌^◌, ◌≤◌, ◌<◌, min, max, bit_and, bit_or, bit_xor, digits,
  differ, bit_and-bitwise, bit_or-bitwise, bit_xor-bitwise,
}
use mathlib.Core.Path.{◌≡◌, refl, ap, sym, ◌∙◌}
use mathlib.Core.Logic.{◌↔◌}
use native.Mathlib.Nat.{pow-suc, one-le-pow, le_refl}
use native.Mathlib.Omega.{arith}

-- One digit of a bitwise operation; the recursion's fuel only has to reach the first number.
module _ (z : ℕ → ℕ) (f : ℕ → ℕ → ℕ) where
  fuel_irrelevant : (m n a b : ℕ) → a ≤ m → a ≤ n → digits z f m a b ≡ digits z f n a b
  fuel_irrelevant zero zero zero b p q = refl
  fuel_irrelevant zero (suc n) zero b p q = refl
  fuel_irrelevant (suc m) zero zero b p q = refl
  fuel_irrelevant (suc m) (suc n) zero b p q = refl
  fuel_irrelevant zero n (suc a) b p q = absurd (omega arith)
  fuel_irrelevant (suc m) zero (suc a) b p q = absurd (omega arith)
  fuel_irrelevant (suc m) (suc n) (suc a) b p q =
      rw (fuel_irrelevant m n (suc a / 2) (b / 2) (omega arith) (omega arith))

  low_digit :
      (a b : ℕ)
      → digits z f (suc a) (suc a) b
        ≡ digits z f (suc a / 2) (suc a / 2) (b / 2) * 2 + f (suc a % 2) (b % 2)
  low_digit a b =
      omega (arith, fuel_irrelevant a (suc a / 2) (suc a / 2) (b / 2) (omega arith) (le_refl _))

bit_and_digit : (a b : ℕ) → bit_and a b ≡ bit_and (a / 2) (b / 2) * 2 + min (a % 2) (b % 2)
bit_and_digit zero b = simp bit_and-bitwise (omega arith)
bit_and_digit (suc a) b = simp bit_and-bitwise (low_digit (λ _. 0) min a b)

bit_or_digit : (a b : ℕ) → bit_or a b ≡ bit_or (a / 2) (b / 2) * 2 + max (a % 2) (b % 2)
bit_or_digit zero b = simp bit_or-bitwise (omega arith)
bit_or_digit (suc a) b = simp bit_or-bitwise (low_digit (λ y. y) max a b)

zeros : (n a : ℕ) → a ≤ n → (bit_and a 0 ≡ 0) × (bit_or a 0 ≡ a)
zeros n zero h = (refl, refl)
zeros zero (suc a) h = absurd (omega arith)
zeros (suc n) (suc a) h =
    omega
      (arith, bit_and_digit (suc a) 0, bit_or_digit (suc a) 0, zeros n (suc a / 2) (omega arith))

halve-mod : (a p : ℕ) → 0 < p → a / 2 % p * 2 + a % 2 ≡ a % (p * 2)
halve-mod a p h = grind arith

halve-div : (a p : ℕ) → 0 < p → a / 2 / p ≡ a / (p * 2)
halve-div a p h = grind arith

pub two_pow_pos : (k : ℕ) → 0 < 2 ^ k
two_pow_pos k = one-le-pow k 2 (omega arith)

-- A mask of `suc k` ones is odd, and its half is a mask of `k` ones.
low_ones-halve :
    (k : ℕ)
    → ((2 ^ suc k - 1) / 2 ≡ 2 ^ k - 1) × ((2 ^ suc k - 1) % 2 ≡ 1) × (2 ^ suc k ≡ 2 ^ k * 2)
low_ones-halve k = omega (arith, pow-suc 2 k, two_pow_pos k)

-- `a & (2^k - 1)` is the remainder by `2^k`.
pub bit_and-low_ones : (k a : ℕ) → bit_and a (2 ^ k - 1) ≡ a % 2 ^ k
bit_and-low_ones zero a = omega (arith, zeros a a (le_refl a))
bit_and-low_ones (suc k) a =
    let (half, odd, double) = low_ones-halve k in
    rw (bit_and_digit, half, odd, double, bit_and-low_ones k (a / 2))
      (omega (arith, halve-mod a (2 ^ k) (two_pow_pos k)))

-- `a | (2^k - 1)` keeps the digits above, and sets the `k` low ones.
pub bit_or-low_ones : (k a : ℕ) → bit_or a (2 ^ k - 1) ≡ a / 2 ^ k * 2 ^ k + (2 ^ k - 1)
bit_or-low_ones zero a = omega (arith, zeros a a (le_refl a))
bit_or-low_ones (suc k) a =
    let (half, odd, double) = low_ones-halve k in
    rw
      (
        bit_or_digit,
        half,
        odd,
        bit_or-low_ones k (a / 2),
        halve-div a (2 ^ k) (two_pow_pos k),
        double,
      )
      (omega (arith, two_pow_pos k))

-- Two numbers with the same bits above `k` have equal quotients, and conversely.
pub bit_or-low_ones-eq :
    (k a b : ℕ) → (bit_or a (2 ^ k - 1) ≡ bit_or b (2 ^ k - 1)) ↔ (a / 2 ^ k ≡ b / 2 ^ k)
bit_or-low_ones-eq k a b =
    rw (bit_or-low_ones k a, bit_or-low_ones k b) ((λ e. grind (arith, two_pow_pos k)), (λ e. rw e))

-- `a | b` where the digits do not meet is a sum.
pub bit_or-disjoint : (k a b : ℕ) → a < 2 ^ k → bit_or a (b * 2 ^ k) ≡ a + b * 2 ^ k
bit_or-disjoint zero zero b h = simp bit_or-bitwise (omega arith)
bit_or-disjoint zero (suc a) b h = absurd (omega arith)
bit_or-disjoint (suc k) a b h =
    let e : b * 2 ^ suc k ≡ b * 2 ^ k * 2 = omega (arith, ap (λ (t : ℕ). b * t) (pow-suc 2 k)) in
    let half : b * 2 ^ k * 2 / 2 ≡ b * 2 ^ k = omega arith in
    rw (bit_or_digit, e, half)
      (omega (arith, bit_or-disjoint k (a / 2) b (omega (arith, pow-suc 2 k))))

-- `a | b` where the first number is the higher one.
pub bit_or-shifted : (k a b : ℕ) → b < 2 ^ k → bit_or (a * 2 ^ k) b ≡ a * 2 ^ k + b
bit_or-shifted zero a zero h = omega (arith, zeros (a * 1) (a * 1) (le_refl (a * 1)))
bit_or-shifted zero a (suc b) h = absurd (omega arith)
bit_or-shifted (suc k) a b h =
    let e : a * 2 ^ suc k ≡ a * 2 ^ k * 2 = omega (arith, ap (λ (t : ℕ). a * t) (pow-suc 2 k)) in
    let half : a * 2 ^ k * 2 / 2 ≡ a * 2 ^ k = omega arith in
    rw (bit_or_digit, e, half)
      (omega (arith, bit_or-shifted k a (b / 2) (omega (arith, pow-suc 2 k))))

-- Numbers whose digits do not meet are added.
pub meet : (k x b : ℕ) → x % 2 ^ k ≡ 0 → 0 < 2 ^ k → b < 2 ^ k → bit_or x b ≡ x + b
meet k x b e p h =
    let whole : x / 2 ^ k * 2 ^ k ≡ x = grind (arith, e, p) in
    ap (λ (t : ℕ). bit_or t b) (sym whole)
    ∙ bit_or-shifted k (x / 2 ^ k) b h
    ∙ ap (λ (t : ℕ). t + b) whole

bit_xor_digit : (a b : ℕ) → bit_xor a b ≡ bit_xor (a / 2) (b / 2) * 2 + differ (a % 2) (b % 2)
bit_xor_digit zero b = simp bit_xor-bitwise (omega arith)
bit_xor_digit (suc a) b = simp bit_xor-bitwise (low_digit (λ y. y) differ a b)

differ_digits : (x y : ℕ) → x < 2 → y < 2 → (differ x y < 2) × (differ (differ x y) y ≡ x)
differ_digits zero zero h k = (omega arith, refl)
differ_digits zero (suc zero) h k = (omega arith, refl)
differ_digits (suc zero) zero h k = (omega arith, refl)
differ_digits (suc zero) (suc zero) h k = (omega arith, refl)
differ_digits (suc (suc x)) y h k = absurd (omega arith)
differ_digits zero (suc (suc y)) h k = absurd (omega arith)
differ_digits (suc zero) (suc (suc y)) h k = absurd (omega arith)

-- `^` twice with the same number does nothing.
twice_within : (n a b : ℕ) → a ≤ n → b ≤ n → bit_xor (bit_xor a b) b ≡ a
twice_within zero zero zero h k = refl
twice_within zero (suc a) b h k = absurd (omega arith)
twice_within zero zero (suc b) h k = absurd (omega arith)
twice_within (suc n) a b h k =
    let x = bit_xor a b in
    let d = differ_digits (a % 2) (b % 2) (omega arith) (omega arith) in
    let half : x / 2 ≡ bit_xor (a / 2) (b / 2) = omega (arith, bit_xor_digit a b, d.0) in
    let odd : x % 2 ≡ differ (a % 2) (b % 2) = omega (arith, bit_xor_digit a b, d.0) in
    let rest = twice_within n (a / 2) (b / 2) (omega arith) (omega arith) in
    rw (bit_xor_digit x b, half, odd, rest, d.1) (omega arith)

pub bit_xor_twice : (a b : ℕ) → bit_xor (bit_xor a b) b ≡ a
bit_xor_twice a b = twice_within (a + b) a b (omega arith) (omega arith)
