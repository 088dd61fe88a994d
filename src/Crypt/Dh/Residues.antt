-- ===== src/Crypt/Dh/Residues.antt =====
-- Remainders of products and powers, for the arithmetic modulo P of skynet/lualib-src/lua-crypt.c.
use skynet_notes.Prelude.{ℕ, zero, suc, ◌+◌, ◌*◌, ◌/◌, ◌%◌, ◌^◌, ◌≡◌, refl, ap, sym, ◌∙◌, arith}
use native.Mathlib.Nat.{
  add-mul-mod_self_left, zero-mod, mod-add-div, mul-one, mul_comm, pow-suc, pow-zero, add-zero,
  add-suc, mul-zero, mul-suc, mul_assoc,
}

pub linear-mod : (p x y z : ℕ) → (x % p + y % p * z) % p ≡ (x + y * z) % p
linear-mod p x y z =
    let e : x + y * z ≡ x % p + y % p * z + p * (x / p + y / p * z) =
      split (x % p) (x / p) (y % p) (y / p) (mod-add-div x p) (mod-add-div y p) in
    sym (ap (λ (t : ℕ). t % p) e ∙ add-mul-mod_self_left (x % p + y % p * z) p (x / p + y / p * z))
  where
    split : (r q s t : ℕ) → r + p * q ≡ x → s + p * t ≡ y → x + y * z ≡ r + s * z + p * (q + t * z)
    split r q s t e f = grind (arith, e, f)

pub mod-mul : (p x y : ℕ) → x % p * y % p ≡ x * y % p
mod-mul p x y =
    let none : 0 % p ≡ 0 = zero-mod p in
    let plain : (n : ℕ) → 0 + n ≡ n = λ n. omega arith in
    rw (none, plain (x % p * y), plain (x * y)) at (linear-mod p 0 x y)

pub mod-mul-mod : (p x y : ℕ) → x % p * (y % p) % p ≡ x * y % p
mod-mul-mod p x y =
    mod-mul p x (y % p)
    ∙ ap (λ (t : ℕ). t % p) (mul_comm x (y % p))
    ∙ mod-mul p y x
    ∙ ap (λ (t : ℕ). t % p) (mul_comm y x)

pub pow_add : (a m n : ℕ) → a ^ (m + n) ≡ a ^ m * a ^ n
pow_add a m zero = rw (add-zero m, pow-zero a, mul-one (a ^ m)) refl
pow_add a m (suc n) =
    rw (add-suc m n, pow-suc a (m + n), pow-suc a n, pow_add a m n) (mul_assoc (a ^ m) (a ^ n) a)

pub pow_mul : (a m n : ℕ) → (a ^ m) ^ n ≡ a ^ (m * n)
pow_mul a m zero = rw (pow-zero (a ^ m), mul-zero m, pow-zero a) refl
pow_mul a m (suc n) =
    pow-suc (a ^ m) n
    ∙ ap (λ (t : ℕ). t * a ^ m) (pow_mul a m n)
    ∙ sym (pow_add a (m * n) m)
    ∙ ap (λ (t : ℕ). a ^ t) (sym (mul-suc m n))

pub mod-pow : (p a n : ℕ) → (a % p) ^ n % p ≡ a ^ n % p
mod-pow p a zero = rw (pow-zero (a % p), pow-zero a) refl
mod-pow p a (suc n) =
    ap (λ (t : ℕ). t % p) (pow-suc (a % p) n)
    ∙ sym (mod-mul p ((a % p) ^ n) (a % p))
    ∙ ap (λ (t : ℕ). t * (a % p) % p) (mod-pow p a n)
    ∙ mod-mul-mod p (a ^ n) a
    ∙ ap (λ (t : ℕ). t % p) (sym (pow-suc a n))
