-- ===== src/Crypt/Dh/Product.antt =====
-- `mul_mod_p` of skynet/lualib-src/lua-crypt.c multiplies modulo P without leaving 64 bits.
use skynet_notes.Prelude.{
  ℕ, zero, suc, ◌+◌, ◌*◌, ◌/◌, ◌%◌, ◌^◌, ◌<◌, ◌≡◌, refl, ap, ap₂, sym, ◌∙◌, ◌==◌, ==_iff,
  if◌then◌else◌, Bool-cases, inl, inr, arith,
}
use native.Mathlib.Nat.{
  mod-lt, mod-eq_of_lt, pow-suc, mul-zero, add-zero, mul_comm, mul-one, mod-add-div,
}
use skynet_notes.Crypt.Dh.{prime, add_mod, double_mod, mul_loop, mul_mod_p}
use skynet_notes.Crypt.Dh.Residues.{linear-mod}

add_mod_lem : (m a : ℕ) → m < prime → a < prime → add_mod m a ≡ (m + a) % prime
unfolding add_mod
add_mod_lem m a h k = ground arith

double_mod_lem : (a : ℕ) → a < prime → double_mod a ≡ a * 2 % prime
unfolding double_mod
double_mod_lem a h = ground arith

added_bit : ℕ → ℕ → ℕ → ℕ
added_bit m a b = if b % 2 == 1 then add_mod m a else m

added_bit_lem : (m a b : ℕ) → m < prime → a < prime → added_bit m a b ≡ (m + b % 2 * a) % prime
unfolding added_bit
added_bit_lem m a b h k = elim (Bool-cases (b % 2 == 1)) [
  | inl e ↦
      let one : b % 2 ≡ 1 = (==_iff (b % 2) 1).0 e in
      rw (e, one, add_mod_lem m a h k, mul_comm 1 a, mul-one a) refl
  | inr e ↦
      let none : b % 2 ≡ 0 = ground (arith, e) in
      let plain : m + 0 * a ≡ m = omega arith in rw (e, none, plain) (sym (mod-eq_of_lt h))
]

halves : (m a b : ℕ) → m + b % 2 * a + a * 2 * (b / 2) ≡ m + a * b
halves m a b = spread (b % 2) (b / 2) ∙ ap (λ (t : ℕ). m + a * t) (mod-add-div b 2)
  where
    spread : (r q : ℕ) → m + r * a + a * 2 * q ≡ m + a * (r + 2 * q)
    spread r q = grind arith

mul_loop_lem :
    (bits m a b : ℕ)
    → m < prime
    → a < prime
    → b < 2 ^ bits
    → mul_loop bits m a b ≡ (m + a * b) % prime
unfolding mul_loop added_bit
mul_loop_lem zero m a b h k l =
    let none : b ≡ 0 = omega arith in rw (none, mul-zero a, add-zero m) (sym (mod-eq_of_lt h))
mul_loop_lem (suc bits) m a b h k l = elim (Bool-cases (b == 0)) [
  | inl e ↦
      let none : b ≡ 0 = (==_iff b 0).0 e in
      rw (e, none, mul-zero a, add-zero m) (sym (mod-eq_of_lt h))
  | inr e ↦
      let sum = added_bit_lem m a b h k in
      let low : (m + b % 2 * a) % prime < prime = mod-lt (m + b % 2 * a) (omega arith) in
      let rest =
        mul_loop_lem bits (added_bit m a b) (double_mod a) (b / 2) (rw sum low)
          (rw (double_mod_lem a k) (mod-lt (a * 2) (omega arith)))
          (omega (arith, pow-suc 2 bits)) in
      rw e (
        rest
        ∙ ap₂ (λ (s t : ℕ). (s + t * (b / 2)) % prime) sum (double_mod_lem a k)
        ∙ linear-mod prime (m + b % 2 * a) (a * 2) (b / 2)
        ∙ ap (λ (t : ℕ). t % prime) (halves m a b))
]

-- Below P, and with any 64-bit second factor, `mul_mod_p` gives the product modulo P: no sum or doubling in
-- its loop is lost to the wrap of 64 bits.
pub mul_mod_p_lem : (a b : ℕ) → a < prime → b < 2 ^ 64 → mul_mod_p a b ≡ a * b % prime
unfolding mul_mod_p
mul_mod_p_lem a b h k =
    mul_loop_lem 64 0 a b (omega arith) h k ∙ ap (λ (t : ℕ). t % prime) (omega arith)
