-- ===== src/Crypt/Dh/Power.antt =====
-- `powmodp` of skynet/lualib-src/lua-crypt.c, and the bytes of its arguments and its result.
use skynet_notes.Prelude.{
  ℕ, zero, suc, ◌+◌, ◌*◌, ◌/◌, ◌%◌, ◌^◌, ◌<◌, ◌≡◌, ◌≢◌, refl, ap, ap₂, sym, ◌∙◌, ltb, ◌==◌, ==_iff,
  if◌then◌else◌, Bool-cases, inl, inr, some, arith,
}
use native.Mathlib.Nat.{mod-lt, mod-eq_of_lt, pow-suc, pow-zero}
use skynet_notes.Crypt.Dh.{prime, mul_mod_p, pow_mod_p, powmodp}
use skynet_notes.Crypt.Dh.Residues.{mod-mul, mod-mul-mod, pow_add, mod-pow}
use skynet_notes.Crypt.Dh.Product.{mul_mod_p_lem}

-- One round of `pow_mod_p`: from the half of the exponent to the exponent.
times :
    (a t : ℕ) (x y : ℕ)
    → a < prime
    → x ≡ a ^ t % prime
    → y ≡ a ^ t % prime
    → mul_mod_p x y ≡ a ^ (t + t) % prime
times a t x y h e f =
    let low : a ^ t % prime < prime = mod-lt (a ^ t) (omega arith) in
    ap₂ mul_mod_p e f
    ∙ mul_mod_p_lem (a ^ t % prime) (a ^ t % prime) low (omega (arith, low))
    ∙ mod-mul-mod prime (a ^ t) (a ^ t)
    ∙ ap (λ (u : ℕ). u % prime) (sym (pow_add a t t))

once : (a n x : ℕ) → a < prime → x ≡ a ^ n % prime → mul_mod_p x a ≡ a ^ suc n % prime
once a n x h e =
    let low : a ^ n % prime < prime = mod-lt (a ^ n) (omega arith) in
    ap (λ (t : ℕ). mul_mod_p t a) e
    ∙ mul_mod_p_lem (a ^ n % prime) a low (omega (arith, h))
    ∙ mod-mul prime (a ^ n) a
    ∙ ap (λ (u : ℕ). u % prime) (sym (pow-suc a n))

pow_mod_p_lem :
    (bits a b : ℕ) → a < prime → 0 < b → b < 2 ^ bits → pow_mod_p bits a b ≡ some (a ^ b % prime)
unfolding pow_mod_p
pow_mod_p_lem zero a b h k l = absurd (omega arith)
pow_mod_p_lem (suc bits) a b h k l = elim (Bool-cases (b == 1)) [
  | inl e ↦
      let one : b ≡ 1 = (==_iff b 1).0 e in rw (e, one, power_one) (ap some (sym (mod-eq_of_lt h)))
  | inr e ↦
      let half = b / 2 in
      let rest =
        pow_mod_p_lem bits a half h (ground (arith, e, k)) (omega (arith, pow-suc 2 bits)) in
      let squared = times a half (a ^ half % prime) (a ^ half % prime) h refl refl in
      elim (Bool-cases (b % 2 == 1)) [
        | inl o ↦
            let odd : suc (half + half) ≡ b = ground (arith, o) in
            rw (e, rest, o)
              (ap some (once a (half + half) _ h squared ∙ ap (λ (t : ℕ). a ^ t % prime) odd))
        | inr o ↦
            let even : half + half ≡ b = ground (arith, o) in
            rw (e, rest, o) (ap some (squared ∙ ap (λ (t : ℕ). a ^ t % prime) even))
      ]
]
  where
    power_one : a ^ 1 ≡ a
    power_one = pow-suc a 0 ∙ ap (λ (t : ℕ). t * a) (pow-zero a) ∙ omega arith

-- For any 64-bit `a` other than P itself and any exponent from 1 on, the recursion ends with `a ^ b` modulo P.
pub powmodp_lem :
    (a b : ℕ) → a < 2 ^ 64 → a ≢ prime → 0 < b → b < 2 ^ 64 → powmodp a b ≡ some (a ^ b % prime)
unfolding powmodp
powmodp_lem a b h n k l =
    let reduced : (if ltb prime a then a % prime else a) ≡ a % prime = reduce in
    rw reduced
      (pow_mod_p_lem 64 (a % prime) b (mod-lt a (omega arith)) k l ∙ ap some (mod-pow prime a b))
  where
    reduce : (if ltb prime a then a % prime else a) ≡ a % prime
    reduce = elim (Bool-cases (ltb prime a)) [
      | inl e ↦ rw e refl
      | inr e ↦ rw e (sym (mod-eq_of_lt (ground (arith, e, n))))
    ]
