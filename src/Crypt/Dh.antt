-- ===== src/Crypt/Dh.antt =====
-- The key exchange of skynet/lualib-src/lua-crypt.c: multiplication and powers modulo P in 64 bits.
mod Residues
pub mod Product
pub mod Power
pub mod Exchange
use skynet_notes.Prelude.{
  ℕ, zero, suc, ◌+◌, ◌-◌, ◌*◌, ◌/◌, ◌%◌, ◌^◌, Bool, true, false, Option, none, some, List, [], ◌∷◌,
  ltb, leb, ◌==◌, if◌then◌else◌, bit_or,
}
use skynet_notes.Crypt.{◌>>=◌}

-- P, "the biggest 64bit prime"
abbrev pub prime : ℕ
prime = 0xffffffffffffffc5

-- G
abbrev pub base : ℕ
base = 5

-- `uint64_t` subtraction and doubling
abbrev pub sub64 : ℕ → ℕ → ℕ
sub64 a b = (a + 2 ^ 64 - b) % 2 ^ 64

abbrev pub double64 : ℕ → ℕ
double64 a = a * 2 % 2 ^ 64

-- What `mul_mod_p` does to `m` for a bit that is set, and to `a` in each round.
unfoldable pub add_mod : ℕ → ℕ → ℕ
add_mod m a = let t = sub64 prime a in if leb t m then sub64 m t else (m + a) % 2 ^ 64

unfoldable pub double_mod : ℕ → ℕ
double_mod a = if leb (sub64 prime a) a then sub64 (double64 a) prime else double64 a

-- The loop of `mul_mod_p`, `bits` rounds before its end at the latest.
unfoldable pub mul_loop : ℕ → ℕ → ℕ → ℕ → ℕ
mul_loop zero m a b = m
mul_loop (suc bits) m a b =
    let rest = mul_loop bits (if b % 2 == 1 then add_mod m a else m) (double_mod a) (b / 2) in
    if b == 0 then m else rest

unfoldable pub mul_mod_p : ℕ → ℕ → ℕ
mul_mod_p a b = mul_loop 64 0 a b

-- `pow_mod_p`, for exponents of at most `bits` bits; none is a recursion that does not end, as from 0.
unfoldable pub pow_mod_p : ℕ → ℕ → ℕ → Option ℕ
pow_mod_p zero a b = none
pow_mod_p (suc bits) a b =
    let rest = pow_mod_p bits a (b / 2) in
    if b == 1
    then some a
    else (do t ← rest; let t' = mul_mod_p t t; some (if b % 2 == 1 then mul_mod_p t' a else t'))

unfoldable pub powmodp : ℕ → ℕ → Option ℕ
powmodp a b = pow_mod_p 64 (if ltb prime a then a % prime else a) b

abbrev word_of : ℕ → ℕ → ℕ → ℕ → ℕ
word_of x0 x1 x2 x3 = bit_or (bit_or (bit_or x0 (x1 * 2 ^ 8)) (x2 * 2 ^ 16)) (x3 * 2 ^ 24)

-- Eight bytes as a number, which the callers of `powmodp` read; none is a wrong length.
unfoldable pub number_of_key : List ℕ → Option ℕ
number_of_key (x0 ∷ x1 ∷ x2 ∷ x3 ∷ x4 ∷ x5 ∷ x6 ∷ x7 ∷ []) =
    some (bit_or (word_of x0 x1 x2 x3) (word_of x4 x5 x6 x7 * 2 ^ 32))
number_of_key _ = none

unfoldable pub push64 : ℕ → List ℕ
push64 r =
    r % 256
    ∷ r / 2 ^ 8 % 256
    ∷ r / 2 ^ 16 % 256
    ∷ r / 2 ^ 24 % 256
    ∷ r / 2 ^ 32 % 256
    ∷ r / 2 ^ 40 % 256
    ∷ r / 2 ^ 48 % 256
    ∷ r / 2 ^ 56 % 256
    ∷ []

-- `ldhsecret`
unfoldable pub dhsecret : List ℕ → List ℕ → Option (List ℕ)
dhsecret x y = do
  xx ← number_of_key x
  yy ← number_of_key y
  let secret = powmodp xx yy
  if xx == 0 then none else if yy == 0 then none else (do r ← secret; some (push64 r))

-- `ldhexchange`
unfoldable pub dhexchange : List ℕ → Option (List ℕ)
dhexchange x = do
  x64 ← number_of_key x
  let public = powmodp base x64
  if x64 == 0 then none else (do r ← public; some (push64 r))
