-- ===== src/Seri/Unpack/Ends.antt =====
-- Unpacking any bytes with lua-seri.c ends.
use skynet_notes.Prelude.{
  ℕ, zero, suc, ◌+◌, ◌-◌, ◌*◌, ◌/◌, ◌^◌, ◌≤◌, ◌<◌, ◌≢◌, Bool, true, false, List, [], ◌∷◌, length,
  length-drop, ltb, leb, ◌==◌, if◌then◌else◌, Bool-cases, inl, inr, arith, bit_and,
}
use skynet_notes.Seri.{Value, Values, value, number_of}
use skynet_notes.Seri.Unpack.{
  Result, ok, invalid, fault, no_fuel, ◌>>=◌, rb_read, get_integer, get_qword, get_buffer,
  get_long_string, not_a_size, get_long_size, get_size, is_nil, is_nan, unpack_one, push_value,
  unpack_table, unpack_array, unpack_pairs, unpack_all, luaseri_unpack,
}

-- A result within the fuel; if it is a value, fewer than `bound` bytes are left.
pub data Ends {A : Type 0} (bound : ℕ) : Result (A × List ℕ) → Type 0 where
  returns : (r : A × List ℕ) → length r.1 < bound → Ends bound (ok r)
  errors : Ends bound invalid
  faults : Ends bound fault

Ends-bind :
    {A B : Type 0} (m n : ℕ) (r : Result (A × List ℕ)) {f : A × List ℕ → Result (B × List ℕ)}
    → Ends m r
    → ((a : A × List ℕ) → length a.1 < m → Ends n (f a))
    → Ends n (r >>= f)
Ends-bind m n _ (returns r h) k = k r h
Ends-bind m n _ errors k = errors
Ends-bind m n _ faults k = faults

rb_read-Ends : (rb : List ℕ) (sz : ℕ) → Ends (suc (length rb - sz)) (rb_read rb sz)
unfolding rb_read
rb_read-Ends rb sz = elim (Bool-cases (ltb (length rb) sz)) [
  | inl e ↦ rw e errors
  | inr e ↦ rw e (returns _ (omega (arith, length-drop sz rb)))
]

rb_read_one : (rb : List ℕ) → Ends (length rb) (rb_read rb 1)
unfolding rb_read
rb_read_one [] = errors
rb_read_one (b ∷ rb) = elim (Bool-cases (ltb (length (b ∷ rb)) 1)) [
  | inl e ↦ rw e errors
  | inr e ↦ rw e (returns _ (omega arith))
]

-- Reading a number and handing it on.
read_then :
    {A : Type 0} (rb : List ℕ) (sz : ℕ) {f : List ℕ × List ℕ → Result (A × List ℕ)}
    → ((r : List ℕ × List ℕ) → length r.1 < suc (length rb) → Ends (suc (length rb)) (f r))
    → Ends (suc (length rb)) (rb_read rb sz >>= f)
read_then rb sz k =
    Ends-bind (suc (length rb - sz)) (suc (length rb)) (rb_read rb sz) (rb_read-Ends rb sz)
      (λ r h. k r (omega arith))

get_qword-Ends : (rb : List ℕ) → Ends (suc (length rb)) (get_qword rb)
unfolding get_qword
get_qword-Ends rb = read_then rb 8 (λ r h. returns _ h)

-- The branch of a test.
either :
    {A : Type 0} {bound : ℕ} (b : Bool) {x y : Result (A × List ℕ)}
    → Ends bound x
    → Ends bound y
    → Ends bound (if b then x else y)
either true p q = p
either false p q = q

get_integer-Ends : (rb : List ℕ) (cookie : ℕ) → Ends (suc (length rb)) (get_integer rb cookie)
unfolding get_integer
get_integer-Ends rb cookie = either (cookie == 0) (returns _ (omega arith)) (
    either (cookie == 1) (read_then rb 1 (λ r h. returns _ h)) (
      either (cookie == 2) (read_then rb 2 (λ r h. returns _ h)) (
        either (cookie == 4) (read_then rb 4 (λ r h. returns _ h))
          (either (cookie == 6) (read_then rb 8 (λ r h. returns _ h)) errors))))

get_buffer-Ends : (rb : List ℕ) (len : ℕ) → Ends (suc (length rb)) (get_buffer rb len)
unfolding get_buffer
get_buffer-Ends rb len = either (leb (2 ^ 31) len) faults (read_then rb len (λ r h. returns _ h))

weaken : {A : Type 0} (m n : ℕ) (r : Result (A × List ℕ)) → m ≤ n → Ends m r → Ends n r
weaken m n _ h (returns r e) = returns r (omega arith)
weaken m n _ h errors = errors
weaken m n _ h faults = faults

get_long_string-Ends :
    (rb : List ℕ) (cookie : ℕ) → Ends (suc (length rb)) (get_long_string rb cookie)
unfolding get_long_string
get_long_string-Ends rb cookie =
    let buffer = λ (r : List ℕ × List ℕ) (h : length r.1 < suc (length rb)).
      weaken (suc (length r.1)) (suc (length rb)) (get_buffer r.1 (number_of r.0)) (omega arith)
        (get_buffer-Ends r.1 (number_of r.0)) in
    either (cookie == 2) (read_then rb 2 buffer)
      (either (cookie == 4) (read_then rb 4 buffer) errors)

get_long_size-Ends : (rb : List ℕ) (type : ℕ) → Ends (suc (length rb)) (get_long_size rb type)
unfolding get_long_size
get_long_size-Ends rb type = either (not_a_size (bit_and type 7) (type / 2 ^ 3)) errors (
    Ends-bind (suc (length rb)) (suc (length rb)) (get_integer rb (type / 2 ^ 3))
      (get_integer-Ends rb (type / 2 ^ 3)) (λ n h. returns _ h))

get_size-Ends : (rb : List ℕ) (n : ℕ) → Ends (suc (length rb)) (get_size rb n)
unfolding get_size
get_size-Ends rb n =
    either (n == 31)
      (read_then rb 1 (λ r h.
        weaken (suc (length r.1)) (suc (length rb)) (get_long_size r.1 (number_of r.0))
          (omega arith) (get_long_size-Ends r.1 (number_of r.0))))
      (returns _ (omega arith))

mutual
  unfolding unpack_one

  pub unpack_one-Ends :
      (f : ℕ) (rb : List ℕ) → 4 * length rb + 1 ≤ f → Ends (length rb) (unpack_one f rb)
  unpack_one-Ends zero rb h = absurd (omega arith)
  unpack_one-Ends (suc f) rb h =
      Ends-bind (length rb) (length rb) (rb_read rb 1) (rb_read_one rb) (λ r k.
        weaken (suc (length r.1)) (length rb) _ (omega arith)
          (push_value-Ends f r.1 (bit_and (number_of r.0) 7) (number_of r.0 / 2 ^ 3) (omega arith)))

  push_value-Ends :
      (f : ℕ) (rb : List ℕ) (type cookie : ℕ)
      → 4 * length rb + 4 ≤ f
      → Ends (suc (length rb)) (push_value f rb type cookie)
  push_value-Ends zero rb type cookie h = absurd (omega arith)
  push_value-Ends (suc f) rb type cookie h =
      let bound = suc (length rb) in
      either (type == 0) (returns _ (omega arith)) (
        either (type == 1) (returns _ (omega arith)) (
          either (type == 2)
            (either (cookie == 8)
              (Ends-bind bound bound (get_qword rb) (get_qword-Ends rb) (λ r k. returns _ k))
              (Ends-bind bound bound (get_integer rb cookie) (get_integer-Ends rb cookie)
                (λ r k. returns _ k)))
            (either (type == 3)
              (Ends-bind bound bound (get_qword rb) (get_qword-Ends rb) (λ r k. returns _ k))
              (either (type == 4) (get_buffer-Ends rb cookie) (
                either (type == 5) (get_long_string-Ends rb cookie)
                  (either (type == 6) (unpack_table-Ends f rb cookie (omega arith)) errors))))))

  unpack_table-Ends :
      (f : ℕ) (rb : List ℕ) (n : ℕ)
      → 4 * length rb + 3 ≤ f
      → Ends (suc (length rb)) (unpack_table f rb n)
  unpack_table-Ends zero rb n h = absurd (omega arith)
  unpack_table-Ends (suc f) rb n h =
      let bound = suc (length rb) in
      Ends-bind bound bound (get_size rb n) (get_size-Ends rb n) (λ a k.
        Ends-bind (suc (length a.1)) bound (unpack_array f a.1 a.0)
          (unpack_array-Ends f a.1 a.0 (omega arith))
          (λ b l.
            Ends-bind (suc (length b.1)) bound (unpack_pairs f b.1)
              (unpack_pairs-Ends f b.1 (omega arith)) (λ c m. returns _ (omega arith))))

  unpack_array-Ends :
      (f : ℕ) (rb : List ℕ) (n : ℕ)
      → 4 * length rb + 2 ≤ f
      → Ends (suc (length rb)) (unpack_array f rb n)
  unpack_array-Ends zero rb n h = absurd (omega arith)
  unpack_array-Ends (suc f) rb n h =
      let bound = suc (length rb) in
      either (n == 0) (returns _ (omega arith)) (
        Ends-bind (length rb) bound (unpack_one f rb) (unpack_one-Ends f rb (omega arith)) (λ v k.
          Ends-bind (suc (length v.1)) bound (unpack_array f v.1 (n - 1))
            (unpack_array-Ends f v.1 (n - 1) (omega arith)) (λ vs l. returns _ (omega arith))))

  unpack_pairs-Ends :
      (f : ℕ) (rb : List ℕ) → 4 * length rb + 2 ≤ f → Ends (suc (length rb)) (unpack_pairs f rb)
  unpack_pairs-Ends zero rb h = absurd (omega arith)
  unpack_pairs-Ends (suc f) rb h =
      let bound = suc (length rb) in
      Ends-bind (length rb) bound (unpack_one f rb) (unpack_one-Ends f rb (omega arith)) (λ key k.
        either (is_nil key.0) (returns _ (omega arith)) (
          Ends-bind (length key.1) bound (unpack_one f key.1)
            (unpack_one-Ends f key.1 (omega arith))
            (λ v l. either (is_nan key.0) errors (
              Ends-bind (suc (length v.1)) bound (unpack_pairs f v.1)
                (unpack_pairs-Ends f v.1 (omega arith)) (λ ps m. returns _ (omega arith))))))

unpack_all-ends :
    (rounds f : ℕ) (rb : List ℕ)
    → length rb < rounds
    → 4 * length rb + 1 ≤ f
    → unpack_all rounds f rb ≢ no_fuel
unfolding unpack_all
unpack_all-ends zero f rb h k e = absurd (omega arith)
unpack_all-ends (suc rounds) f [] h k e = ground (arith, e)
unpack_all-ends (suc rounds) f (b ∷ rb) h k e =
    after (unpack_one f (b ∷ rb)) (unpack_one-Ends f (b ∷ rb) k)
      (λ rest l. unpack_all-ends rounds f rest (omega arith) (omega arith)) e
  where
    second : (v : Value) (r : Result Values) → r ≢ no_fuel → (r >>= λ vs. ok (value v vs)) ≢ no_fuel
    second v (ok vs) ne e = ground (arith, e)
    second v invalid ne e = ground (arith, e)
    second v fault ne e = ground (arith, e)
    second v no_fuel ne e = ne e

    after :
        (r : Result (Value × List ℕ))
        → Ends (length (b ∷ rb)) r
        → ((rest : List ℕ) → length rest < length (b ∷ rb) → unpack_all rounds f rest ≢ no_fuel)
        → (r >>= λ v. unpack_all rounds f v.1 >>= λ vs. ok (value v.0 vs)) ≢ no_fuel
    after _ (returns v e) k q = second v.0 (unpack_all rounds f v.1) (k v.1 e) q
    after _ errors k q = ground (arith, q)
    after _ faults k q = ground (arith, q)

-- Whatever the bytes are, the loops and the recursion of `luaseri_unpack` end within the fuel that it has
-- here, four for each byte: with values, with the error for an invalid stream, or with a fault.
pub luaseri_unpack_ends : (buffer : List ℕ) → luaseri_unpack buffer ≢ no_fuel
unfolding luaseri_unpack
luaseri_unpack_ends buffer =
    unpack_all-ends (suc (length buffer)) (4 * suc (length buffer)) buffer (omega arith)
      (omega arith)
