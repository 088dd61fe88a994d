-- ===== src/Seri/Unpack/Decode.antt =====
-- Reading back what lua-seri.c packed.
use native.Mathlib.Nat.{pow-suc}
use skynet_notes.Prelude.{
  ℕ, zero, suc, ◌+◌, ◌*◌, ◌/◌, ◌%◌, ◌^◌, ◌<◌, ◌≡◌, refl, sym, ap, ◌∙◌, false, List, [], ◌∷◌, ◌++◌,
  length, length-append, drop, ltb, ◌==◌, ==_iff, Bool-cases, inl, inr, arith, bit_and,
}
use skynet_notes.Prelude.Bits.{bit_and-low_ones, bit_or-disjoint}
use skynet_notes.Prelude.Bytes.{take-append, take_all}
use skynet_notes.Seri.{bytes_of, number_of, combine_type, is_int32, is_negative}
use skynet_notes.Seri.Pack.Encode.{encode_integer}
use skynet_notes.Seri.Unpack.{ok, rb_read, sign_extend, get_integer, unpack_one, push_value}

pub number_of-bytes_of : (n x : ℕ) → x < 256 ^ n → number_of (bytes_of n x) ≡ x
number_of-bytes_of zero x h = omega arith
number_of-bytes_of (suc n) x h =
    omega (arith, number_of-bytes_of n (x / 256) (grind (arith, pow-suc 256 n)))

pub length-bytes_of : (n x : ℕ) → length (bytes_of n x) ≡ n
length-bytes_of zero x = refl
length-bytes_of (suc n) x = ap suc (length-bytes_of n (x / 256))

pub drop_all : (l rest : List ℕ) → drop (length l) (l ++ rest) ≡ rest
drop_all [] rest = refl
drop_all (x ∷ l) rest = drop_all l rest

pub rb_read-append : (l rest : List ℕ) (n : ℕ) → n ≡ length l → rb_read (l ++ rest) n ≡ ok (l, rest)
unfolding rb_read
rb_read-append l rest n e =
    let enough : ltb (length (l ++ rest)) (length l) ≡ false =
      ground (arith, length-append l rest) in
    let first = take-append (length l) l rest (omega arith) ∙ take_all (length l) l (omega arith) in
    rw (e, enough, first, drop_all l rest) refl

pub read_number :
    (n x : ℕ) (rest : List ℕ) → rb_read (bytes_of n x ++ rest) n ≡ ok (bytes_of n x, rest)
read_number n x rest = rb_read-append (bytes_of n x) rest n (sym (length-bytes_of n x))

-- The two parts of the byte before each value.
pub header_type : (t v : ℕ) → t < 8 → bit_and (combine_type t v + 256 * 0) 7 ≡ t
header_type t v h =
    bit_and-low_ones 3 (combine_type t v + 256 * 0) ∙ omega (arith, bit_or-disjoint 3 t v h)

pub header_cookie : (t v : ℕ) → t < 8 → (combine_type t v + 256 * 0) / 2 ^ 3 ≡ v
header_cookie t v h = omega (arith, bit_or-disjoint 3 t v h)

pub unpack_one-header :
    (f t v : ℕ) (rest : List ℕ)
    → t < 8
    → unpack_one (suc f) (combine_type t v ∷ rest) ≡ push_value f rest t v
unfolding unpack_one
unpack_one-header f t v rest h =
    let read = rb_read-append (combine_type t v ∷ []) rest 1 refl in
    rw (read, header_type t v h, header_cookie t v h) refl

-- The header byte of a packed integer, and what is read behind it.
pub record IntegerParts (x : ℕ) : Type 0 where
  pub cookie : ℕ
  pub body : List ℕ
  pub bytes : encode_integer x ≡ combine_type 2 cookie ∷ body
  pub not_real : (cookie == 8) ≡ false
  pub read : (rest : List ℕ) → get_integer (body ++ rest) cookie ≡ ok (x, rest)

pub integer_parts : (x : ℕ) → x < 2 ^ 64 → IntegerParts x
unfolding encode_integer get_integer
integer_parts x h = elim (Bool-cases (x == 0)) [
  | inl e ↦ record {
    cookie = 0;
    body = [];
    bytes = rw e refl;
    not_real = refl;
    read = λ rest. ap (λ n. ok (n, rest)) (sym ((==_iff x 0).0 e));
  }
  | inr e ↦ elim (Bool-cases (is_int32 x)) [
    | inr f ↦ record {
      cookie = 6;
      body = bytes_of 8 x;
      bytes = rw (e, f) refl;
      not_real = refl;
      read = λ rest. rw (read_number 8 x rest, number_of-bytes_of 8 x h) refl;
    }
    | inl f ↦ elim (Bool-cases (is_negative x)) [
      | inl g ↦ record {
        cookie = 4;
        body = bytes_of 4 (x % 2 ^ 32);
        bytes = rw (e, f, g) refl;
        not_real = refl;
        read = λ rest.
            let back : sign_extend (x % 2 ^ 32) ≡ x = ground arith in
            rw
              (
                read_number 4 (x % 2 ^ 32) rest,
                number_of-bytes_of 4 (x % 2 ^ 32) (omega arith),
                back,
              )
              refl;
      }
      | inr g ↦ elim (Bool-cases (ltb x 0x100)) [
        | inl i ↦ record {
          cookie = 1;
          body = x ∷ [];
          bytes = rw (e, f, g, i) refl;
          not_real = refl;
          read = λ rest.
              let same : x + 256 * 0 ≡ x = omega arith in
              rw (rb_read-append (x ∷ []) rest 1 refl, same) refl;
        }
        | inr i ↦ elim (Bool-cases (ltb x 0x10000)) [
          | inl j ↦ record {
            cookie = 2;
            body = bytes_of 2 x;
            bytes = rw (e, f, g, i, j) refl;
            not_real = refl;
            read = λ rest. rw (read_number 2 x rest, number_of-bytes_of 2 x (ground arith)) refl;
          }
          | inr j ↦ record {
            cookie = 4;
            body = bytes_of 4 x;
            bytes = rw (e, f, g, i, j) refl;
            not_real = refl;
            read = λ rest.
                let small : x < 2 ^ 31 = ground arith in
                let same : sign_extend x ≡ x = ground arith in
                rw (read_number 4 x rest, number_of-bytes_of 4 x (omega arith), same) refl;
          }
        ]
      ]
    ]
  ]
]
