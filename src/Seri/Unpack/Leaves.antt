-- ===== src/Seri/Unpack/Leaves.antt =====
-- The values of lua-seri.c that hold no other values, and the size of a table: unpacking what was packed.
use skynet_notes.Prelude.{
  ℕ, zero, suc, ◌%◌, ◌^◌, ◌≤◌, ◌<◌, ◌≡◌, refl, ◌∙◌, false, List, [], ◌∷◌, ◌++◌, length, ltb, leb,
  ◌==◌, ==_iff, Bool-cases, inl, inr, arith,
}
use skynet_notes.Seri.{Value, nil, integer, real, pointer, string, bytes_of, combine_type}
use skynet_notes.Seri.Pack.Encode.{encode_integer, encode_string, encode_size}
use skynet_notes.Seri.Unpack.{
  ok, get_qword, get_buffer, get_long_string, int_of, get_long_size, get_size, unpack_one,
  push_value,
}
use skynet_notes.Seri.Unpack.Decode.{
  number_of-bytes_of, rb_read-append, read_number, header_type, header_cookie, unpack_one-header,
  integer_parts,
}

get_buffer-append :
    (s rest : List ℕ) → length s < 2 ^ 31 → get_buffer (s ++ rest) (length s) ≡ ok (string s, rest)
unfolding get_buffer
get_buffer-append s rest h =
    let small : leb (2 ^ 31) (length s) ≡ false = ground arith in
    rw (small, rb_read-append s rest (length s) refl) refl

-- One value and the bytes that it is unpacked from.
abbrev Unpacks : ℕ → List ℕ → Value → List ℕ → Type 0
Unpacks f bytes v rest = unpack_one f (bytes ++ rest) ≡ ok (v, rest)

pub unpack-integer :
    (g x : ℕ) (rest : List ℕ)
    → x < 2 ^ 64
    → Unpacks (suc (suc g)) (encode_integer x) (integer x) rest
unfolding push_value
unpack-integer g x rest h =
    let p = integer_parts x h in
    rw (p.bytes) (
      unpack_one-header (suc g) 2 p.cookie (p.body ++ rest) (omega arith)
      ∙ rw (p.not_real, p.read rest) refl)

pub unpack-real :
    (g x : ℕ) (rest : List ℕ)
    → x < 2 ^ 64
    → Unpacks (suc (suc g)) (combine_type 2 8 ∷ bytes_of 8 x) (real x) rest
unfolding push_value get_qword
unpack-real g x rest h =
    unpack_one-header (suc g) 2 8 (bytes_of 8 x ++ rest) (omega arith)
    ∙ rw (read_number 8 x rest, number_of-bytes_of 8 x h) refl

pub unpack-pointer :
    (g x : ℕ) (rest : List ℕ)
    → x < 2 ^ 64
    → Unpacks (suc (suc g)) (3 ∷ bytes_of 8 x) (pointer x) rest
unfolding push_value get_qword
unpack-pointer g x rest h =
    unpack_one-header (suc g) 3 0 (bytes_of 8 x ++ rest) (omega arith)
    ∙ rw (read_number 8 x rest, number_of-bytes_of 8 x h) refl

pub unpack-string :
    (g : ℕ) (s rest : List ℕ)
    → length s < 2 ^ 31
    → Unpacks (suc (suc g)) (encode_string s) (string s) rest
unfolding push_value encode_string get_long_string
unpack-string g s rest h = elim (Bool-cases (ltb (length s) 32)) [
  | inl e ↦ rw e (
      unpack_one-header (suc g) 4 (length s) (s ++ rest) (omega arith) ∙ get_buffer-append s rest h)
  | inr e ↦ elim (Bool-cases (ltb (length s) 0x10000)) [
    | inl f ↦
        rw (e, f)
          (unpack_one-header (suc g) 5 2 ((bytes_of 2 (length s) ++ s) ++ rest) (omega arith)
            ∙ rw
                (
                  read_number 2 (length s) (s ++ rest),
                  number_of-bytes_of 2 (length s) (ground arith),
                  get_buffer-append s rest h,
                )
                refl)
    | inr f ↦
        let small : length s % 2 ^ 32 ≡ length s = omega arith in
        rw (e, f, small)
          (unpack_one-header (suc g) 5 4 ((bytes_of 4 (length s) ++ s) ++ rest) (omega arith)
            ∙ rw
                (
                  read_number 4 (length s) (s ++ rest),
                  number_of-bytes_of 4 (length s) (omega arith),
                  get_buffer-append s rest h,
                )
                refl)
  ]
]

pub get_size-encode :
    (n : ℕ)
    → n < 2 ^ 31
    → (c : ℕ) × (body : List ℕ) × (encode_size n ≡ combine_type 6 c ∷ body)
      × ((rest : List ℕ) → get_size (body ++ rest) c ≡ ok (n, rest))
unfolding encode_size get_size get_long_size
get_size-encode n h = elim (Bool-cases (leb 31 n)) [
  | inl e ↦
      let p = integer_parts n (omega arith) in
      let same : int_of n ≡ n = ground arith in
      (
        31,
        encode_integer n,
        rw e refl,
        λ rest.
            rw
              (
                p.bytes,
                rb_read-append (combine_type 2 p.cookie ∷ []) (p.body ++ rest) 1 refl,
                header_type 2 p.cookie (omega arith),
                header_cookie 2 p.cookie (omega arith),
                p.not_real,
                p.read rest,
                same,
              )
              refl,
      )
  | inr e ↦
      let short : (n == 31) ≡ false = ground (arith, ==_iff n 31) in
      (n, [], rw e refl, λ rest. rw short refl)
]

pub unpack-nil : (f : ℕ) (rest : List ℕ) → 2 ≤ f → unpack_one f (0 ∷ rest) ≡ ok (nil, rest)
unfolding push_value
unpack-nil zero rest h = absurd (omega arith)
unpack-nil (suc zero) rest h = absurd (omega arith)
unpack-nil (suc (suc g)) rest h = unpack_one-header (suc g) 0 0 rest (omega arith)
