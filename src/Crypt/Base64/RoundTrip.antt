-- ===== src/Crypt/Base64/RoundTrip.antt =====
-- What `lb64decode` makes of the text that `lb64encode` writes.
use skynet_notes.Prelude.{
  ℕ, zero, suc, ◌+◌, ◌*◌, ◌/◌, ◌%◌, ◌^◌, ◌<◌, ◌≤◌, ◌≡◌, refl, ap, Bool, true, false, some, List, [],
  ◌∷◌, ◌++◌, ltb, ltb_iff, ◌==◌, ==_iff, length, bit_and, bit_or, arith, all_below-at,
}
use skynet_notes.Prelude.Bits.{bit_or-shifted, bit_and-low_ones, meet}
use skynet_notes.Crypt.{AllBytes}
use skynet_notes.Crypt.Base64.{
  encoding, encode_loop, b64encode, Index, index, padding, other, b64index, gather, bytes_of_group,
  decode_loop, b64decode,
}

is_index : Index → ℕ → Bool
is_index (index w) v = w == v
is_index padding v = false
is_index other v = false

is_index-index : (i : Index) (v : ℕ) → is_index i v ≡ true → i ≡ index v
unfolding is_index
is_index-index (index w) v e = ap index ((==_iff w v).0 e)
is_index-index padding v e = absurd (ground (arith, e))
is_index-index other v e = absurd (ground (arith, e))

b64index-encoding : (v : ℕ) → v < 64 → b64index (encoding v) ≡ index v
unfolding is_index b64index encoding
b64index-encoding v h =
    is_index-index (b64index (encoding v)) v
      (all_below-at 64 (λ i. is_index (b64index (encoding i)) i) v refl h)

gather_index :
    (j v : ℕ) (text : List ℕ) (is : List Index) (rest : List ℕ)
    → v < 64
    → gather j text ≡ some (is, rest)
    → gather (suc j) (encoding v ∷ text) ≡ some (index v ∷ is, rest)
unfolding gather
gather_index j v text is rest h e = rw (b64index-encoding v h, e) refl

gather_padding :
    (j : ℕ) (text : List ℕ) (is : List Index) (rest : List ℕ)
    → gather j text ≡ some (is, rest)
    → gather (suc j) (61 ∷ text) ≡ some (padding ∷ is, rest)
unfolding gather b64index
gather_padding j text is rest e = rw e refl

gather_zero : (rest : List ℕ) → gather 0 rest ≡ some ([], rest)
unfolding gather
gather_zero rest = refl

three_bytes :
    (a b c : ℕ)
    → b < 256
    → c < 256
    → bit_or (bit_or (a * 2 ^ 16) (b * 2 ^ 8)) c ≡ a * 65536 + b * 256 + c
three_bytes a b c hb hc =
    rw (bit_or-shifted 16 a (b * 2 ^ 8) (omega (arith, hb)))
      (meet 8 (a * 2 ^ 16 + b * 2 ^ 8) c (omega arith) (omega arith) hc)

two_bytes : (a b : ℕ) → b < 256 → bit_or (a * 2 ^ 8) b ≡ a * 256 + b
two_bytes a b hb = bit_or-shifted 8 a b hb

low_bits :
    (v : ℕ)
    → (bit_and v 0x3f ≡ v % 64)
      × (bit_and v 0xf ≡ v % 16)
      × (bit_and v 3 ≡ v % 4)
      × (bit_and v 0xff ≡ v % 256)
low_bits v =
    (bit_and-low_ones 6 v, bit_and-low_ones 4 v, bit_and-low_ones 2 v, bit_and-low_ones 8 v)

four_indices :
    (p q r s : ℕ)
    → q < 64
    → r < 64
    → s < 64
    → bit_or (bit_or (bit_or (p * 2 ^ 18) (q * 2 ^ 12)) (r * 2 ^ 6)) s
      ≡ p * 262144 + q * 4096 + r * 64 + s
four_indices p q r s hq hr hs =
    rw
      (
        bit_or-shifted 18 p (q * 2 ^ 12) (omega (arith, hq)),
        meet 12 (p * 2 ^ 18 + q * 2 ^ 12) (r * 2 ^ 6) (omega arith) (omega arith) (omega arith),
      )
      (meet 6 (p * 2 ^ 18 + q * 2 ^ 12 + r * 2 ^ 6) s (omega arith) (omega arith) hs)

bytes_of_four :
    (a b c : ℕ)
    → a < 256
    → b < 256
    → c < 256
    → bytes_of_group (
        index (a / 4)
        ∷ index (a % 4 * 16 + b / 16)
        ∷ index (b % 16 * 4 + c / 64)
        ∷ index (c % 64)
        ∷ [])
      ≡ some (a ∷ b ∷ c ∷ [])
unfolding bytes_of_group
bytes_of_four a b c ha hb hc =
    let p = a / 4 in
    let q = a % 4 * 16 + b / 16 in
    let r = b % 16 * 4 + c / 64 in
    let s = c % 64 in
    let v = bit_or (bit_or (bit_or (p * 2 ^ 18) (q * 2 ^ 12)) (r * 2 ^ 6)) s in
    let e : v ≡ a * 65536 + b * 256 + c =
      omega (arith, four_indices p q r s (omega arith) (omega arith) (omega arith)) in
    let e1 : v / 2 ^ 16 % 256 ≡ a = omega arith in
    let e2 : bit_and (v / 2 ^ 8) 0xff ≡ b = omega (arith, low_bits (v / 2 ^ 8)) in
    let e3 : bit_and v 0xff ≡ c = omega (arith, low_bits v) in rw (e1, e2, e3) refl

bytes_of_three :
    (a b : ℕ)
    → a < 256
    → b < 256
    → bytes_of_group
        (index (a / 4) ∷ index (a % 4 * 16 + b / 16) ∷ index (b % 16 * 4) ∷ padding ∷ [])
      ≡ some (a ∷ b ∷ [])
unfolding bytes_of_group
bytes_of_three a b ha hb =
    let p = a / 4 in
    let q = a % 4 * 16 + b / 16 in
    let r = b % 16 * 4 in
    let v = bit_or (bit_or (p * 2 ^ 10) (q * 2 ^ 4)) (r / 2 ^ 2) in
    let sum : v ≡ p * 2 ^ 10 + q * 2 ^ 4 + r / 2 ^ 2 =
      rw (bit_or-shifted 10 p (q * 2 ^ 4) (omega arith))
        (meet 4 (p * 2 ^ 10 + q * 2 ^ 4) (r / 2 ^ 2) (omega arith) (omega arith) (omega arith)) in
    let test : (bit_and r 3 == 0) ≡ true = (==_iff (bit_and r 3) 0).1 (omega (arith, low_bits r)) in
    let e1 : v / 2 ^ 8 % 256 ≡ a = omega arith in
    let e2 : bit_and v 0xff ≡ b = omega (arith, low_bits v) in rw (test, e1, e2) refl

bytes_of_two :
    (a : ℕ)
    → a < 256
    → bytes_of_group (index (a / 4) ∷ index (a % 4 * 16) ∷ padding ∷ padding ∷ []) ≡ some (a ∷ [])
unfolding bytes_of_group
bytes_of_two a ha =
    let v = bit_or (a / 4 * 2 ^ 2) (a % 4 * 16 / 2 ^ 4) in
    let test : (bit_and (a % 4 * 16) 0xf == 0) ≡ true =
      (==_iff (bit_and (a % 4 * 16) 0xf) 0).1 (omega (arith, low_bits (a % 4 * 16))) in
    let e1 : v % 256 ≡ a =
      omega (arith, bit_or-shifted 2 (a / 4) (a % 4 * 16 / 2 ^ 4) (omega arith)) in
    rw (test, e1) refl

decode_round :
    (fuel c : ℕ) (text rest : List ℕ) (is : List Index) (bytes more : List ℕ)
    → gather 4 (c ∷ text) ≡ some (is, rest)
    → bytes_of_group is ≡ some bytes
    → decode_loop fuel rest ≡ some more
    → decode_loop (suc fuel) (c ∷ text) ≡ some (bytes ++ more)
unfolding decode_loop
decode_round fuel c text rest is bytes more e b m = rw (e, b, m) refl

-- Every rest of one, two or three bytes comes back in one round.
decode_three :
    (a b c : ℕ) (fuel : ℕ) (rest more : List ℕ)
    → a < 256
    → b < 256
    → c < 256
    → decode_loop fuel rest ≡ some more
    → decode_loop (suc fuel) (
        encoding (a / 4)
        ∷ encoding (a % 4 * 16 + b / 16)
        ∷ encoding (b % 16 * 4 + c / 64)
        ∷ encoding (c % 64)
        ∷ rest)
      ≡ some (a ∷ b ∷ c ∷ more)
decode_three a b c fuel rest more ha hb hc e =
    decode_round fuel _ _ rest _ (a ∷ b ∷ c ∷ []) more
      (gather_index 3 (a / 4) _ _ rest (omega arith) (
        gather_index 2 (a % 4 * 16 + b / 16) _ _ rest (omega arith) (
          gather_index 1 (b % 16 * 4 + c / 64) _ _ rest (omega arith)
            (gather_index 0 (c % 64) rest [] rest (omega arith) (gather_zero rest)))))
      (bytes_of_four a b c ha hb hc) e

decode_nil : (fuel : ℕ) → decode_loop (suc fuel) [] ≡ some []
unfolding decode_loop
decode_nil fuel = refl

decode_two :
    (a b fuel : ℕ)
    → a < 256
    → b < 256
    → decode_loop
        (suc (suc fuel))
        (encoding (a / 4) ∷ encoding (a % 4 * 16 + b / 16) ∷ encoding (b % 16 * 4) ∷ 61 ∷ [])
      ≡ some (a ∷ b ∷ [])
decode_two a b fuel ha hb =
    decode_round (suc fuel) _ _ [] _ (a ∷ b ∷ []) []
      (gather_index 3 (a / 4) _ _ [] (omega arith) (
        gather_index 2 (a % 4 * 16 + b / 16) _ _ [] (omega arith) (
          gather_index 1 (b % 16 * 4) _ _ [] (omega arith)
            (gather_padding 0 [] [] [] (gather_zero [])))))
      (bytes_of_three a b ha hb) (decode_nil fuel)

decode_one :
    (a fuel : ℕ)
    → a < 256
    → decode_loop (suc (suc fuel)) (encoding (a / 4) ∷ encoding (a % 4 * 16) ∷ 61 ∷ 61 ∷ [])
      ≡ some (a ∷ [])
decode_one a fuel ha =
    decode_round (suc fuel) _ _ [] _ (a ∷ []) []
      (gather_index 3 (a / 4) _ _ [] (omega arith) (
        gather_index 2 (a % 4 * 16) _ _ [] (omega arith)
          (gather_padding 1 _ _ [] (gather_padding 0 [] [] [] (gather_zero [])))))
      (bytes_of_two a ha) (decode_nil fuel)

-- The indices that `lb64encode` computes from three bytes, and from two.
indices_of_three :
    (a b c : ℕ)
    → b < 256
    → c < 256
    → let v = bit_or (bit_or (a * 2 ^ 16) (b * 2 ^ 8)) c in
      (v / 2 ^ 18 ≡ a / 4)
      × (bit_and (v / 2 ^ 12) 0x3f ≡ a % 4 * 16 + b / 16)
      × (bit_and (v / 2 ^ 6) 0x3f ≡ b % 16 * 4 + c / 64)
      × (bit_and v 0x3f ≡ c % 64)
indices_of_three a b c hb hc =
    let v = bit_or (bit_or (a * 2 ^ 16) (b * 2 ^ 8)) c in
    let e = three_bytes a b c hb hc in
    (
      omega (arith, e),
      omega (arith, e, low_bits (v / 2 ^ 12)),
      omega (arith, e, low_bits (v / 2 ^ 6)),
      omega (arith, e, low_bits v),
    )

indices_of_two :
    (a b : ℕ)
    → b < 256
    → let v = bit_or (a * 2 ^ 8) b in
      (v / 2 ^ 10 ≡ a / 4)
      × (bit_and (v / 2 ^ 4) 0x3f ≡ a % 4 * 16 + b / 16)
      × (bit_and v 0xf * 2 ^ 2 ≡ b % 16 * 4)
indices_of_two a b hb =
    let v = bit_or (a * 2 ^ 8) b in
    let e = two_bytes a b hb in
    (omega (arith, e), omega (arith, e, low_bits (v / 2 ^ 4)), omega (arith, e, low_bits v))

decode-encode :
    (text : List ℕ) (fuel : ℕ)
    → AllBytes text
    → length text < fuel
    → decode_loop fuel (encode_loop text) ≡ some text
unfolding encode_loop
decode-encode text zero h f = absurd (omega arith)
decode-encode [] (suc fuel) h f = decode_nil fuel
decode-encode (a ∷ []) (suc zero) h f = absurd (omega arith)
decode-encode (a ∷ []) (suc (suc fuel)) h f =
    let e : bit_and a 3 * 2 ^ 4 ≡ a % 4 * 16 = omega (arith, low_bits a) in
    rw e (decode_one a fuel h.0)
decode-encode (a ∷ b ∷ []) (suc zero) h f = absurd (omega arith)
decode-encode (a ∷ b ∷ []) (suc (suc fuel)) h f =
    let (ha, (hb, _)) = h in
    let (i, j, k) = indices_of_two a b hb in rw (i, j, k) (decode_two a b fuel ha hb)
decode-encode (a ∷ b ∷ c ∷ text) (suc fuel) h f =
    let (ha, (hb, (hc, bytes))) = h in
    let (i, j, k, l) = indices_of_three a b c hb hc in
    rw (i, j, k, l)
      (decode_three a b c fuel (encode_loop text) text ha hb hc
        (decode-encode text fuel bytes (omega arith)))

length-encode : (text : List ℕ) → length text ≤ length (encode_loop text)
unfolding encode_loop
length-encode [] = omega arith
length-encode (a ∷ []) = omega arith
length-encode (a ∷ b ∷ []) = omega arith
length-encode (a ∷ b ∷ c ∷ text) = omega (arith, length-encode text)

-- A string of less than 1610612734 bytes has a base64 text, and `lb64decode` makes the string of it. (The size of a
-- longer string's text is not an int.)
pub b64decode-b64encode :
    (text : List ℕ)
    → AllBytes text
    → length text < 1610612734
    → (code : List ℕ) × (b64encode text ≡ some code) × (b64decode code ≡ some text)
unfolding b64decode b64encode
b64decode-b64encode text h b =
    let fits : ltb ((length text + 2) / 3 * 4) (2 ^ 31) ≡ true =
      (ltb_iff ((length text + 2) / 3 * 4) (2 ^ 31)).1 (omega (arith, b)) in
    (
      encode_loop text,
      rw fits refl,
      decode-encode text (suc (length (encode_loop text))) h (omega (arith, length-encode text)),
    )
