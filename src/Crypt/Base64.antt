-- ===== src/Crypt/Base64.antt =====
-- `lb64encode` and `lb64decode` of skynet/lualib-src/lua-crypt.c.
pub mod RoundTrip
pub mod Ends
use skynet_notes.Prelude.{
  ℕ, zero, suc, ◌+◌, ◌-◌, ◌*◌, ◌/◌, ◌%◌, ◌^◌, ◌<◌, ◌≤◌, ◌≡◌, refl, ap, sym, ◌∙◌, Bool, true, false,
  ◌&&◌, ◌||◌, Option, none, some, List, [], ◌∷◌, ◌++◌, ltb, leb, ◌==◌, ==_iff, if◌then◌else◌,
  length, get_or, bit_and, bit_or, arith, all_below-at,
}
use skynet_notes.Prelude.Bits.{bit_or-shifted, bit_and-low_ones}
use skynet_notes.Crypt.{AllBytes, ◌>>=◌}

-- `encoding`: A-Z, a-z, 0-9, + and /
unfoldable pub encoding : ℕ → ℕ
encoding v =
    if ltb v 26
    then 65 + v
    else if ltb v 52
    then 71 + v
    else if ltb v 62
    then v - 4
    else if v == 62
    then 43
    else 47

-- The loop of `lb64encode`: three bytes at a time, and what is left of them
unfoldable pub encode_loop : List ℕ → List ℕ
unfolding encoding
encode_loop [] = []
encode_loop (a ∷ []) = encoding (a / 2 ^ 2) ∷ encoding (bit_and a 3 * 2 ^ 4) ∷ 61 ∷ 61 ∷ []
encode_loop (a ∷ b ∷ []) =
    let v = bit_or (a * 2 ^ 8) b in
    encoding (v / 2 ^ 10)
    ∷ encoding (bit_and (v / 2 ^ 4) 0x3f)
    ∷ encoding (bit_and v 0xf * 2 ^ 2)
    ∷ 61
    ∷ []
encode_loop (a ∷ b ∷ c ∷ text) =
    let v = bit_or (bit_or (a * 2 ^ 16) (b * 2 ^ 8)) c in
    encoding (v / 2 ^ 18)
    ∷ encoding (bit_and (v / 2 ^ 12) 0x3f)
    ∷ encoding (bit_and (v / 2 ^ 6) 0x3f)
    ∷ encoding (bit_and v 0x3f)
    ∷ encode_loop text

-- `lb64encode`; none where `encode_sz` is not an int.
unfoldable pub b64encode : List ℕ → Option (List ℕ)
unfolding encode_loop
b64encode text = if ltb ((length text + 2) / 3 * 4) (2 ^ 31) then some (encode_loop text) else none

-- What `b64index` returns: an index, -2 for the padding, -1 for any other character.
pub data Index : Type 0 where
  index : ℕ → Index
  padding : Index
  other : Index

unfoldable pub b64index : ℕ → Index
b64index c =
    if c == 43
    then index 62
    else if c == 47
    then index 63
    else if leb 48 c && leb c 57
    then index (c + 4)
    else if c == 61
    then padding
    else if leb 65 c && leb c 90
    then index (c - 65)
    else if leb 97 c && leb c 122
    then index (c - 71)
    else other

-- One round of the inner loop of `lb64decode`, given what comes of the rest with `i` skipped or taken.
abbrev pub gathered :
    Index
    → Option (List Index × List ℕ)
    → Option (List Index × List ℕ)
    → Option (List Index × List ℕ)
gathered other skipped taken = skipped
gathered (index v) skipped taken = do r ← taken; some (index v ∷ r.0, r.1)
gathered padding skipped taken = do r ← taken; some (padding ∷ r.0, r.1)

-- The inner loop of `lb64decode`: the next `j` characters that are not skipped, and what follows them
unfoldable pub gather : ℕ → List ℕ → Option (List Index × List ℕ)
gather zero text = some ([], text)
gather (suc j) [] = none
gather (suc j) (c ∷ text) =
    let skipped = gather (suc j) text in
    let taken = gather j text in gathered (b64index c) skipped taken

-- The switch on the number of paddings.
unfoldable pub bytes_of_group : List Index → Option (List ℕ)
bytes_of_group (index c0 ∷ index c1 ∷ index c2 ∷ index c3 ∷ []) =
    let v = bit_or (bit_or (bit_or (c0 * 2 ^ 18) (c1 * 2 ^ 12)) (c2 * 2 ^ 6)) c3 in
    some (v / 2 ^ 16 % 256 ∷ bit_and (v / 2 ^ 8) 0xff ∷ bit_and v 0xff ∷ [])
bytes_of_group (index c0 ∷ index c1 ∷ index c2 ∷ padding ∷ []) =
    let v = bit_or (bit_or (c0 * 2 ^ 10) (c1 * 2 ^ 4)) (c2 / 2 ^ 2) in
    if bit_and c2 3 == 0 then some (v / 2 ^ 8 % 256 ∷ bit_and v 0xff ∷ []) else none
bytes_of_group (index c0 ∷ index c1 ∷ padding ∷ padding ∷ []) =
    let v = bit_or (c0 * 2 ^ 2) (c1 / 2 ^ 4) in
    if bit_and c1 0xf == 0 then some (v % 256 ∷ []) else none
bytes_of_group _ = none

-- The outer loop of `lb64decode`, on fuel; a round takes four characters at least.
unfoldable pub decode_loop : ℕ → List ℕ → Option (List ℕ)
unfolding gather bytes_of_group
decode_loop zero text = none
decode_loop (suc fuel) [] = some []
decode_loop (suc fuel) (c ∷ text) = do
  r ← gather 4 (c ∷ text)
  bytes ← bytes_of_group r.0
  more ← decode_loop fuel r.1
  some (bytes ++ more)

unfoldable pub b64decode : List ℕ → Option (List ℕ)
unfolding decode_loop
b64decode text = decode_loop (suc (length text)) text
