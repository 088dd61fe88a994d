-- ===== src/Crypt/Hex.antt =====
-- `ltohex` and `lfromhex` of skynet/lualib-src/lua-crypt.c.
use skynet_notes.Prelude.{
  ℕ, ◌+◌, ◌-◌, ◌*◌, ◌/◌, ◌%◌, ◌^◌, ◌<◌, ◌≡◌, refl, true, false, ◌&&◌, ◌||◌, Option, none, some,
  List, [], ◌∷◌, ==_iff, ltb, leb, ◌==◌, if◌then◌else◌, length, all_below-at, get_or, bit_or, arith,
}
use skynet_notes.Prelude.Bits.{bit_or-shifted}
use skynet_notes.Crypt.{AllBytes, ◌>>=◌}

-- "0123456789abcdef"
abbrev hex : List ℕ
hex = 48 ∷ 49 ∷ 50 ∷ 51 ∷ 52 ∷ 53 ∷ 54 ∷ 55 ∷ 56 ∷ 57 ∷ 97 ∷ 98 ∷ 99 ∷ 100 ∷ 101 ∷ 102 ∷ []

-- The loop of `ltohex`.
unfoldable pub tohex_loop : List ℕ → List ℕ
tohex_loop [] = []
tohex_loop (c ∷ text) = get_or hex (c / 2 ^ 4) 0 ∷ get_or hex (c % 16) 0 ∷ tohex_loop text

-- `ltohex`; none where the index `i*2` of the last round is not an int.
unfoldable pub tohex : List ℕ → Option (List ℕ)
unfolding tohex_loop
tohex text = if leb (length text) (2 ^ 30) then some (tohex_loop text) else none

-- HEX, with the result as a `uint8_t`. A byte of 128 or more is a negative `char` there, and no digit.
unfoldable pub hex_value : ℕ → ℕ
hex_value c = if leb 48 c && leb c 57 then c - 48 else (c + 256 - 97 + 10) % 256

-- The loop of `lfromhex`.
unfoldable pub fromhex_loop : List ℕ → Option (List ℕ)
unfolding hex_value
fromhex_loop [] = some []
fromhex_loop (c ∷ []) = none
fromhex_loop (c ∷ d ∷ text) =
    let hi = hex_value c in
    let low = hex_value d in
    let rest = fromhex_loop text in
    if ltb 16 hi || ltb 16 low
    then none
    else (do bytes ← rest; some (bit_or (hi * 2 ^ 4) low % 256 ∷ bytes))

unfoldable pub fromhex : List ℕ → Option (List ℕ)
unfolding fromhex_loop
fromhex text = if length text % 2 == 1 then none else fromhex_loop text

hex_value-hex : (d : ℕ) → d < 16 → hex_value (get_or hex d 0) ≡ d
unfolding hex_value
hex_value-hex d h =
    (==_iff (hex_value (get_or hex d 0)) d).0
      (all_below-at 16 (λ i. hex_value (get_or hex i 0) == i) d refl h)

even_length : (text : List ℕ) → length (tohex_loop text) % 2 ≡ 0
unfolding tohex_loop
even_length [] = refl
even_length (c ∷ text) = omega (arith, even_length text)

fromhex_loop-tohex : (text : List ℕ) → AllBytes text → fromhex_loop (tohex_loop text) ≡ some text
unfolding fromhex_loop tohex_loop
fromhex_loop-tohex [] h = refl
fromhex_loop-tohex (c ∷ text) h =
    let hi = hex_value-hex (c / 2 ^ 4) (omega (arith, h.0)) in
    let low = hex_value-hex (c % 16) (omega arith) in
    let small : ltb 16 (c / 2 ^ 4) ≡ false = ground (arith, h.0) in
    let small' : ltb 16 (c % 16) ≡ false = ground arith in
    let byte : bit_or (c / 2 ^ 4 * 2 ^ 4) (c % 16) % 256 ≡ c =
      omega (arith, h.0, bit_or-shifted 4 (c / 2 ^ 4) (c % 16) (omega arith)) in
    rw (hi, low, small, small', fromhex_loop-tohex text h.1, byte) refl

-- A string of less than 2 ^ 30 bytes has a hexadecimal text, and `lfromhex` makes the string of it. (From 2 ^ 30 on
-- the int that counts through the text does not reach its end.)
pub fromhex-tohex :
    (text : List ℕ)
    → AllBytes text
    → length text < 2 ^ 30
    → (digits : List ℕ) × (tohex text ≡ some digits) × (fromhex digits ≡ some text)
unfolding fromhex tohex
fromhex-tohex text h b =
    let fits : leb (length text) (2 ^ 30) ≡ true = ground (arith, b) in
    (tohex_loop text, rw fits refl, rw (even_length text) (fromhex_loop-tohex text h))
