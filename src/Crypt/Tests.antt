-- ===== src/Crypt/Tests.antt =====
-- The codecs and the key exchange of skynet/lualib-src/lua-crypt.c at concrete inputs.
use skynet_notes.Prelude.{ℕ, ◌*◌, ◌-◌, ◌<◌, ◌≡◌, refl, some, List, [], ◌∷◌, ◌^◌, ◌%◌, arith}
use skynet_notes.Crypt.{AllBytes}
use skynet_notes.Crypt.Hex.{tohex, fromhex, hex_value, fromhex_loop, fromhex-tohex}
use skynet_notes.Crypt.Base64.{encode_loop, b64encode, b64decode, decode_loop}
use skynet_notes.Crypt.Base64.RoundTrip.{b64decode-b64encode}
use skynet_notes.Crypt.Base64.Ends.{decode_loop_enough}
use skynet_notes.Crypt.Dh.{prime, mul_mod_p, powmodp, number_of_key, dhsecret, dhexchange}
use skynet_notes.Crypt.Dh.Product.{mul_mod_p_lem}
use skynet_notes.Crypt.Dh.Power.{powmodp_lem}
use skynet_notes.Crypt.Dh.Exchange.{dhsecret-agree}

abbrev bytes : List ℕ
bytes = 0 ∷ 255 ∷ 77 ∷ 97 ∷ []

bytes-AllBytes : AllBytes bytes
bytes-AllBytes = (omega arith, (omega arith, (omega arith, (omega arith, tt))))

fromhex-tohex_example :
    (digits : List ℕ) × (tohex bytes ≡ some digits) × (fromhex digits ≡ some bytes)
fromhex-tohex_example = fromhex-tohex bytes bytes-AllBytes (omega arith)

-- "0g" is taken for a byte: `lfromhex` refuses a digit above 16 only.
letter_g : fromhex (48 ∷ 103 ∷ []) ≡ some (16 ∷ [])
unfolding fromhex fromhex_loop hex_value
letter_g = refl

b64decode-b64encode_example :
    (code : List ℕ) × (b64encode bytes ≡ some code) × (b64decode code ≡ some bytes)
b64decode-b64encode_example = b64decode-b64encode bytes bytes-AllBytes (omega arith)

decode_loop_enough_example : decode_loop 9 (encode_loop bytes) ≡ b64decode (encode_loop bytes)
unfolding encode_loop
decode_loop_enough_example = decode_loop_enough (encode_loop bytes) 9 (omega arith)

mul_mod_p_lem_example : mul_mod_p (2 ^ 63) 6 ≡ 2 ^ 63 * 6 % prime
mul_mod_p_lem_example = mul_mod_p_lem (2 ^ 63) 6 (omega arith) (omega arith)

powmodp_lem_example : powmodp (2 ^ 64 - 1) 3 ≡ some ((2 ^ 64 - 1) ^ 3 % prime)
powmodp_lem_example =
    powmodp_lem (2 ^ 64 - 1) 3 (omega arith) (λ e. absurd (omega (arith, e))) (omega arith)
      (omega arith)

abbrev alice : List ℕ
alice = 3 ∷ 0 ∷ 0 ∷ 0 ∷ 0 ∷ 0 ∷ 0 ∷ 128 ∷ []

abbrev bob : List ℕ
bob = 250 ∷ 17 ∷ 0 ∷ 0 ∷ 1 ∷ 0 ∷ 0 ∷ 0 ∷ []

low : 0 < 256
low = omega arith

alice-AllBytes : AllBytes alice
alice-AllBytes = (omega arith, (low, (low, (low, (low, (low, (low, (omega arith, tt))))))))

bob-AllBytes : AllBytes bob
bob-AllBytes = (omega arith, (omega arith, (low, (low, (omega arith, (low, (low, (low, tt))))))))

alice_key : number_of_key alice ≡ some 9223372036854775811
unfolding number_of_key
alice_key = refl

bob_key : number_of_key bob ≡ some 4294971898
unfolding number_of_key
bob_key = refl

dhsecret-agree_example :
    (x' : List ℕ) × (y' : List ℕ) × (s : List ℕ) × (dhexchange alice ≡ some x')
    × (dhexchange bob ≡ some y')
    × (dhsecret x' bob ≡ some s)
    × (dhsecret y' alice ≡ some s)
dhsecret-agree_example =
    dhsecret-agree alice bob 9223372036854775811 4294971898 alice-AllBytes bob-AllBytes alice_key
      bob_key (omega arith) (omega arith)
