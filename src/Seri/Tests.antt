-- ===== src/Seri/Tests.antt =====
-- Packing and unpacking at a concrete input.
use skynet_notes.Prelude.{
  ℕ, List, [], ◌∷◌, ◌≡◌, ◌≢◌, refl, ap, some, true, arith, length, ◌+◌, ◌^◌, ◌≤◌, ◌<◌,
}
use skynet_notes.Seri.{boolean, integer, string, table, Values, done, value, finish, pair}
use skynet_notes.Seri.Blocks.{content, wb_init-IsBlocks, Wrote, wb_push_lem}
use skynet_notes.Seri.{wb_init, wb_push}
use skynet_notes.Seri.Pack.{luaseri_pack}
use skynet_notes.Seri.Pack.Encode.{
  AllCanPack, encode, encode_all, encode_hash, encode_size, encode_integer, encode_string,
}
use skynet_notes.Seri.Unpack.{ok, no_fuel, luaseri_unpack}
use skynet_notes.Seri.Unpack.Costs.{AllLua, plain_all}
use skynet_notes.Seri.Unpack.RoundTrip.{luaseri_unpack-pack}
use skynet_notes.Seri.Pack.Written.{luaseri_pack_lem}
use skynet_notes.Seri.Unpack.Ends.{luaseri_unpack_ends}

-- {[1] = 70000, [2] = "ab", x = -1} whose `lua_next` comes to the array part as well, and true
abbrev message : Values
message =
    value
      (table (value (integer 70000) (value (string (97 ∷ 98 ∷ [])) done)) (
        pair (integer 1) (integer 70000) (
          pair (integer 2) (string (97 ∷ 98 ∷ []))
            (pair (string (120 ∷ [])) (integer 18446744073709551615) finish))))
      (value (boolean true) done)

in_range : (0 ≤ 32) × (1 ≤ 32)
in_range = (omega arith, omega arith)

small : 2 < 2147483648
small = omega arith

few : 2 < 0x7fffffff
few = omega arith

one : 1 < 2147483648
one = omega arith

message-AllCanPack : AllCanPack 0 message
message-AllCanPack = (
  (
    in_range.0,
    few,
    (in_range.1, ((in_range.1, small), tt)),
    (tt, (tt, (((in_range.1, one), in_range.1), tt))),
  ),
  (in_range.0, tt),
)

fits : (1 < 18446744073709551616) × (2 < 18446744073709551616) × (70000 < 18446744073709551616)
fits = (omega arith, omega arith, omega arith)

last : 18446744073709551615 < 18446744073709551616
last = omega arith

message-AllLua : AllLua message
message-AllLua = (
  (
    small,
    (fits.2, (small, tt)),
    (refl, refl, fits.0, fits.2, (refl, refl, fits.1, small, (refl, refl, one, last, tt))),
  ),
  (tt, tt),
)

message_size : length (encode_all message) < 2 ^ 31
unfolding encode encode_all encode_hash encode_size encode_integer encode_string
message_size = omega arith

luaseri_unpack-pack_example :
    (bytes : List ℕ) × (luaseri_pack message ≡ some bytes)
    × (luaseri_unpack bytes ≡ ok (plain_all message))
luaseri_unpack-pack_example =
    luaseri_unpack-pack message message-AllCanPack message-AllLua message_size

luaseri_pack_lem_example : luaseri_pack message ≡ some (encode_all message)
luaseri_pack_lem_example = luaseri_pack_lem message message-AllCanPack message_size

-- A table header that promises five entries, and nothing behind it.
luaseri_unpack_ends_example : luaseri_unpack (46 ∷ []) ≢ no_fuel
luaseri_unpack_ends_example = luaseri_unpack_ends (46 ∷ [])

-- Three bytes at the start of a fresh chain of blocks.
init_empty : content wb_init ≡ []
unfolding wb_init
init_empty = refl

wb_push_lem_example :
    Wrote wb_init (1 ∷ 2 ∷ 3 ∷ []) (wb_push wb_init (1 ∷ 2 ∷ 3 ∷ []))
    × ((wb_push wb_init (1 ∷ 2 ∷ 3 ∷ [])).len ≡ length (content wb_init) + 3)
wb_push_lem_example =
    wb_push_lem wb_init (1 ∷ 2 ∷ 3 ∷ []) wb_init-IsBlocks (omega (arith, ap length init_empty))
