-- ===== src/Seri/Pack.antt =====
-- `pack_one` of skynet/lualib-src/lua-seri.c and the functions for tables that it calls.
pub mod Encode
pub mod Written
use skynet_notes.Prelude.{
  ℕ, zero, suc, ◌+◌, ◌-◌, ◌*◌, ◌^◌, Bool, true, false, ◌&&◌, Option, none, some, List, [], ◌∷◌,
  ◌++◌, length, ltb, leb, ◌==◌, if◌then◌else◌,
}
use skynet_notes.Seri.{
  Value, nil, boolean, integer, real, pointer, string, table, paired, other, Values, done, value,
  Pairs, finish, pair, WriteBlock, wb_init, wb_push, wb_nil, wb_boolean, wb_integer, wb_real,
  wb_pointer, wb_string, seri, combine_type, max_cookie, max_depth, is_negative,
}

-- What fails by `luaL_error` is none, and so is a length or a size that an `int` of the code does not hold.
infixl 5 ◌>>=◌
abbrev pub ◌>>=◌ : {A B : Type 0} → Option A → (A → Option B) → Option B
none >>= f = none
some a >>= f = f a

-- `lua_rawlen` of a table
abbrev pub rawlen : Values → ℕ
rawlen done = 0
rawlen (value v vs) = suc (rawlen vs)

-- The test of `wb_table_hash` for a key that the array part has.
abbrev pub in_array : ℕ → Value → Bool
in_array array_size (integer x) = if is_negative x then false else ltb 0 x && leb x array_size
in_array array_size _ = false

-- The header that `wb_table_array` writes.
unfoldable pub wb_array_size : WriteBlock → ℕ → WriteBlock
wb_array_size wb array_size =
    if leb (max_cookie - 1) array_size
    then wb_integer (wb_push wb (combine_type 6 (max_cookie - 1) ∷ [])) array_size
    else wb_push wb (combine_type 6 array_size ∷ [])

abbrev pub checked : ℕ → Option WriteBlock → Option WriteBlock
checked depth r = if ltb max_depth depth then none else r

-- `(int)` of a length, and of a size that the loop of `wb_table_array` passes by one
abbrev pub is_length : ℕ → Bool
is_length n = ltb n (2 ^ 31)

abbrev pub is_size : ℕ → Bool
is_size n = ltb n 0x7fffffff

abbrev pub guarded : Bool → Option WriteBlock → Option WriteBlock
guarded test r = if test then r else none

unfoldable mutual
  -- `pack_one`, with `wb_table` in its last case
  pub pack_one : ℕ → Value → WriteBlock → Option WriteBlock
  pack_one depth nil wb = checked depth (some (wb_nil wb))
  pack_one depth (boolean b) wb = checked depth (some (wb_boolean wb b))
  pack_one depth (integer x) wb = checked depth (some (wb_integer wb x))
  pack_one depth (real x) wb = checked depth (some (wb_real wb x))
  pack_one depth (pointer x) wb = checked depth (some (wb_pointer wb x))
  pack_one depth (string s) wb =
      checked depth (guarded (is_length (length s)) (some (wb_string wb s)))
  pack_one depth (table array entries) wb = checked depth (
      guarded (is_size (rawlen array)) (do
        wb' ← pack_array (depth + 1) array (wb_array_size wb (rawlen array))
        wb'' ← pack_hash (depth + 1) (rawlen array) entries wb'
        some (wb_nil wb'')))
  pack_one depth (paired entries) wb = checked depth (do
    wb' ← pack_pairs (depth + 1) entries (wb_push wb (combine_type 6 0 ∷ []))
    some (wb_nil wb'))
  pack_one depth other wb = none

  -- The loop of `wb_table_array`.
  pub pack_array : ℕ → Values → WriteBlock → Option WriteBlock
  pack_array depth done wb = some wb
  pack_array depth (value v vs) wb = pack_one depth v wb >>= pack_array depth vs

  -- The loop of `wb_table_hash`.
  pub pack_hash : ℕ → ℕ → Pairs → WriteBlock → Option WriteBlock
  pack_hash depth n finish wb = some wb
  pack_hash depth n (pair k v ps) wb =
      let packed = pack_one depth k wb >>= pack_one depth v in
      (if in_array n k then some wb else packed) >>= pack_hash depth n ps

  -- The loop of `wb_table_metapairs`.
  pub pack_pairs : ℕ → Pairs → WriteBlock → Option WriteBlock
  pack_pairs depth finish wb = some wb
  pack_pairs depth (pair k v ps) wb =
      (pack_one depth k wb >>= pack_one depth v) >>= pack_pairs depth ps

-- `luaseri_pack` of the values on the stack, `pack_from` being the loop: the message
unfoldable pub luaseri_pack : Values → Option (List ℕ)
unfolding pack_one pack_array pack_hash pack_pairs wb_init seri
luaseri_pack vs = do
  wb ← pack_array 0 vs wb_init
  if is_length wb.len then some (seri (wb.blocks ++ wb.current ∷ []) wb.len) else none
