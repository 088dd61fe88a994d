-- ===== src/Seri.antt =====
-- skynet/lualib-src/lua-seri.c: the blocks that it writes to and the values that it packs. Numbers are
-- stored in the byte order of the machine, which is taken to be little endian.
pub mod Blocks
pub mod Pack
pub mod Unpack
mod Tests
use skynet_notes.Prelude.{
  ℕ, zero, suc, ◌+◌, ◌-◌, ◌*◌, ◌/◌, ◌%◌, ◌^◌, Bool, true, false, Option, none, some, List, [], ◌∷◌,
  ◌++◌, length, take, drop, ltb, leb, ◌==◌, if◌then◌else◌, bit_or,
}

-- A Lua value. An integer, a double and a pointer are their 64 bits. A table is what `lua_rawgeti` gives up
-- to `lua_rawlen`, and the entries in the order of `lua_next`; a table with `__pairs` is what this iterates;
-- `other` is a value of a type that cannot be packed.
mutual
  pub data Value : Type 0 where
    nil : Value
    boolean : Bool → Value
    integer : ℕ → Value
    real : ℕ → Value
    pointer : ℕ → Value
    string : List ℕ → Value
    table : Values → Pairs → Value
    paired : Pairs → Value
    other : Value

  pub data Values : Type 0 where
    done : Values
    value : Value → Values → Values

  pub data Pairs : Type 0 where
    finish : Pairs
    pair : Value → Value → Pairs → Pairs

abbrev pub block_size : ℕ
block_size = 128

abbrev pub max_cookie : ℕ
max_cookie = 32

abbrev pub max_depth : ℕ
max_depth = 32

-- COMBINE_TYPE
abbrev pub combine_type : ℕ → ℕ → ℕ
combine_type t v = bit_or t (v * 2 ^ 3)

-- `struct write_block`: the full blocks from `head` to `current`, the first `ptr` bytes of `current`, and the
-- 32 bits of `len`, an `int`.
pub record WriteBlock : Type 0 where
  pub blocks : List (List ℕ)
  pub current : List ℕ
  pub len : ℕ

-- `wb_init`
unfoldable pub wb_init : WriteBlock
wb_init = record { blocks = []; current = []; len = 0 }

-- `_again`: the next block
abbrev pub next_block : WriteBlock → WriteBlock
next_block b = record b { blocks = b.blocks ++ b.current ∷ []; current = [] }

-- The body of `wb_push` behind the first test, with fuel for the jumps back to `_again`.
unfoldable pub wb_copy : ℕ → WriteBlock → List ℕ → WriteBlock
wb_copy zero b buf = b
wb_copy (suc fuel) b buf =
    let room = block_size - length b.current in
    let rest =
      wb_copy fuel
        (next_block
          (record b { current = b.current ++ take room buf; len = (b.len + room) % 2 ^ 32 }))
        (drop room buf) in
    if leb (length buf) room
    then record b { current = b.current ++ buf; len = (b.len + length buf) % 2 ^ 32 }
    else rest

-- `wb_push`; each jump copies a byte at least.
unfoldable pub wb_push : WriteBlock → List ℕ → WriteBlock
unfolding wb_copy
wb_push b buf =
    wb_copy (suc (length buf)) (if length b.current == block_size then next_block b else b) buf

-- The loop of `seri` over the blocks.
unfoldable pub seri : List (List ℕ) → ℕ → List ℕ
seri [] len = []
seri (b ∷ rest) len =
    let more = seri rest (len - block_size) in
    if len == 0 then [] else if leb block_size len then take block_size b ++ more else take len b

-- `n` bytes of memory that hold the number `x`, and the number that they hold
abbrev pub bytes_of : ℕ → ℕ → List ℕ
bytes_of zero x = []
bytes_of (suc n) x = (x % 256) ∷ bytes_of n (x / 256)

abbrev pub number_of : List ℕ → ℕ
number_of [] = 0
number_of (b ∷ bs) = b + 256 * number_of bs

unfoldable pub wb_nil : WriteBlock → WriteBlock
wb_nil wb = wb_push wb (0 ∷ [])

unfoldable pub wb_boolean : WriteBlock → Bool → WriteBlock
wb_boolean wb b = wb_push wb (combine_type 1 (if b then 1 else 0) ∷ [])

-- `v == (int32_t)v` and `v < 0` of 64 bits
abbrev pub is_int32 : ℕ → Bool
is_int32 v = if ltb v (2 ^ 31) then true else leb (2 ^ 64 - 2 ^ 31) v

abbrev pub is_negative : ℕ → Bool
is_negative v = leb (2 ^ 63) v

unfoldable pub wb_integer : WriteBlock → ℕ → WriteBlock
wb_integer wb v =
    if v == 0
    then wb_push wb (combine_type 2 0 ∷ [])
    else if is_int32 v
    then (if is_negative v
        then wb_push (wb_push wb (combine_type 2 4 ∷ [])) (bytes_of 4 (v % 2 ^ 32))
        else if ltb v 0x100
        then wb_push (wb_push wb (combine_type 2 1 ∷ [])) (v ∷ [])
        else if ltb v 0x10000
        then wb_push (wb_push wb (combine_type 2 2 ∷ [])) (bytes_of 2 v)
        else wb_push (wb_push wb (combine_type 2 4 ∷ [])) (bytes_of 4 v))
    else wb_push (wb_push wb (combine_type 2 6 ∷ [])) (bytes_of 8 v)

unfoldable pub wb_real : WriteBlock → ℕ → WriteBlock
wb_real wb v = wb_push (wb_push wb (combine_type 2 8 ∷ [])) (bytes_of 8 v)

unfoldable pub wb_pointer : WriteBlock → ℕ → WriteBlock
wb_pointer wb v = wb_push (wb_push wb (3 ∷ [])) (bytes_of 8 v)

-- `wb_string` of a string whose length is an `int`; `pack_one` tests it.
unfoldable pub wb_string : WriteBlock → List ℕ → WriteBlock
wb_string wb str =
    let len = length str in
    if ltb len max_cookie
    then (let wb' = wb_push wb (combine_type 4 len ∷ []) in
        if ltb 0 len then wb_push wb' str else wb')
    else if ltb len 0x10000
    then wb_push (wb_push (wb_push wb (combine_type 5 2 ∷ [])) (bytes_of 2 len)) str
    else wb_push (wb_push (wb_push wb (combine_type 5 4 ∷ [])) (bytes_of 4 (len % 2 ^ 32))) str
