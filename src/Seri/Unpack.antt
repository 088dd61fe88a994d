-- ===== src/Seri/Unpack.antt =====
-- `luaseri_unpack` of skynet/lualib-src/lua-seri.c. A `read_block` is the bytes that are left of it.
pub mod Costs
pub mod Decode
pub mod Leaves
pub mod RoundTrip
pub mod Ends
use skynet_notes.Prelude.{
  ℕ, zero, suc, ◌+◌, ◌-◌, ◌*◌, ◌/◌, ◌%◌, ◌^◌, Bool, true, false, List, [], ◌∷◌, ◌++◌, length, take,
  drop, ltb, leb, ◌==◌, if◌then◌else◌, bit_and,
}
use skynet_notes.Seri.{
  Value, nil, boolean, integer, real, pointer, string, table, paired, other, Values, done, value,
  Pairs, finish, pair, number_of, max_cookie, is_negative,
}

-- `invalid` is the error that the code raises; `fault` is a negative length that it hands to Lua;
-- `no_fuel` is a model that has stopped too early.
pub data Result (A : Type 0) : Type 0 where
  ok : A → Result A
  invalid : Result A
  fault : Result A
  no_fuel : Result A

infixl 5 ◌>>=◌
abbrev pub ◌>>=◌ : {A B : Type 0} → Result A → (A → Result B) → Result B
ok a >>= f = f a
invalid >>= f = invalid
fault >>= f = fault
no_fuel >>= f = no_fuel

-- `rb_read`: the bytes read, where the code has a pointer to them
unfoldable pub rb_read : List ℕ → ℕ → Result (List ℕ × List ℕ)
rb_read rb sz = if ltb (length rb) sz then invalid else ok (take sz rb, drop sz rb)

-- An `int32_t` as a `lua_Integer`.
abbrev pub sign_extend : ℕ → ℕ
sign_extend n = if ltb n (2 ^ 31) then n else n + (2 ^ 64 - 2 ^ 32)

unfoldable pub get_integer : List ℕ → ℕ → Result (ℕ × List ℕ)
unfolding rb_read
get_integer rb cookie =
    if cookie == 0
    then ok (0, rb)
    else if cookie == 1
    then (do r ← rb_read rb 1; ok (number_of r.0, r.1))
    else if cookie == 2
    then (do r ← rb_read rb 2; ok (number_of r.0, r.1))
    else if cookie == 4
    then (do r ← rb_read rb 4; ok (sign_extend (number_of r.0), r.1))
    else if cookie == 6
    then (do r ← rb_read rb 8; ok (number_of r.0, r.1))
    else invalid

-- `get_real` and `get_pointer`, which read eight bytes
unfoldable pub get_qword : List ℕ → Result (ℕ × List ℕ)
unfolding rb_read
get_qword rb = do r ← rb_read rb 8; ok (number_of r.0, r.1)

-- `get_buffer`; its parameter `len` is an `int`, and a negative one passes the test of `rb_read`.
unfoldable pub get_buffer : List ℕ → ℕ → Result (Value × List ℕ)
unfolding rb_read
get_buffer rb len =
    if leb (2 ^ 31) len then fault else (do r ← rb_read rb len; ok (string r.0, r.1))

-- The case of TYPE_LONG_STRING in `push_value`.
unfoldable pub get_long_string : List ℕ → ℕ → Result (Value × List ℕ)
unfolding rb_read get_buffer
get_long_string rb cookie =
    if cookie == 2
    then (do r ← rb_read rb 2; get_buffer r.1 (number_of r.0))
    else if cookie == 4
    then (do r ← rb_read rb 4; get_buffer r.1 (number_of r.0))
    else invalid

-- An integer as an `int`, where a negative one counts as 0: a loop up to it makes no round.
abbrev pub int_of : ℕ → ℕ
int_of n = if leb (2 ^ 31) (n % 2 ^ 32) then 0 else n % 2 ^ 32

abbrev pub not_a_size : ℕ → ℕ → Bool
not_a_size type cookie = if type == 2 then cookie == 8 else true

-- The size behind the type byte `type`.
unfoldable pub get_long_size : List ℕ → ℕ → Result (ℕ × List ℕ)
unfolding get_integer
get_long_size rb type =
    if not_a_size (bit_and type 7) (type / 2 ^ 3)
    then invalid
    else (do n ← get_integer rb (type / 2 ^ 3); ok (int_of n.0, n.1))

-- The size at the start of `unpack_table`.
unfoldable pub get_size : List ℕ → ℕ → Result (ℕ × List ℕ)
unfolding rb_read get_long_size
get_size rb array_size =
    if array_size == max_cookie - 1
    then (do r ← rb_read rb 1; get_long_size r.1 (number_of r.0))
    else ok (array_size, rb)

abbrev pub is_nil : Value → Bool
is_nil nil = true
is_nil _ = false

-- A double that is no number: all bits of its exponent are set, and one of its fraction. `lua_rawset` fails on
-- it as a key.
abbrev pub is_nan : Value → Bool
is_nan (real x) = ltb 0x7ff0000000000000 (x % 2 ^ 63)
is_nan _ = false

unfoldable mutual
  unfolding rb_read get_integer get_qword get_buffer get_long_string get_size

  -- `unpack_one` on fuel; the round of `luaseri_unpack` does the same
  pub unpack_one : ℕ → List ℕ → Result (Value × List ℕ)
  unpack_one zero rb = no_fuel
  unpack_one (suc fuel) rb = do
    r ← rb_read rb 1
    let type = number_of r.0
    push_value fuel r.1 (bit_and type 7) (type / 2 ^ 3)

  pub push_value : ℕ → List ℕ → ℕ → ℕ → Result (Value × List ℕ)
  push_value zero rb type cookie = no_fuel
  push_value (suc fuel) rb type cookie =
      let packed_table = unpack_table fuel rb cookie in
      if type == 0
      then ok (nil, rb)
      else if type == 1
      then ok (boolean (if cookie == 0 then false else true), rb)
      else if type == 2
      then (if cookie == 8
          then (do r ← get_qword rb; ok (real r.0, r.1))
          else (do r ← get_integer rb cookie; ok (integer r.0, r.1)))
      else if type == 3
      then (do r ← get_qword rb; ok (pointer r.0, r.1))
      else if type == 4
      then get_buffer rb cookie
      else if type == 5
      then get_long_string rb cookie
      else if type == 6
      then packed_table
      else invalid

  -- `unpack_table`: what `lua_rawseti` and `lua_rawset` put into the new table, in order
  pub unpack_table : ℕ → List ℕ → ℕ → Result (Value × List ℕ)
  unpack_table zero rb array_size = no_fuel
  unpack_table (suc fuel) rb array_size = do
    n ← get_size rb array_size
    array ← unpack_array fuel n.1 n.0
    entries ← unpack_pairs fuel array.1
    ok (table array.0 entries.0, entries.1)

  -- The loop of `unpack_table` over the array, `n` rounds before its end.
  pub unpack_array : ℕ → List ℕ → ℕ → Result (Values × List ℕ)
  unpack_array zero rb n = no_fuel
  unpack_array (suc fuel) rb n =
      let rest = (do
        v ← unpack_one fuel rb
        vs ← unpack_array fuel v.1 (n - 1)
        ok (value v.0 vs.0, vs.1)) in
      if n == 0 then ok (done, rb) else rest

  -- The loop of `unpack_table` over the entries.
  pub unpack_pairs : ℕ → List ℕ → Result (Pairs × List ℕ)
  unpack_pairs zero rb = no_fuel
  unpack_pairs (suc fuel) rb = do
    k ← unpack_one fuel rb
    let rest = (do
      v ← unpack_one fuel k.1
      let more = (do ps ← unpack_pairs fuel v.1; ok (pair k.0 v.0 ps.0, ps.1))
      if is_nan k.0 then invalid else more)
    if is_nil k.0 then ok (finish, k.1) else rest

-- The loop of `luaseri_unpack`, with `rounds` left.
unfoldable pub unpack_all : ℕ → ℕ → List ℕ → Result Values
unfolding unpack_one
unpack_all zero fuel rb = no_fuel
unpack_all (suc rounds) fuel [] = ok done
unpack_all (suc rounds) fuel (b ∷ rb) = do
  v ← unpack_one fuel (b ∷ rb)
  vs ← unpack_all rounds fuel v.1
  ok (value v.0 vs)

-- `luaseri_unpack` of a buffer
unfoldable pub luaseri_unpack : List ℕ → Result Values
unfolding unpack_all
luaseri_unpack buffer = unpack_all (suc (length buffer)) (4 * suc (length buffer)) buffer
