-- ===== src/Seri/Pack/Encode.antt =====
-- The bytes of a packed value, as a function of the value.
use skynet_notes.Prelude.{
  ℕ, ◌+◌, ◌%◌, ◌^◌, ◌≤◌, ◌<◌, List, [], ◌∷◌, ◌++◌, length, ltb, leb, ◌==◌, if◌then◌else◌,
}
use skynet_notes.Seri.{
  Value, nil, boolean, integer, real, pointer, string, table, paired, other, Values, done, value,
  Pairs, finish, pair, bytes_of, combine_type, is_int32, is_negative, max_depth,
}
use skynet_notes.Seri.Pack.{in_array, rawlen}

unfoldable pub encode_integer : ℕ → List ℕ
encode_integer v =
    if v == 0
    then combine_type 2 0 ∷ []
    else if is_int32 v
    then (if is_negative v
        then combine_type 2 4 ∷ bytes_of 4 (v % 2 ^ 32)
        else if ltb v 0x100
        then combine_type 2 1 ∷ v ∷ []
        else if ltb v 0x10000
        then combine_type 2 2 ∷ bytes_of 2 v
        else combine_type 2 4 ∷ bytes_of 4 v)
    else combine_type 2 6 ∷ bytes_of 8 v

unfoldable pub encode_string : List ℕ → List ℕ
encode_string s =
    let len = length s in
    if ltb len 32
    then combine_type 4 len ∷ s
    else if ltb len 0x10000
    then combine_type 5 2 ∷ bytes_of 2 len ++ s
    else combine_type 5 4 ∷ bytes_of 4 (len % 2 ^ 32) ++ s

unfoldable pub encode_size : ℕ → List ℕ
encode_size n = if leb 31 n then combine_type 6 31 ∷ encode_integer n else combine_type 6 n ∷ []

unfoldable mutual
  pub encode : Value → List ℕ
  encode nil = 0 ∷ []
  encode (boolean b) = combine_type 1 (if b then 1 else 0) ∷ []
  encode (integer x) = encode_integer x
  encode (real x) = combine_type 2 8 ∷ bytes_of 8 x
  encode (pointer x) = 3 ∷ bytes_of 8 x
  encode (string s) = encode_string s
  encode (table array entries) =
      encode_size (rawlen array)
      ++ (encode_all array ++ (encode_hash (rawlen array) entries ++ 0 ∷ []))
  encode (paired entries) = combine_type 6 0 ∷ (encode_pairs entries ++ 0 ∷ [])
  encode other = []

  pub encode_all : Values → List ℕ
  encode_all done = []
  encode_all (value v vs) = encode v ++ encode_all vs

  pub encode_hash : ℕ → Pairs → List ℕ
  encode_hash n finish = []
  encode_hash n (pair k v ps) =
      (if in_array n k then [] else encode k ++ encode v) ++ encode_hash n ps

  pub encode_pairs : Pairs → List ℕ
  encode_pairs finish = []
  encode_pairs (pair k v ps) = (encode k ++ encode v) ++ encode_pairs ps

-- The values that can be packed: tables at most `max_depth` deep, strings and arrays whose lengths an `int`
-- holds, and nothing of another type.
abbrev mutual
  pub CanPack : ℕ → Value → Type 0
  CanPack depth (table array entries) =
      (depth ≤ max_depth)
      × (rawlen array < 0x7fffffff)
      × AllCanPack (depth + 1) array
      × EntriesCanPack (depth + 1) (rawlen array) entries
  CanPack depth (paired entries) = (depth ≤ max_depth) × PairsCanPack (depth + 1) entries
  CanPack depth other = ⊥
  CanPack depth nil = depth ≤ max_depth
  CanPack depth (boolean b) = depth ≤ max_depth
  CanPack depth (integer x) = depth ≤ max_depth
  CanPack depth (real x) = depth ≤ max_depth
  CanPack depth (pointer x) = depth ≤ max_depth
  CanPack depth (string s) = (depth ≤ max_depth) × (length s < 2 ^ 31)

  pub AllCanPack : ℕ → Values → Type 0
  AllCanPack depth done = Unit {0}
  AllCanPack depth (value v vs) = CanPack depth v × AllCanPack depth vs

  pub EntriesCanPack : ℕ → ℕ → Pairs → Type 0
  EntriesCanPack depth n finish = Unit {0}
  EntriesCanPack depth n (pair k v ps) =
      (if in_array n k then Unit {0} else CanPack depth k × CanPack depth v)
      × EntriesCanPack depth n ps

  pub PairsCanPack : ℕ → Pairs → Type 0
  PairsCanPack depth finish = Unit {0}
  PairsCanPack depth (pair k v ps) = CanPack depth k × CanPack depth v × PairsCanPack depth ps
