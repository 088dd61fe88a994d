-- ===== src/Seri/Unpack/Costs.antt =====
-- How much fuel `unpack_one` needs for the bytes of a value, and what comes out.
use skynet_notes.Prelude.{
  ℕ, ◌+◌, ◌*◌, ◌≤◌, ◌<◌, ◌^◌, ◌≡◌, false, List, [], ◌∷◌, ◌++◌, length, length-append, if◌then◌else◌,
  Bool-cases, inl, inr, arith,
}
use skynet_notes.Seri.{
  Value, nil, boolean, integer, real, pointer, string, table, paired, other, Values, done, value,
  Pairs, finish, pair,
}
use skynet_notes.Seri.Pack.{in_array, rawlen}
use skynet_notes.Seri.Pack.Encode.{
  encode_integer, encode_string, encode_size, encode, encode_all, encode_hash, encode_pairs,
}
use skynet_notes.Seri.Unpack.{is_nil, is_nan}

-- The fuel.
abbrev mutual
  pub cost : Value → ℕ
  cost nil = 2
  cost (boolean b) = 2
  cost (integer x) = 2
  cost (real x) = 2
  cost (pointer x) = 2
  cost (string s) = 2
  cost (table array entries) = 3 + cost_all array + cost_hash (rawlen array) entries
  cost (paired entries) = 4 + cost_pairs entries
  cost other = 2

  pub cost_all : Values → ℕ
  cost_all done = 1
  cost_all (value v vs) = 1 + cost v + cost_all vs

  pub cost_hash : ℕ → Pairs → ℕ
  cost_hash n finish = 3
  cost_hash n (pair k v ps) = (if in_array n k then 0 else 1 + cost k + cost v) + cost_hash n ps

  pub cost_pairs : Pairs → ℕ
  cost_pairs finish = 3
  cost_pairs (pair k v ps) = 1 + cost k + cost v + cost_pairs ps

-- The value that is unpacked: a table without the entries that its array part has anyway, and one with
-- `__pairs` as a table of what it iterates.
abbrev mutual
  pub plain : Value → Value
  plain nil = nil
  plain (boolean b) = boolean b
  plain (integer x) = integer x
  plain (real x) = real x
  plain (pointer x) = pointer x
  plain (string s) = string s
  plain (table array entries) = table (plain_all array) (plain_hash (rawlen array) entries)
  plain (paired entries) = table done (plain_pairs entries)
  plain other = other

  pub plain_all : Values → Values
  plain_all done = done
  plain_all (value v vs) = value (plain v) (plain_all vs)

  pub plain_hash : ℕ → Pairs → Pairs
  plain_hash n finish = finish
  plain_hash n (pair k v ps) =
      if in_array n k then plain_hash n ps else pair (plain k) (plain v) (plain_hash n ps)

  pub plain_pairs : Pairs → Pairs
  plain_pairs finish = finish
  plain_pairs (pair k v ps) = pair (plain k) (plain v) (plain_pairs ps)

-- A value of Lua: its numbers fit 64 bits, its strings and arrays are shorter than 2 ^ 31, and no key is nil
-- or a NaN.
abbrev mutual
  pub IsLua : Value → Type 0
  IsLua nil = Unit {0}
  IsLua (boolean b) = Unit {0}
  IsLua (integer x) = x < 2 ^ 64
  IsLua (real x) = x < 2 ^ 64
  IsLua (pointer x) = x < 2 ^ 64
  IsLua (string s) = length s < 2 ^ 31
  IsLua (table array entries) = (rawlen array < 2 ^ 31) × AllLua array × EntriesLua entries
  IsLua (paired entries) = EntriesLua entries
  IsLua other = ⊥

  pub AllLua : Values → Type 0
  AllLua done = Unit {0}
  AllLua (value v vs) = IsLua v × AllLua vs

  pub EntriesLua : Pairs → Type 0
  EntriesLua finish = Unit {0}
  EntriesLua (pair k v ps) =
      (is_nil k ≡ false) × (is_nan k ≡ false) × IsLua k × IsLua v × EntriesLua ps

encode_integer-some : (x : ℕ) → 1 ≤ length (encode_integer x)
unfolding encode_integer
encode_integer-some x = ground arith

encode_string-some : (s : List ℕ) → 1 ≤ length (encode_string s)
unfolding encode_string
encode_string-some s = ground arith

encode_size-some : (n : ℕ) → 1 ≤ length (encode_size n)
unfolding encode_size
encode_size-some n = ground arith

-- Four times the number of bytes is enough.
mutual
  unfolding encode encode_all encode_hash encode_pairs

  pub cost-lt : (v : Value) → IsLua v → cost v < 4 * length (encode v)
  cost-lt nil l = omega arith
  cost-lt (boolean b) l = omega arith
  cost-lt (integer x) l = omega (arith, encode_integer-some x)
  cost-lt (real x) l = omega arith
  cost-lt (pointer x) l = omega arith
  cost-lt (string s) l = omega (arith, encode_string-some s)
  cost-lt (table array entries) l =
      let (small, all, keys) = l in
      let rest = encode_hash (rawlen array) entries ++ 0 ∷ [] in
      omega (
        arith,
        encode_size-some (rawlen array),
        cost_all-le array all,
        cost_hash-le entries (rawlen array) keys,
        length-append (encode_size (rawlen array)) (encode_all array ++ rest),
        length-append (encode_all array) rest,
        length-append (encode_hash (rawlen array) entries) (0 ∷ []),
      )
  cost-lt (paired entries) l =
      omega (arith, cost_pairs-le entries l, length-append (encode_pairs entries) (0 ∷ []))
  cost-lt other l = absurd l

  cost_all-le : (vs : Values) → AllLua vs → cost_all vs ≤ 4 * length (encode_all vs) + 1
  cost_all-le done l = omega arith
  cost_all-le (value v vs) l =
      omega (arith, cost-lt v l.0, cost_all-le vs l.1, length-append (encode v) (encode_all vs))

  cost_hash-le :
      (ps : Pairs) (n : ℕ) → EntriesLua ps → cost_hash n ps ≤ 4 * length (encode_hash n ps) + 3
  cost_hash-le finish n l = omega arith
  cost_hash-le (pair k v ps) n l =
      let (not_nil, not_nan, lk, lv, lps) = l in
      elim (Bool-cases (in_array n k)) [
        | inl e ↦ rw e (omega (arith, cost_hash-le ps n lps))
        | inr e ↦ rw e (
            omega (
              arith,
              cost-lt k lk,
              cost-lt v lv,
              cost_hash-le ps n lps,
              length-append (encode k ++ encode v) (encode_hash n ps),
              length-append (encode k) (encode v),
            ))
      ]

  cost_pairs-le : (ps : Pairs) → EntriesLua ps → cost_pairs ps ≤ 4 * length (encode_pairs ps) + 3
  cost_pairs-le finish l = omega arith
  cost_pairs-le (pair k v ps) l =
      let (not_nil, not_nan, lk, lv, lps) = l in
      omega (
        arith,
        cost-lt k lk,
        cost-lt v lv,
        cost_pairs-le ps lps,
        length-append (encode k ++ encode v) (encode_pairs ps),
        length-append (encode k) (encode v),
      )
