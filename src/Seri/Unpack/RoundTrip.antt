-- ===== src/Seri/Unpack/RoundTrip.antt =====
-- The round trip of lua-seri.c: unpacking what was packed.
use skynet_notes.Prelude.{
  ℕ, zero, suc, ◌-◌, ◌*◌, ◌^◌, ◌≤◌, ◌<◌, ◌≡◌, refl, ap, ◌∙◌, true, false, some, List, [], ◌∷◌, ◌++◌,
  append_assoc, length, length-append, ◌==◌, Bool-cases, inl, inr, arith,
}
use skynet_notes.Seri.{
  Value, nil, boolean, integer, real, pointer, string, table, paired, other, Values, done, value,
  Pairs, finish, pair, combine_type,
}
use skynet_notes.Seri.Pack.{in_array, rawlen, luaseri_pack}
use skynet_notes.Seri.Pack.Encode.{
  encode_size, encode, encode_all, encode_hash, encode_pairs, AllCanPack,
}
use skynet_notes.Seri.Pack.Written.{luaseri_pack_lem}
use skynet_notes.Seri.Unpack.{
  ok, get_size, is_nil, is_nan, unpack_one, push_value, unpack_array, unpack_pairs, unpack_all,
  luaseri_unpack,
}
use skynet_notes.Seri.Unpack.Costs.{
  cost, cost_all, cost_hash, cost_pairs, plain, plain_all, plain_hash, plain_pairs, IsLua, AllLua,
  EntriesLua, cost-lt,
}
use skynet_notes.Seri.Unpack.Decode.{unpack_one-header}
use skynet_notes.Seri.Unpack.Leaves.{
  unpack-integer, unpack-real, unpack-pointer, unpack-string, get_size-encode, unpack-nil,
}

is_nil-plain : (v : Value) → is_nil v ≡ false → is_nil (plain v) ≡ false
is_nil-plain nil h = h
is_nil-plain (boolean b) h = refl
is_nil-plain (integer x) h = refl
is_nil-plain (real x) h = refl
is_nil-plain (pointer x) h = refl
is_nil-plain (string s) h = refl
is_nil-plain (table array entries) h = refl
is_nil-plain (paired entries) h = refl
is_nil-plain other h = refl

is_nan-plain : (v : Value) → is_nan v ≡ false → is_nan (plain v) ≡ false
is_nan-plain nil h = refl
is_nan-plain (boolean b) h = refl
is_nan-plain (integer x) h = refl
is_nan-plain (real x) h = h
is_nan-plain (pointer x) h = refl
is_nan-plain (string s) h = refl
is_nan-plain (table array entries) h = refl
is_nan-plain (paired entries) h = refl
is_nan-plain other h = refl

unpack-table :
    (g n c : ℕ) (body array_bytes entry_bytes rest : List ℕ) (array : Values) (entries : Pairs)
    → ((rest : List ℕ) → get_size (body ++ rest) c ≡ ok (n, rest))
    → unpack_array g (array_bytes ++ (entry_bytes ++ rest)) n ≡ ok (array, entry_bytes ++ rest)
    → unpack_pairs g (entry_bytes ++ rest) ≡ ok (entries, rest)
    → unpack_one
        (suc (suc (suc g)))
        (combine_type 6 c ∷ (body ++ (array_bytes ++ (entry_bytes ++ rest))))
      ≡ ok (table array entries, rest)
unfolding push_value
unpack-table g n c body array_bytes entry_bytes rest array entries e₁ e₂ e₃ =
    unpack_one-header (suc (suc g)) 6 c (body ++ (array_bytes ++ (entry_bytes ++ rest)))
      (omega arith)
    ∙ rw (e₁ (array_bytes ++ (entry_bytes ++ rest)), e₂, e₃) refl

cost_two : (v : Value) → 2 ≤ cost v
cost_two nil = omega arith
cost_two (boolean b) = omega arith
cost_two (integer x) = omega arith
cost_two (real x) = omega arith
cost_two (pointer x) = omega arith
cost_two (string s) = omega arith
cost_two (table array entries) = omega (arith, cost_all_one array)
  where
    cost_all_one : (vs : Values) → 0 ≤ cost_all vs
    cost_all_one vs = omega arith
cost_two (paired entries) = omega arith
cost_two other = omega arith

table_bytes :
    (size : List ℕ) (header : ℕ) (body array_bytes entry_bytes rest : List ℕ)
    → size ≡ header ∷ body
    → (size ++ (array_bytes ++ entry_bytes)) ++ rest
      ≡ header ∷ (body ++ (array_bytes ++ (entry_bytes ++ rest)))
table_bytes size header body array_bytes entry_bytes rest e = rw e (
    ap (λ (l : List ℕ). header ∷ l)
      (append_assoc body (array_bytes ++ entry_bytes) rest
        ∙ ap (λ (l : List ℕ). body ++ l) (append_assoc array_bytes entry_bytes rest)))

unpack_array-zero : (g : ℕ) (rest : List ℕ) → 1 ≤ g → unpack_array g rest 0 ≡ ok (done, rest)
unfolding unpack_array
unpack_array-zero zero rest h = absurd (omega arith)
unpack_array-zero (suc g) rest h = refl

cost_hash_three : (ps : Pairs) (n : ℕ) → 3 ≤ cost_hash n ps
cost_hash_three finish n = omega arith
cost_hash_three (pair k v ps) n = ground (arith, cost_hash_three ps n)

cost_pairs_three : (ps : Pairs) → 3 ≤ cost_pairs ps
cost_pairs_three finish = omega arith
cost_pairs_three (pair k v ps) = omega (arith, cost_pairs_three ps)

pair_bytes :
    (k v ps rest : List ℕ)
    → (((k ++ v) ++ ps) ++ 0 ∷ []) ++ rest ≡ k ++ (v ++ ((ps ++ 0 ∷ []) ++ rest))
pair_bytes k v ps rest =
    ap (λ (l : List ℕ). l ++ rest) (append_assoc (k ++ v) ps (0 ∷ []))
    ∙ append_assoc (k ++ v) (ps ++ 0 ∷ []) rest
    ∙ append_assoc k v ((ps ++ 0 ∷ []) ++ rest)

pairs_step :
    (f : ℕ) (bs₁ : List ℕ) {bs₂ bs₃ : List ℕ} {k v : Value} {ps : Pairs} {rest : List ℕ}
    → unpack_one f bs₁ ≡ ok (k, bs₂)
    → is_nil k ≡ false
    → is_nan k ≡ false
    → unpack_one f bs₂ ≡ ok (v, bs₃)
    → unpack_pairs f bs₃ ≡ ok (ps, rest)
    → unpack_pairs (suc f) bs₁ ≡ ok (pair k v ps, rest)
unfolding unpack_pairs
pairs_step f bs₁ e₁ e₂ e₃ e₄ e₅ = rw (e₁, e₂, e₄, e₃, e₅) refl

module _ (n : ℕ) (k v : Value) (ps : Pairs) {f : ℕ} where
  skip_cost : in_array n k ≡ true → cost_hash n (pair k v ps) ≤ suc f → cost_hash n ps ≤ suc f
  skip_cost e h = ground arith

  keep_cost :
      in_array n k ≡ false
      → cost_hash n (pair k v ps) ≤ suc f
      → (cost k ≤ f) × (cost v ≤ f) × (cost_hash n ps ≤ f)
  keep_cost e h = ground arith

mutual
  unfolding unpack_one encode encode_all encode_hash encode_pairs

  pub unpack-encode :
      (v : Value) (f : ℕ) (rest : List ℕ)
      → IsLua v
      → cost v ≤ f
      → unpack_one f (encode v ++ rest) ≡ ok (plain v, rest)
  unpack-encode v zero rest l h = absurd (omega (arith, cost_two v))
  unpack-encode v (suc zero) rest l h = absurd (omega (arith, cost_two v))
  unpack-encode nil (suc (suc g)) rest l h = unpack-nil (suc (suc g)) rest (omega arith)
  unpack-encode (boolean true) (suc (suc g)) rest l h =
      unpack_one-header (suc g) 1 1 rest (omega arith)
  unpack-encode (boolean false) (suc (suc g)) rest l h =
      unpack_one-header (suc g) 1 0 rest (omega arith)
  unpack-encode (integer x) (suc (suc g)) rest l h = unpack-integer g x rest l
  unpack-encode (real x) (suc (suc g)) rest l h = unpack-real g x rest l
  unpack-encode (pointer x) (suc (suc g)) rest l h = unpack-pointer g x rest l
  unpack-encode (string s) (suc (suc g)) rest l h = unpack-string g s rest l
  unpack-encode (table array entries) (suc (suc zero)) rest l h = absurd (omega arith)
  unpack-encode (table array entries) (suc (suc (suc g))) rest l h =
      let (small, all, keys) = l in
      let (c, body, e, sized) = get_size-encode (rawlen array) small in
      let entry_bytes = encode_hash (rawlen array) entries ++ 0 ∷ [] in
      ap (unpack_one (suc (suc (suc g)))) (
        table_bytes (encode_size (rawlen array)) (combine_type 6 c) body (encode_all array)
          entry_bytes rest e)
      ∙ (unpack-table g (rawlen array) c body (encode_all array)
          (encode_hash (rawlen array) entries ++ 0 ∷ []) rest (plain_all array)
          (plain_hash (rawlen array) entries) sized
          (unpack_array-encode array g _ all (omega arith))
          (unpack_pairs-hash entries (rawlen array) g rest keys (omega arith)))
  unpack-encode (paired entries) (suc (suc zero)) rest l h = absurd (omega arith)
  unpack-encode (paired entries) (suc (suc (suc g))) rest l h =
      unpack-table g 0 0 [] [] (encode_pairs entries ++ 0 ∷ []) rest done (plain_pairs entries)
        (λ rest. refl)
        (unpack_array-zero g (((encode_pairs entries ++ 0 ∷ [])) ++ rest) (omega arith))
        (unpack_pairs-pairs entries g rest l (omega arith))
  unpack-encode other (suc (suc g)) rest l h = absurd l

  pub unpack_array-encode :
      (vs : Values) (f : ℕ) (rest : List ℕ)
      → AllLua vs
      → cost_all vs ≤ f
      → unpack_array f (encode_all vs ++ rest) (rawlen vs) ≡ ok (plain_all vs, rest)
  unpack_array-encode done zero rest l h = absurd (omega arith)
  unpack_array-encode done (suc g) rest l h = refl
  unpack_array-encode (value v vs) zero rest l h = absurd (omega arith)
  unpack_array-encode (value v vs) (suc g) rest l h =
      let some_left : (rawlen (value v vs) == 0) ≡ false = ground arith in
      let one : rawlen (value v vs) - 1 ≡ rawlen vs = omega arith in
      rw
        (
          append_assoc (encode v) (encode_all vs) rest,
          unpack-encode v g (encode_all vs ++ rest) l.0 (omega arith),
          one,
          some_left,
          unpack_array-encode vs g rest l.1 (omega arith),
        )
        refl

  pub unpack_pairs-hash :
      (ps : Pairs) (n f : ℕ) (rest : List ℕ)
      → EntriesLua ps
      → cost_hash n ps ≤ f
      → unpack_pairs f ((encode_hash n ps ++ 0 ∷ []) ++ rest) ≡ ok (plain_hash n ps, rest)
  unpack_pairs-hash ps n zero rest l h = absurd (omega (arith, cost_hash_three ps n))
  unpack_pairs-hash finish n (suc f) rest l h = rw (unpack-nil f rest (omega arith)) refl
  unpack_pairs-hash (pair k v ps) n (suc f) rest l h =
      let (not_nil, not_nan, lk, lv, lps) = l in
      elim (Bool-cases (in_array n k)) [
        | inl e ↦ rw e (unpack_pairs-hash ps n (suc f) rest lps (skip_cost n k v ps e h))
        | inr e ↦
            let (ck, cv, cps) = keep_cost n k v ps e h in
            rw e (
              ap (unpack_pairs (suc f)) (pair_bytes (encode k) (encode v) (encode_hash n ps) rest)
              ∙ pairs_step f _ (unpack-encode k f _ lk ck) (is_nil-plain k not_nil)
                  (is_nan-plain k not_nan) (unpack-encode v f _ lv cv)
                  (unpack_pairs-hash ps n f rest lps cps))
      ]

  pub unpack_pairs-pairs :
      (ps : Pairs) (f : ℕ) (rest : List ℕ)
      → EntriesLua ps
      → cost_pairs ps ≤ f
      → unpack_pairs f ((encode_pairs ps ++ 0 ∷ []) ++ rest) ≡ ok (plain_pairs ps, rest)
  unpack_pairs-pairs ps zero rest l h = absurd (omega (arith, cost_pairs_three ps))
  unpack_pairs-pairs finish (suc f) rest l h = rw (unpack-nil f rest (omega arith)) refl
  unpack_pairs-pairs (pair k v ps) (suc f) rest l h =
      let (not_nil, not_nan, lk, lv, lps) = l in
      ap (unpack_pairs (suc f)) (pair_bytes (encode k) (encode v) (encode_pairs ps) rest)
      ∙ pairs_step f _ (unpack-encode k f _ lk (omega arith)) (is_nil-plain k not_nil)
          (is_nan-plain k not_nan) (unpack-encode v f _ lv (omega arith))
          (unpack_pairs-pairs ps f rest lps (omega arith))

encode-some : (v : Value) → IsLua v → (b : ℕ) × (bs : List ℕ) × (encode v ≡ b ∷ bs)
encode-some v l = first (encode v) (omega (arith, cost-lt v l, cost_two v))
  where
    first : (bytes : List ℕ) → 0 < length bytes → (b : ℕ) × (bs : List ℕ) × (bytes ≡ b ∷ bs)
    first [] h = absurd (omega arith)
    first (b ∷ bs) h = (b, bs, refl)

unpack_all_step :
    (rounds fuel : ℕ) (bytes : List ℕ) {v : Value} {rest : List ℕ} {vs : Values}
    → unpack_one fuel bytes ≡ ok (v, rest)
    → 0 < length bytes
    → unpack_all rounds fuel rest ≡ ok vs
    → unpack_all (suc rounds) fuel bytes ≡ ok (value v vs)
unfolding unpack_all
unpack_all_step rounds fuel [] e h k = absurd (omega arith)
unpack_all_step rounds fuel (b ∷ bytes) e h k = rw (e, k) refl

unpack_all-encode_all :
    (vs : Values) (rounds fuel : ℕ)
    → AllLua vs
    → length (encode_all vs) < rounds
    → 4 * length (encode_all vs) ≤ fuel
    → unpack_all rounds fuel (encode_all vs) ≡ ok (plain_all vs)
unfolding unpack_all encode_all
unpack_all-encode_all vs zero fuel l h k = absurd (omega arith)
unpack_all-encode_all done (suc rounds) fuel l h k = refl
unpack_all-encode_all (value v vs) (suc rounds) fuel l h k =
    let total = length-append (encode v) (encode_all vs) in
    let low = cost-lt v l.0 in
    unpack_all_step rounds fuel (encode v ++ encode_all vs)
      (unpack-encode v fuel (encode_all vs) l.0 (omega (arith, total, low)))
      (omega (arith, total, low, cost_two v))
      (unpack_all-encode_all vs rounds fuel l.1 (omega (arith, total, low, cost_two v))
        (omega (arith, total)))

-- Values that can be packed, of less than 2 ^ 31 bytes, are packed, and the message is unpacked to the same
-- values, where a table comes back as its array part and its other entries, and a table with `__pairs` as a
-- table of what it iterates. The values are those of Lua; no key is a NaN, which a table cannot have but
-- `__pairs` may iterate.
pub luaseri_unpack-pack :
    (vs : Values)
    → AllCanPack 0 vs
    → AllLua vs
    → length (encode_all vs) < 2 ^ 31
    → (message : List ℕ) × (luaseri_pack vs ≡ some message)
      × (luaseri_unpack message ≡ ok (plain_all vs))
unfolding luaseri_unpack
luaseri_unpack-pack vs can lua small = (
  encode_all vs,
  luaseri_pack_lem vs can small,
  unpack_all-encode_all vs (suc (length (encode_all vs))) (4 * suc (length (encode_all vs))) lua
      (omega arith) (omega arith),
)
