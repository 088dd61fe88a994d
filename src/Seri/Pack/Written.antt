-- ===== src/Seri/Pack/Written.antt =====
-- `pack_one` of lua-seri.c writes the bytes of the value.
use skynet_notes.Prelude.{
  ℕ, suc, ◌+◌, ◌%◌, ◌^◌, ◌≤◌, ◌≡◌, ◌<◌, ap, refl, sym, ◌∙◌, Bool, true, false, Option, some, List,
  [], ◌∷◌, ◌++◌, append-nil, length, ltb, leb, ◌==◌, if◌then◌else◌, Bool-cases, inl, inr, arith,
}
use skynet_notes.Seri.{
  Value, nil, boolean, integer, real, pointer, string, table, paired, other, Values, done, value,
  Pairs, finish, pair, WriteBlock, wb_init, wb_push, wb_nil, wb_boolean, wb_integer, wb_real,
  wb_pointer, wb_string, bytes_of, combine_type, is_int32, is_negative, max_depth,
}
use skynet_notes.Seri.Blocks.{
  content, IsBlocks, Wrote, Wrote-eq, Wrote-trans, wb_push-Wrote, seri-content, len-content,
  wb_init-IsBlocks,
}
use skynet_notes.Seri.Pack.{
  ◌>>=◌, in_array, rawlen, wb_array_size, checked, is_length, is_size, guarded, pack_one,
  pack_array, pack_hash, pack_pairs, luaseri_pack,
}
use skynet_notes.Seri.Pack.Encode.{
  encode_integer, encode_string, encode_size, encode, encode_all, encode_hash, encode_pairs,
  CanPack, AllCanPack, EntriesCanPack, PairsCanPack,
}

pub two_pushes :
    (wb : WriteBlock) (m n : List ℕ) → IsBlocks wb → Wrote wb (m ++ n) (wb_push (wb_push wb m) n)
two_pushes wb m n v =
    let first = wb_push-Wrote wb m v in
    Wrote-trans wb first (wb_push-Wrote (wb_push wb m) n first.valid)

wb_integer-Wrote :
    (wb : WriteBlock) (x : ℕ) → IsBlocks wb → Wrote wb (encode_integer x) (wb_integer wb x)
unfolding wb_integer encode_integer
wb_integer-Wrote wb x v = elim (Bool-cases (x == 0)) [
  | inl e ↦ rw e (wb_push-Wrote wb (combine_type 2 0 ∷ []) v)
  | inr e ↦ elim (Bool-cases (is_int32 x)) [
    | inr f ↦ rw (e, f) (two_pushes wb (combine_type 2 6 ∷ []) (bytes_of 8 x) v)
    | inl f ↦ elim (Bool-cases (is_negative x)) [
      | inl g ↦ rw (e, f, g) (two_pushes wb (combine_type 2 4 ∷ []) (bytes_of 4 (x % 2 ^ 32)) v)
      | inr g ↦ elim (Bool-cases (ltb x 0x100)) [
        | inl h ↦ rw (e, f, g, h) (two_pushes wb (combine_type 2 1 ∷ []) (x ∷ []) v)
        | inr h ↦ elim (Bool-cases (ltb x 0x10000)) [
          | inl i ↦ rw (e, f, g, h, i) (two_pushes wb (combine_type 2 2 ∷ []) (bytes_of 2 x) v)
          | inr i ↦ rw (e, f, g, h, i) (two_pushes wb (combine_type 2 4 ∷ []) (bytes_of 4 x) v)
        ]
      ]
    ]
  ]
]

three_pushes :
    (wb : WriteBlock) (l m n : List ℕ)
    → IsBlocks wb
    → Wrote wb (l ++ m ++ n) (wb_push (wb_push (wb_push wb l) m) n)
three_pushes wb l m n v =
    let first = two_pushes wb l m v in
    Wrote-trans wb first (wb_push-Wrote (wb_push (wb_push wb l) m) n first.valid)

wb_string-Wrote :
    (wb : WriteBlock) (s : List ℕ) → IsBlocks wb → Wrote wb (encode_string s) (wb_string wb s)
unfolding wb_string encode_string
wb_string-Wrote wb s v = elim (Bool-cases (ltb (length s) 32)) [
  | inl e ↦ rw e (short s)
  | inr e ↦ elim (Bool-cases (ltb (length s) 0x10000)) [
    | inl f ↦ rw (e, f) (three_pushes wb (combine_type 5 2 ∷ []) (bytes_of 2 (length s)) s v)
    | inr f ↦
        rw (e, f) (three_pushes wb (combine_type 5 4 ∷ []) (bytes_of 4 (length s % 2 ^ 32)) s v)
  ]
]
  where
    short :
        (s : List ℕ)
        → Wrote wb (combine_type 4 (length s) ∷ s) (
            let wb' = wb_push wb (combine_type 4 (length s) ∷ []) in
            if ltb 0 (length s) then wb_push wb' s else wb')
    short [] = wb_push-Wrote wb (combine_type 4 0 ∷ []) v
    short (x ∷ s) =
        let more : ltb 0 (suc (length s)) ≡ true = ground arith in
        rw more (two_pushes wb (combine_type 4 (suc (length s)) ∷ []) (x ∷ s) v)

wb_array_size-Wrote :
    (wb : WriteBlock) (n : ℕ) → IsBlocks wb → Wrote wb (encode_size n) (wb_array_size wb n)
unfolding wb_array_size encode_size
wb_array_size-Wrote wb n v = elim (Bool-cases (leb 31 n)) [
  | inl e ↦
      let first = wb_push-Wrote wb (combine_type 6 31 ∷ []) v in
      rw e (
        Wrote-trans wb first (wb_integer-Wrote (wb_push wb (combine_type 6 31 ∷ [])) n first.valid))
  | inr e ↦ rw e (wb_push-Wrote wb (combine_type 6 n ∷ []) v)
]

-- The bytes are written.
abbrev pub Packs : Option WriteBlock → WriteBlock → List ℕ → Type 0
Packs r wb bytes = (wb' : WriteBlock) × (r ≡ some wb') × Wrote wb bytes wb'

written : {wb wb' : WriteBlock} {m : List ℕ} → Wrote wb m wb' → Packs (some wb') wb m
written {wb' = wb'} w = (wb', refl, w)

Packs-bind :
    {r : Option WriteBlock} {f : WriteBlock → Option WriteBlock} {wb : WriteBlock} {m n : List ℕ}
    → Packs r wb m
    → ((wb' : WriteBlock) → IsBlocks wb' → Packs (f wb') wb' n)
    → Packs (r >>= f) wb (m ++ n)
Packs-bind {wb = wb} (wb', e, w) k =
    let (wb'', e', w') = k wb' w.valid in (wb'', rw e e', Wrote-trans wb w w')

Packs-eq :
    {r : Option WriteBlock} {wb : WriteBlock} {m n : List ℕ} → m ≡ n → Packs r wb m → Packs r wb n
Packs-eq e (wb', p, w) = (wb', p, Wrote-eq e w)

in_depth : {r : Option WriteBlock} (depth : ℕ) → depth ≤ max_depth → checked depth r ≡ r
in_depth depth h = let e : ltb max_depth depth ≡ false = ground arith in rw e refl

Packs-checked :
    {r : Option WriteBlock} {wb : WriteBlock} {m : List ℕ} (depth : ℕ)
    → depth ≤ max_depth
    → Packs r wb m
    → Packs (checked depth r) wb m
Packs-checked depth h (wb', p, w) = (wb', in_depth depth h ∙ p, w)

Packs-guarded :
    {r : Option WriteBlock} {wb : WriteBlock} {m : List ℕ} {test : Bool}
    → test ≡ true
    → Packs r wb m
    → Packs (guarded test r) wb m
Packs-guarded e p = rw e p

nothing : (wb : WriteBlock) → IsBlocks wb → Packs (some wb) wb []
nothing wb b = (wb, refl, record { valid = b; written = sym (append-nil (content wb)) })

pack_entry :
    (skipped : Bool) {P Q : Type 0} {r : Option WriteBlock} {wb : WriteBlock} {m : List ℕ}
    → (P → Q → Packs r wb m)
    → Packs (some wb) wb []
    → (if skipped then Unit {0} else P × Q)
    → Packs (if skipped then some wb else r) wb (if skipped then [] else m)
pack_entry true f g c = g
pack_entry false f g c = f c.0 c.1

mutual
  unfolding pack_one pack_array pack_hash pack_pairs encode wb_nil wb_boolean wb_real wb_pointer
      encode_all encode_hash encode_pairs

  pack_one-Packs :
      (v : Value) (depth : ℕ) (wb : WriteBlock)
      → CanPack depth v
      → IsBlocks wb
      → Packs (pack_one depth v wb) wb (encode v)
  pack_one-Packs nil depth wb c b = Packs-checked depth c (written (wb_push-Wrote wb (0 ∷ []) b))
  pack_one-Packs (boolean x) depth wb c b =
      Packs-checked depth c
        (written (wb_push-Wrote wb (combine_type 1 (if x then 1 else 0) ∷ []) b))
  pack_one-Packs (integer x) depth wb c b =
      Packs-checked depth c (written (wb_integer-Wrote wb x b))
  pack_one-Packs (real x) depth wb c b =
      Packs-checked depth c (written (two_pushes wb (combine_type 2 8 ∷ []) (bytes_of 8 x) b))
  pack_one-Packs (pointer x) depth wb c b =
      Packs-checked depth c (written (two_pushes wb (3 ∷ []) (bytes_of 8 x) b))
  pack_one-Packs (string s) depth wb c b =
      let short : is_length (length s) ≡ true = ground (arith, c.1) in
      Packs-checked depth c.0 (Packs-guarded short (written (wb_string-Wrote wb s b)))
  pack_one-Packs (table array entries) depth wb c b =
      let (in_range, small, array_ok, entries_ok) = c in
      let short : is_size (rawlen array) ≡ true = ground (arith, small) in
      Packs-checked depth in_range (
        Packs-guarded short (
          Packs-bind (written (wb_array_size-Wrote wb (rawlen array) b)) (λ wb₁ b₁.
            Packs-bind (pack_array-Packs array (depth + 1) wb₁ array_ok b₁) (λ wb₂ b₂.
              Packs-bind (pack_hash-Packs entries (depth + 1) (rawlen array) wb₂ entries_ok b₂)
                (λ wb₃ b₃. written (wb_push-Wrote wb₃ (0 ∷ []) b₃))))))
  pack_one-Packs (paired entries) depth wb c b = Packs-checked depth c.0 (
      Packs-bind (written (wb_push-Wrote wb (combine_type 6 0 ∷ []) b)) (λ wb₁ b₁.
        Packs-bind (pack_pairs-Packs entries (depth + 1) wb₁ c.1 b₁)
          (λ wb₂ b₂. written (wb_push-Wrote wb₂ (0 ∷ []) b₂))))
  pack_one-Packs other depth wb c b = absurd c

  pack_array-Packs :
      (vs : Values) (depth : ℕ) (wb : WriteBlock)
      → AllCanPack depth vs
      → IsBlocks wb
      → Packs (pack_array depth vs wb) wb (encode_all vs)
  pack_array-Packs done depth wb c b = nothing wb b
  pack_array-Packs (value v vs) depth wb c b =
      Packs-bind (pack_one-Packs v depth wb c.0 b) (λ wb' b'. pack_array-Packs vs depth wb' c.1 b')

  pack_hash-Packs :
      (ps : Pairs) (depth n : ℕ) (wb : WriteBlock)
      → EntriesCanPack depth n ps
      → IsBlocks wb
      → Packs (pack_hash depth n ps wb) wb (encode_hash n ps)
  pack_hash-Packs finish depth n wb c b = nothing wb b
  pack_hash-Packs (pair k v ps) depth n wb c b =
      let (entry_ok, rest_ok) = c in
      Packs-bind
        (pack_entry (in_array n k)
          (λ ck cv.
            Packs-bind (pack_one-Packs k depth wb ck b)
              (λ wb' b'. pack_one-Packs v depth wb' cv b'))
          (nothing wb b) entry_ok)
        (λ wb' b'. pack_hash-Packs ps depth n wb' rest_ok b')

  pack_pairs-Packs :
      (ps : Pairs) (depth : ℕ) (wb : WriteBlock)
      → PairsCanPack depth ps
      → IsBlocks wb
      → Packs (pack_pairs depth ps wb) wb (encode_pairs ps)
  pack_pairs-Packs finish depth wb c b = nothing wb b
  pack_pairs-Packs (pair k v ps) depth wb c b =
      let (ck, cv, cps) = c in
      Packs-bind
        (Packs-bind (pack_one-Packs k depth wb ck b) (λ wb' b'. pack_one-Packs v depth wb' cv b'))
        (λ wb' b'. pack_pairs-Packs ps depth wb' cps b')

-- `luaseri_pack` of values that can be packed gives their bytes, one value behind the other, if they are less
-- than 2 ^ 31.
pub luaseri_pack_lem :
    (vs : Values)
    → AllCanPack 0 vs
    → length (encode_all vs) < 2 ^ 31
    → luaseri_pack vs ≡ some (encode_all vs)
unfolding luaseri_pack
luaseri_pack_lem vs ok small =
    let (wb, e, w) = pack_array-Packs vs 0 wb_init ok wb_init-IsBlocks in
    let whole : content wb ≡ encode_all vs = w.written in
    let counted : length (content wb) < 2 ^ 31 = omega (arith, small, ap length whole) in
    let same = len-content wb w.valid counted in
    let short : is_length wb.len ≡ true = ground (arith, same, counted) in
    rw (e, short, seri-content wb w.valid counted, whole) refl
