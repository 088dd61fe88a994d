-- ===== src/Seri/Blocks.antt =====
-- The chain of blocks of lua-seri.c as the sequence of bytes that it holds.
use skynet_notes.Prelude.{
  ℕ, zero, suc, ◌+◌, ◌-◌, ◌≤◌, ◌<◌, ◌%◌, ◌^◌, ◌≡◌, refl, sym, ap, ◌∙◌, true, false, List, [], ◌∷◌,
  ◌++◌, append-nil, append_assoc, length, length-append, take, drop, length-take, length-drop,
  take-append-drop, leb, ◌==◌, ==_iff, Bool-cases, inl, inr, arith,
}
use skynet_notes.Prelude.Bytes.{take_all}
use skynet_notes.Seri.{WriteBlock, wb_init, wb_copy, wb_push, seri, next_block, block_size}

abbrev pub flatten : List (List ℕ) → List ℕ
flatten [] = []
flatten (b ∷ bs) = b ++ flatten bs

-- The bytes written so far.
abbrev pub content : WriteBlock → List ℕ
content b = flatten b.blocks ++ b.current

abbrev pub AllFull : List (List ℕ) → Type 0
AllFull [] = Unit {0}
AllFull (b ∷ bs) = (length b ≡ block_size) × AllFull bs

pub record IsBlocks (b : WriteBlock) : Type 0 where
  pub full : AllFull b.blocks
  pub fits : length b.current ≤ block_size
  pub counted : b.len ≡ length (content b) % 2 ^ 32

-- The bytes `bytes` were written.
pub record Wrote (b : WriteBlock) (bytes : List ℕ) (b' : WriteBlock) : Type 0 where
  pub valid : IsBlocks b'
  pub written : content b' ≡ content b ++ bytes

flatten-snoc : (bs : List (List ℕ)) (b : List ℕ) → flatten (bs ++ b ∷ []) ≡ flatten bs ++ b
flatten-snoc [] b = append-nil b
flatten-snoc (c ∷ bs) b = rw (flatten-snoc bs b) (sym (append_assoc c (flatten bs) b))

AllFull-snoc :
    (bs : List (List ℕ)) (b : List ℕ) → AllFull bs → length b ≡ block_size → AllFull (bs ++ b ∷ [])
AllFull-snoc [] b a h = (h, tt)
AllFull-snoc (c ∷ bs) b a h = (a.0, AllFull-snoc bs b a.1 h)

next_block-Wrote :
    (b : WriteBlock) → IsBlocks b → length b.current ≡ block_size → Wrote b [] (next_block b)
next_block-Wrote b v h =
    let same : content (next_block b) ≡ content b =
      append-nil _ ∙ flatten-snoc b.blocks b.current in
    record {
      valid = record {
        full = AllFull-snoc b.blocks b.current v.full h;
        fits = omega arith;
        counted = v.counted ∙ ap (λ (l : List ℕ). length l % 2 ^ 32) (sym same);
      };
      written = same ∙ sym (append-nil (content b));
    }

add_bytes-Wrote :
    (b : WriteBlock) (bytes : List ℕ) (n : ℕ)
    → IsBlocks b
    → length b.current + length bytes ≤ block_size
    → n ≡ length bytes
    → Wrote b bytes (record b { current = b.current ++ bytes; len = (b.len + n) % 2 ^ 32 })
add_bytes-Wrote b bytes n v h e =
    let same = sym (append_assoc (flatten b.blocks) b.current bytes) in
    record {
      valid = record {
        full = v.full;
        fits = omega (arith, length-append b.current bytes);
        counted = omega (arith, v.counted, ap length same, length-append (content b) bytes);
      };
      written = same;
    }

pub Wrote-trans :
    (b : WriteBlock) {b' b'' : WriteBlock} {m n : List ℕ}
    → Wrote b m b'
    → Wrote b' n b''
    → Wrote b (m ++ n) b''
Wrote-trans b {m = m} {n = n} w w' = record {
  valid = w'.valid;
  written = w'.written ∙ ap (λ (l : List ℕ). l ++ n) w.written ∙ append_assoc (content b) m n;
}

pub Wrote-eq : {b b' : WriteBlock} {m n : List ℕ} → m ≡ n → Wrote b m b' → Wrote b n b'
Wrote-eq e w = record { valid = w.valid; written = rw e at (w.written) }

wb_copy-Wrote :
    (fuel : ℕ) (b : WriteBlock) (buf : List ℕ)
    → IsBlocks b
    → length b.current < block_size
    → length buf < fuel
    → Wrote b buf (wb_copy fuel b buf)
unfolding wb_copy
wb_copy-Wrote zero b buf v h k = absurd (omega arith)
wb_copy-Wrote (suc fuel) b buf v h k =
    let room = block_size - length b.current in
    let first = take room buf in
    elim (Bool-cases (leb (length buf) room)) [
      | inl e ↦ rw e (add_bytes-Wrote b buf (length buf) v (ground arith) refl)
      | inr e ↦
          let whole : length first ≡ room = ground (arith, length-take room buf) in
          let filled = add_bytes-Wrote b first room v (omega (arith, whole)) (sym whole) in
          let b' = record b { current = b.current ++ first; len = (b.len + room) % 2 ^ 32 } in
          let next =
            next_block-Wrote b' filled.valid
              (omega (arith, whole, length-append b.current first)) in
          let rest =
            wb_copy-Wrote fuel (next_block b') (drop room buf) next.valid (omega arith)
              (ground (arith, length-drop room buf)) in
          rw e
            (Wrote-eq (take-append-drop room buf) (Wrote-trans b filled (Wrote-trans b' next rest)))
    ]

-- `wb_push` appends the bytes and leaves a valid chain of blocks.
pub wb_push-Wrote : (b : WriteBlock) (buf : List ℕ) → IsBlocks b → Wrote b buf (wb_push b buf)
unfolding wb_push
wb_push-Wrote b buf v = elim (Bool-cases (length b.current == block_size)) [
  | inl e ↦
      let next = next_block-Wrote b v ((==_iff _ _).0 e) in
      rw e (
        Wrote-trans b next (
          wb_copy-Wrote (suc (length buf)) (next_block b) buf next.valid (omega arith)
            (omega arith)))
  | inr e ↦ rw e (
      wb_copy-Wrote (suc (length buf)) b buf v
        (ground (arith, v.fits, ==_iff (length b.current) block_size)) (omega arith))
]

-- On a valid chain of blocks that holds, with the new bytes, less than 2 ^ 31 bytes, `wb_push` appends the
-- bytes to what was written, whichever blocks they come to stand in, and leaves a valid chain: all blocks but
-- the last one full, and `len` the number of bytes, no `int` having overflowed.
pub wb_push_lem :
    (b : WriteBlock) (buf : List ℕ)
    → IsBlocks b
    → length (content b) + length buf < 2 ^ 31
    → Wrote b buf (wb_push b buf) × ((wb_push b buf).len ≡ length (content b) + length buf)
wb_push_lem b buf v small =
    let w = wb_push-Wrote b buf v in
    (w, omega (arith, small, w.valid.counted, ap length w.written, length-append (content b) buf))

seri_last : (last : List ℕ) → length last ≤ block_size → seri (last ∷ []) (length last) ≡ last
unfolding seri
seri_last last h = elim (Bool-cases (length last == 0)) [
  | inl e ↦ rw e (sym (none_left last ((==_iff (length last) 0).0 e)))
  | inr e ↦ elim (Bool-cases (leb block_size (length last))) [
    | inl f ↦ rw (e, f, take_all block_size last h) (append-nil last)
    | inr f ↦ rw (e, f) (take_all (length last) last (omega arith))
  ]
]
  where
    none_left : (l : List ℕ) → length l ≡ 0 → l ≡ []
    none_left [] e = refl
    none_left (x ∷ l) e = absurd (omega arith)

seri-flatten :
    (bs : List (List ℕ)) (last : List ℕ)
    → AllFull bs
    → length last ≤ block_size
    → seri (bs ++ last ∷ []) (length (flatten bs ++ last)) ≡ flatten bs ++ last
unfolding seri
seri-flatten [] last a h = seri_last last h
seri-flatten (b ∷ bs) last a h =
    let rest = flatten bs ++ last in
    let same : flatten (b ∷ bs) ++ last ≡ b ++ rest = append_assoc b (flatten bs) last in
    let total : length (b ++ rest) ≡ block_size + length rest =
      omega (arith, length-append b rest, a.0) in
    ap (λ (l : List ℕ). seri (b ∷ (bs ++ last ∷ [])) (length l)) same
    ∙ more (length (b ++ rest)) total (seri-flatten bs last a.1 h)
    ∙ sym same
  where
    more :
        (n : ℕ)
        → n ≡ block_size + length (flatten bs ++ last)
        → seri (bs ++ last ∷ []) (length (flatten bs ++ last)) ≡ flatten bs ++ last
        → seri (b ∷ (bs ++ last ∷ [])) n ≡ b ++ (flatten bs ++ last)
    more n e ih =
        let some_left : (n == 0) ≡ false = ground arith in
        let full : leb block_size n ≡ true = ground arith in
        let left : n - block_size ≡ length (flatten bs ++ last) = omega arith in
        let whole = take_all block_size b (omega (arith, a.0)) in
        rw (some_left, full, left, whole, ih) refl

pub len-content :
    (b : WriteBlock) → IsBlocks b → length (content b) < 2 ^ 31 → b.len ≡ length (content b)
len-content b v small = omega (arith, v.counted, small)

-- The message that `seri` builds is what was written.
pub seri-content :
    (b : WriteBlock)
    → IsBlocks b
    → length (content b) < 2 ^ 31
    → seri (b.blocks ++ b.current ∷ []) b.len ≡ content b
seri-content b v small =
    ap (seri (b.blocks ++ b.current ∷ [])) (len-content b v small)
    ∙ seri-flatten b.blocks b.current v.full v.fits

pub wb_init-IsBlocks : IsBlocks wb_init
unfolding wb_init
wb_init-IsBlocks = record { full = tt; fits = omega arith; counted = refl }
