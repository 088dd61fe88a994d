-- ===== src/DataBuffer/Header.antt =====
-- `databuffer_readheader` of skynet/service-src/databuffer.h.
use skynet_notes.Prelude.{
  ℕ, zero, suc, ◌+◌, ◌*◌, ◌^◌, ◌<◌, ◌≤◌, ◌≡◌, ap, sym, ◌∙◌, ◌⊎◌, Option, some, List, [], ◌∷◌,
  length, length-take, length-drop, take, drop, ltb, ◌==◌, ==_iff, bit_or, Bool-cases, inl, inr,
  arith,
}
use skynet_notes.Prelude.Bytes.{AllBytes}
use skynet_notes.Prelude.Bits.{bit_or-shifted, meet}
use skynet_notes.DataBuffer.{
  DataBuffer, MessagePool, big_endian, minus_one, header_or_wait, with_header,
  databuffer_readheader,
}
use skynet_notes.DataBuffer.Read.{unread, IsBuffer, ReadsBytes, reads_bytes, databuffer_read_lem}

-- The number that bytes stand for, the most significant one first.
abbrev pub network_order : ℕ → List ℕ → ℕ
network_order n [] = n
network_order n (b ∷ bs) = network_order (n * 256 + b) bs

-- What is returned for a header: -1 while fewer bytes than it says are there, else the header; a header that is
-- negative as an `int` is returned as it is.
pub data Answers (header size : ℕ) : ℕ → Type 0 where
  short : header < 2 ^ 31 → size < header → Answers header size minus_one
  whole : header < 2 ^ 31 → header ≤ size → Answers header size header
  negative : 2 ^ 31 ≤ header → Answers header size header

-- What `databuffer_readheader` returns and leaves: it waits for the header, it has one from before, or it takes
-- one off the bytes that are not read.
pub data ReadsHeader (db : DataBuffer) (mp : MessagePool) (header_size : ℕ)
    : Option (ℕ × DataBuffer × MessagePool) → Type 0 where
  waits :
      db.header ≡ 0
      → db.size < header_size
      → ReadsHeader db mp header_size (some (minus_one, db, mp))
  kept :
      (r : ℕ)
      → 0 < db.header
      → Answers db.header db.size r
      → ReadsHeader db mp header_size (some (r, db, mp))
  takes :
      (r : ℕ) (db' : DataBuffer) (mp' : MessagePool)
      → db.header ≡ 0
      → db'.header ≡ network_order 0 (take header_size (unread db.messages db.offset))
      → unread db'.messages db'.offset ≡ drop header_size (unread db.messages db.offset)
      → db.size ≡ db'.size + header_size
      → IsBuffer db'
      → Answers db'.header db'.size r
      → ReadsHeader db mp header_size (some (r, db', mp'))

answers : (db : DataBuffer) → Answers db.header db.size (header_or_wait db)
answers db = elim (Bool-cases (ltb db.header (2 ^ 31))) [
  | inl e ↦ elim (Bool-cases (ltb db.size db.header)) [
    | inl f ↦ rw (e, f) (short (ground (arith, e)) (ground (arith, f)))
    | inr f ↦ rw (e, f) (whole (ground (arith, e)) (ground (arith, f)))
  ]
  | inr e ↦ rw e (negative (ground (arith, e)))
]

two_bytes : (p q : ℕ) → q < 256 → bit_or (p * 2 ^ 8) q ≡ network_order 0 (p ∷ q ∷ [])
two_bytes p q h = omega (arith, bit_or-shifted 8 p q h)

four_bytes :
    (p q r s : ℕ)
    → q < 256
    → r < 256
    → s < 256
    → bit_or (bit_or (bit_or (p * 2 ^ 24) (q * 2 ^ 16)) (r * 2 ^ 8)) s
      ≡ network_order 0 (p ∷ q ∷ r ∷ s ∷ [])
four_bytes p q r s hq hr hs =
    rw
      (
        bit_or-shifted 24 p (q * 2 ^ 16) (omega (arith, hq)),
        meet 16 (p * 2 ^ 24 + q * 2 ^ 16) (r * 2 ^ 8) (omega arith) (omega arith)
            (omega (arith, hr)),
        meet 8 (p * 2 ^ 24 + q * 2 ^ 16 + r * 2 ^ 8) s (omega arith) (omega arith) hs,
      )
      (omega arith)

big_endian-two :
    (bytes : List ℕ)
    → AllBytes bytes
    → length bytes ≡ 2
    → big_endian bytes ≡ some (network_order 0 bytes)
big_endian-two [] a h = absurd (omega (arith, h))
big_endian-two (p ∷ []) a h = absurd (omega (arith, h))
big_endian-two (p ∷ q ∷ []) a h = ap some (two_bytes p q a.1.0)
big_endian-two (p ∷ q ∷ r ∷ bytes) a h = absurd (omega (arith, h))

big_endian-four :
    (bytes : List ℕ)
    → AllBytes bytes
    → length bytes ≡ 4
    → big_endian bytes ≡ some (network_order 0 bytes)
big_endian-four [] a h = absurd (omega (arith, h))
big_endian-four (p ∷ []) a h = absurd (omega (arith, h))
big_endian-four (p ∷ q ∷ []) a h = absurd (omega (arith, h))
big_endian-four (p ∷ q ∷ r ∷ []) a h = absurd (omega (arith, h))
big_endian-four (p ∷ q ∷ r ∷ s ∷ []) a h = ap some (four_bytes p q r s a.1.0 a.1.1.0 a.1.1.1.0)
big_endian-four (p ∷ q ∷ r ∷ s ∷ t ∷ bytes) a h = absurd (omega (arith, h))

take-AllBytes : (n : ℕ) (bytes : List ℕ) → AllBytes bytes → AllBytes (take n bytes)
take-AllBytes zero bytes a = tt
take-AllBytes (suc n) [] a = tt
take-AllBytes (suc n) (b ∷ bytes) a = (a.0, take-AllBytes n bytes a.1)

taken-ReadsHeader :
    (db : DataBuffer) (mp : MessagePool) (header_size : ℕ)
    {r : Option (List ℕ × DataBuffer × MessagePool)}
    → db.header ≡ 0
    → IsBuffer db
    → AllBytes (unread db.messages db.offset)
    → (header_size ≡ 2) ⊎ (header_size ≡ 4)
    → header_size ≤ db.size
    → ReadsBytes db mp header_size r
    → ReadsHeader db mp header_size (with_header r)
taken-ReadsHeader db mp n e b a h k (reads_bytes bytes db' mp' e₁ e₂ b' e₃ e₄) =
    let there = unread db.messages db.offset in
    let size : length bytes ≡ n = ground (arith, ap length e₁, length-take n there, b.sized) in
    let is_byte : AllBytes bytes = rw (sym e₁) at (take-AllBytes n there a) in
    let header : big_endian bytes ≡ some (network_order 0 bytes) = elim h [
      | inl two ↦ big_endian-two bytes is_byte (size ∙ two)
      | inr four ↦ big_endian-four bytes is_byte (size ∙ four)
    ] in
    let read : DataBuffer = record db' { header = network_order 0 bytes } in
    rw header (
      takes (header_or_wait read) read mp' e (ap (network_order 0) e₁) e₂
        (omega (arith, b.sized, b'.sized, ap length e₂, length-drop n there))
        (record { sized = b'.sized; inside = b'.inside }) (answers read))

-- From a buffer in order, and for a header of two or of four bytes, `databuffer_readheader` returns. It returns -1
-- and changes nothing while the header is not there as a whole. Else it has a header, from before or taken off the
-- bytes not yet read, most significant byte first, and returns -1 while the buffer has fewer bytes than it says,
-- and the header if not; a header that is negative as an `int` is returned as it is.
pub databuffer_readheader_lem :
    (db : DataBuffer) (mp : MessagePool) (header_size : ℕ)
    → IsBuffer db
    → AllBytes (unread db.messages db.offset)
    → (header_size ≡ 2) ⊎ (header_size ≡ 4)
    → ReadsHeader db mp header_size (databuffer_readheader db mp header_size)
unfolding databuffer_readheader
databuffer_readheader_lem db mp header_size b a h = elim (Bool-cases (db.header == 0)) [
  | inl e ↦
      let zero_header : db.header ≡ 0 = (==_iff db.header 0).0 e in
      elim (Bool-cases (ltb db.size header_size)) [
        | inl t ↦ rw (e, t) (waits zero_header (ground (arith, t)))
        | inr t ↦
            rw (e, t)
              (taken-ReadsHeader db mp header_size zero_header b a h (ground (arith, t))
                (databuffer_read_lem db mp header_size b (positive h) (ground (arith, t))))
      ]
  | inr e ↦ rw e (kept (header_or_wait db) (ground (arith, e)) (answers db))
]
  where
    positive : {n : ℕ} → (n ≡ 2) ⊎ (n ≡ 4) → 0 < n
    positive (inl e) = omega (arith, e)
    positive (inr e) = omega (arith, e)
