-- ===== src/DataBuffer/Read.antt =====
-- `databuffer_read` and `databuffer_push` of databuffer.h on the bytes that are not yet read.
use skynet_notes.Prelude.{
  ℕ, ◌+◌, ◌-◌, ◌≤◌, ◌<◌, ◌≡◌, ◌≢◌, refl, sym, ap, ◌∙◌, inl, inr, true, Option, some, List, [], ◌∷◌,
  ◌++◌, length, length-append, length-drop, take, drop, ltb, ltb_iff, leb, ◌==◌, ==_iff, Bool-cases,
  arith,
}
use skynet_notes.DataBuffer.{DataBuffer, MessagePool, joined, finish, read_loop, databuffer_read}
use skynet_notes.Prelude.Bytes.{take-append, drop-append, take_past, drop_past, drop-drop, take_all}

abbrev pub concat : List (List ℕ) → List ℕ
concat [] = []
concat (m ∷ ms) = m ++ concat ms

-- The bytes that are not yet read.
abbrev pub unread : List (List ℕ) → ℕ → List ℕ
unread messages offset = drop offset (concat messages)

-- The offset is inside of the first message.
abbrev pub IsInside : List (List ℕ) → ℕ → Type 0
IsInside [] offset = offset ≡ 0
IsInside (m ∷ ms) offset = offset ≤ length m

-- What the loop returns.
pub data Reads (messages : List (List ℕ)) (offset sz : ℕ)
    : Option (List ℕ × List (List ℕ) × ℕ × ℕ) → Type 0 where
  reads :
      (bytes : List ℕ) (left : List (List ℕ)) (offset' returned : ℕ)
      → bytes ≡ take sz (unread messages offset)
      → unread left offset' ≡ drop sz (unread messages offset)
      → IsInside left offset'
      → length left + returned ≡ length messages
      → Reads messages offset sz (some (bytes, left, offset', returned))

none_over : {n : ℕ} (l : List ℕ) → n ≡ 0 → drop n l ≡ l
none_over l e = rw e refl

IsInside-zero : (messages : List (List ℕ)) → IsInside messages 0
IsInside-zero [] = refl
IsInside-zero (m ∷ ms) = omega arith

Reads-joined :
    (m : List ℕ) (ms : List (List ℕ)) (offset sz : ℕ) {o : Option (List ℕ × List (List ℕ) × ℕ × ℕ)}
    → unread (m ∷ ms) offset ≡ drop offset m ++ concat ms
    → length (drop offset m) ≤ sz
    → length (drop offset m) ≡ length m - offset
    → Reads ms 0 (sz - (length m - offset)) o
    → Reads (m ∷ ms) offset sz (joined (drop offset m) o)
Reads-joined m ms offset sz all short len (reads bytes left offset' returned e₁ e₂ e₃ e₄) =
    let first = drop offset m in
    let rest : sz - length first ≡ sz - (length m - offset) = ap (λ n. sz - n) len in
    reads (first ++ bytes) left offset' (returned + 1)
      (sym (
        ap (take sz) all
        ∙ take_past sz first (concat ms) short
        ∙ ap (λ n. first ++ take n (concat ms)) rest
        ∙ ap (λ (l : List ℕ). first ++ l) (sym e₁)))
      (e₂
        ∙ sym (
            ap (drop sz) all
            ∙ drop_past sz first (concat ms) short
            ∙ ap (λ n. drop n (concat ms)) rest))
      e₃ (omega (arith, e₄))

-- The loop reads what was asked for.
read_loop-Reads :
    (messages : List (List ℕ)) (offset sz : ℕ)
    → IsInside messages offset
    → messages ≢ []
    → sz ≤ length (unread messages offset)
    → Reads messages offset sz (read_loop messages offset sz)
unfolding read_loop
read_loop-Reads [] offset sz h ne k = absurd (ne refl)
read_loop-Reads (m ∷ ms) offset sz h ne k =
    let first = drop offset m in
    let all : unread (m ∷ ms) offset ≡ first ++ concat ms = drop-append offset m (concat ms) h in
    let enough : sz ≤ length first → take sz first ≡ take sz (unread (m ∷ ms) offset) =
      λ b. sym (ap (take sz) all ∙ take-append sz first (concat ms) b) in
    let len : length first ≡ length m - offset = length-drop offset m in
    let past : length first ≡ sz → drop sz (first ++ concat ms) ≡ concat ms = λ b.
      drop_past sz first (concat ms) (omega (arith, b))
      ∙ none_over (concat ms) (omega (arith, b)) in
    elim (Bool-cases (ltb sz (length m - offset))) [
      | inl p ↦ rw p (
          reads (take sz first) (m ∷ ms) (offset + sz) 0
            (enough (ground (arith, len, ltb_iff sz (length m - offset))))
            (sym (drop-drop offset sz (concat (m ∷ ms))))
            (ground (arith, ltb_iff sz (length m - offset))) (omega arith))
      | inr p ↦ elim (Bool-cases (length m - offset == sz)) [
        | inl q ↦
            rw (p, q)
              (reads (take sz first) ms 0 1
                (enough (omega (arith, len, (==_iff (length m - offset) sz).0 q)))
                (sym (
                  ap (drop sz) all
                  ∙ past (omega (arith, len, (==_iff (length m - offset) sz).0 q))))
                (IsInside-zero ms) (omega arith))
        | inr q ↦
            let short : length first < sz =
              ground (arith, len, ltb_iff sz (length m - offset), ==_iff (length m - offset) sz) in
            let total = ap length all ∙ length-append first (concat ms) in
            let there : ms ≢ [] =
              λ e. absurd (omega (arith, total, ap (λ (l : List (List ℕ)). length (concat l)) e)) in
            let whole : take (length m - offset) first ≡ first =
              take_all _ first (omega (arith, len)) in
            rw (p, q, whole)
              (Reads-joined m ms offset sz all (omega arith) len (
                read_loop-Reads ms 0 (sz - (length m - offset)) (IsInside-zero ms) there
                  (omega (arith, total, len))))
      ]
    ]

-- A buffer in order: its size is the number of its bytes that are not read.
pub record IsBuffer (db : DataBuffer) : Type 0 where
  pub sized : db.size ≡ length (unread db.messages db.offset)
  pub inside : IsInside db.messages db.offset

-- What `databuffer_read` achieves.
pub data ReadsBytes (db : DataBuffer) (mp : MessagePool) (sz : ℕ)
    : Option (List ℕ × DataBuffer × MessagePool) → Type 0 where
  reads_bytes :
      (bytes : List ℕ) (db' : DataBuffer) (mp' : MessagePool)
      → bytes ≡ take sz (unread db.messages db.offset)
      → unread db'.messages db'.offset ≡ drop sz (unread db.messages db.offset)
      → IsBuffer db'
      → db'.header ≡ db.header
      → length db'.messages + mp'.free ≡ length db.messages + mp.free
      → ReadsBytes db mp sz (some (bytes, db', mp'))

Reads-finish :
    (db : DataBuffer) (mp : MessagePool) (sz : ℕ) {o : Option (List ℕ × List (List ℕ) × ℕ × ℕ)}
    → IsBuffer db
    → Reads db.messages db.offset sz o
    → ReadsBytes db mp sz (finish db mp sz o)
Reads-finish db mp sz b (reads bytes left offset' returned e₁ e₂ e₃ e₄) =
    reads_bytes bytes _ _ e₁ e₂
      (record {
        sized = omega (arith, b.sized, ap length e₂, length-drop sz (unread db.messages db.offset));
        inside = e₃;
      })
      refl (omega (arith, e₄))

-- From a buffer in order, `databuffer_read` of some bytes, no more than there are, returns: with the first
-- bytes not yet read, across as many messages as it takes, while the buffer keeps the others and is in
-- order; every node that it no longer holds is free again.
pub databuffer_read_lem :
    (db : DataBuffer) (mp : MessagePool) (sz : ℕ)
    → IsBuffer db
    → 0 < sz
    → sz ≤ db.size
    → ReadsBytes db mp sz (databuffer_read db mp sz)
unfolding databuffer_read
databuffer_read_lem db mp sz b some_bytes h =
    let allowed : leb sz db.size ≡ true = ground arith in
    let there : db.messages ≢ [] = λ e. omega (
      arith,
      b.sized,
      length-drop db.offset (concat db.messages),
      ap (λ (l : List (List ℕ)). length (concat l)) e,
    ) in
    rw allowed (
      Reads-finish db mp sz b
        (read_loop-Reads db.messages db.offset sz b.inside there (omega (arith, b.sized))))
