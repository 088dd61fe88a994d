-- ===== src/Netpack/Stream.antt =====
-- The stream of bytes that lua-netpack.c splits into packets, read byte by byte: which packets it completes
-- and what is left waiting.
use skynet_notes.Prelude.{
  ℕ, suc, ◌+◌, ◌-◌, ◌*◌, ◌≤◌, ◌<◌, ◌≡◌, refl, ap, sym, ◌∙◌, true, false, Option, none, some, List,
  [], ◌∷◌, ◌++◌, append-nil, append_assoc, length, length-append, take, drop, ◌==◌, ==_iff,
  if◌then◌else◌, Bool-cases, inl, inr, arith,
}
use skynet_notes.Netpack.{Progress, header, body}

-- What waits, and the packets that were completed.
abbrev pub Fed : Type 0
Fed = Option Progress × List (List ℕ)

-- The size of the packet is known and the bytes `read` of it have come.
abbrev pub known : ℕ → List ℕ → Fed
known size read = if length read == size then (none, read ∷ []) else (some (body size read), [])

-- One byte: the first of a header, which has the high digits of the size, the second, or one of the body.
abbrev pub next_byte : Option Progress → ℕ → Fed
next_byte none b = (some (header b), [])
next_byte (some (header h)) b = known (h * 256 + b) []
next_byte (some (body size read)) b = known size (read ++ b ∷ [])

unfoldable pub feed : Option Progress → List ℕ → Fed
feed p [] = (p, [])
feed p (b ∷ bytes) =
    let first = next_byte p b in let rest = feed first.0 bytes in (rest.0, first.1 ++ rest.1)

abbrev pub resume : Fed → List ℕ → Fed
resume first bytes = ((feed first.0 bytes).0, first.1 ++ (feed first.0 bytes).1)

pub feed-append : (p : Option Progress) (xs ys : List ℕ) → feed p (xs ++ ys) ≡ resume (feed p xs) ys
unfolding feed
feed-append p [] ys = refl
feed-append p (b ∷ xs) ys =
    let first = next_byte p b in
    let rest = feed-append first.0 xs ys in
    rw rest (
      ap (λ (t : List (List ℕ)). ((feed (feed first.0 xs).0 ys).0, t))
        (sym (append_assoc first.1 (feed first.0 xs).1 (feed (feed first.0 xs).0 ys).1)))

known-short :
    (size : ℕ) (read : List ℕ) → length read < size → known size read ≡ (some (body size read), [])
known-short size read h = let e : (length read == size) ≡ false = ground arith in rw e refl

known-whole : (size : ℕ) (read : List ℕ) → length read ≡ size → known size read ≡ (none, read ∷ [])
known-whole size read h =
    let e : (length read == size) ≡ true = (==_iff (length read) size).1 h in rw e refl

-- A body goes on with its next byte.
body_byte :
    (size b : ℕ) (read bytes : List ℕ)
    → length read < size
    → resume (known size read) (b ∷ bytes) ≡ resume (known size (read ++ b ∷ [])) bytes
unfolding feed
body_byte size b read bytes h = rw (known-short size read h) refl

pub resume-short :
    (size : ℕ) (read bytes : List ℕ)
    → length read + length bytes < size
    → resume (known size read) bytes ≡ (some (body size (read ++ bytes)), [])
unfolding feed
resume-short size read [] h = rw (known-short size read (omega arith), append-nil read) refl
resume-short size read (b ∷ bytes) h =
    body_byte size b read bytes (omega arith)
    ∙ resume-short size (read ++ b ∷ []) bytes (omega (arith, length-append read (b ∷ [])))
    ∙ ap (λ (t : List ℕ). (some (body size t), [])) (append_assoc read (b ∷ []) bytes)

-- The packet is complete, and the rest of the bytes starts with a header.
abbrev pub completed : List ℕ → List ℕ → Fed
completed whole rest = ((feed none rest).0, whole ∷ (feed none rest).1)

pub resume-long :
    (size : ℕ) (read bytes : List ℕ)
    → length read ≤ size
    → size ≤ length read + length bytes
    → resume (known size read) bytes
      ≡ completed (read ++ take (size - length read) bytes) (drop (size - length read) bytes)
resume-long size read [] h k =
    let e : length read ≡ size = omega arith in
    let n : size - length read ≡ 0 = omega arith in
    rw (known-whole size read e, n, append-nil read) refl
resume-long size read (b ∷ bytes) h k = elim (Bool-cases (length read == size)) [
  | inl q ↦
      let e : length read ≡ size = (==_iff (length read) size).0 q in
      let n : size - length read ≡ 0 = omega arith in
      rw (known-whole size read e, n, append-nil read) refl
  | inr q ↦
      let low : length read < size = ground (arith, q) in
      let longer = length-append read (b ∷ []) in
      let m = size - length (read ++ b ∷ []) in
      let n : size - length read ≡ suc m = omega (arith, longer) in
      body_byte size b read bytes low
      ∙ resume-long size (read ++ b ∷ []) bytes (omega (arith, longer)) (omega (arith, longer))
      ∙ rw n (
          ap (λ (t : List ℕ). completed t (drop m bytes))
            (append_assoc read (b ∷ []) (take m bytes)))
]
