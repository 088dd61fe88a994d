-- ===== src/Netpack/Filter.antt =====
-- `push_more` and `filter_data_` of lua-netpack.c read the stream of an fd as it is read byte by byte.
use skynet_notes.Prelude.{
  ℕ, zero, suc, ◌+◌, ◌-◌, ◌*◌, ◌≤◌, ◌<◌, ◌≡◌, refl, ap, sym, ◌∙◌, false, Option, none, some, List,
  [], ◌∷◌, ◌++◌, append-nil, append_assoc, length, length-drop, take, drop, ltb, ◌==◌, ==_iff,
  Bool-cases, inl, inr, arith,
}
use skynet_notes.Prelude.Bits.{bit_or-shifted}
use skynet_notes.Prelude.Bytes.{AllBytes, drop-AllBytes}
use skynet_notes.Netpack.{
  Netpack, Progress, header, body, Queue, read_size, push_more, push_data, save_uncomplete,
}
use skynet_notes.Netpack.Stream.{Fed, known, feed, resume, resume-short, resume-long, completed}
use skynet_notes.Netpack.Waiting.{Has, set_waiting, save-Has, push-Has}

-- The packets of one fd.
abbrev pub packs : ℕ → List (List ℕ) → List Netpack
packs fd [] = []
packs fd (b ∷ bs) = record { id = fd; buffer = b } ∷ packs fd bs

pub Has-eq :
    {l : Option Queue} {ms ns : List Netpack} {P Q : ℕ → Option Progress}
    → ms ≡ ns
    → ((g : ℕ) → P g ≡ Q g)
    → Has l ms P
    → Has l ns Q
Has-eq e w h = record {
  ring = rw e at (h.ring);
  waiting = λ g. rw (w g) at (h.waiting g);
  short = λ g. rw (w g) at (h.short g);
}

pub same_waiting :
    (P : ℕ → Option Progress) (fd : ℕ) → P fd ≡ none → (g : ℕ) → P g ≡ set_waiting P fd none g
same_waiting P fd e g = elim (Bool-cases (g == fd)) [
  | inl q ↦ rw q (ap P ((==_iff g fd).0 q) ∙ e)
  | inr q ↦ rw q refl
]

pub twice :
    (P : ℕ → Option Progress) (fd : ℕ) (o : Option Progress) (g : ℕ)
    → set_waiting (set_waiting P fd none) fd o g ≡ set_waiting P fd o g
twice P fd o g = elim (Bool-cases (g == fd)) [ inl q ↦ rw q refl | inr q ↦ rw q refl ]

pub size_lem : (b0 b1 : ℕ) → b1 < 256 → read_size b0 b1 ≡ b0 * 256 + b1
size_lem b0 b1 h = bit_or-shifted 8 b0 b1 h

nothing_left : (rest : List ℕ) → ltb 0 (length rest) ≡ false → rest ≡ []
nothing_left [] e = refl
nothing_left (b ∷ rest) e = absurd (ground (arith, e))

-- The rest of the buffer was read as `f` says.
pub record Pushed (r : Option Queue) (ms : List Netpack) (P : ℕ → Option Progress) (fd : ℕ)
    (f : Fed) : Type 0 where
  pub queue : Queue
  pub returned : r ≡ some queue
  pub has : Has (some queue) (ms ++ packs fd f.1) (set_waiting P fd f.0)

Pushed-eq :
    {r : Option Queue} {ms : List Netpack} {P : ℕ → Option Progress} {fd : ℕ} {f g : Fed}
    → f ≡ g
    → Pushed r ms P fd f
    → Pushed r ms P fd g
Pushed-eq e p = rw e at p

start_lem :
    (b0 b1 : ℕ) (bytes : List ℕ)
    → feed none (b0 ∷ b1 ∷ bytes) ≡ resume (known (b0 * 256 + b1) []) bytes
unfolding feed
start_lem b0 b1 bytes = refl

pub start-short :
    (b0 b1 : ℕ) (bytes : List ℕ)
    → b1 < 256
    → length bytes < read_size b0 b1
    → feed none (b0 ∷ b1 ∷ bytes) ≡ (some (body (read_size b0 b1) bytes), [])
start-short b0 b1 bytes h k =
    start_lem b0 b1 bytes
    ∙ ap (λ (n : ℕ). resume (known n []) bytes) (sym (size_lem b0 b1 h))
    ∙ resume-short (read_size b0 b1) [] bytes (omega (arith, k))

pub start-long :
    (b0 b1 : ℕ) (bytes : List ℕ)
    → b1 < 256
    → read_size b0 b1 ≤ length bytes
    → feed none (b0 ∷ b1 ∷ bytes)
      ≡ completed (take (read_size b0 b1) bytes) (drop (read_size b0 b1) bytes)
start-long b0 b1 bytes h k =
    let size = read_size b0 b1 in
    let n : size - 0 ≡ size = omega arith in
    start_lem b0 b1 bytes
    ∙ ap (λ (m : ℕ). resume (known m []) bytes) (sym (size_lem b0 b1 h))
    ∙ resume-long size [] bytes (omega arith) (omega (arith, k))
    ∙ ap (λ (m : ℕ). completed (take m bytes) (drop m bytes)) n

pub push_more-Pushed :
    (rounds : ℕ) {l : Option Queue} {ms : List Netpack} {P : ℕ → Option Progress} (fd : ℕ)
    (buffer : List ℕ)
    → Has l ms P
    → P fd ≡ none
    → AllBytes buffer
    → 0 < length buffer
    → length buffer ≤ rounds
    → Pushed (push_more rounds l fd buffer) ms P fd (feed none buffer)
unfolding push_more feed
push_more-Pushed zero fd buffer h e b k n = absurd (omega arith)
push_more-Pushed (suc rounds) fd [] h e b k n = absurd (omega arith)
push_more-Pushed (suc rounds) {l} {ms} {P} fd (b ∷ []) h e bytes k n = record {
  queue = save_uncomplete l fd (header b);
  returned = refl;
  has = Has-eq (sym (append-nil ms)) (λ g. refl) (save-Has fd (header b) h e tt);
}
push_more-Pushed (suc rounds) {l} {ms} {P} fd (b0 ∷ b1 ∷ bytes) h e b k n =
    let size = read_size b0 b1 in
    let rest = drop size bytes in
    let here = take size bytes in
    let left = length-drop size bytes in
    let m : Netpack = record { id = fd; buffer = here } in
    let pushed = push-Has fd here h in
    elim (Bool-cases (ltb (length bytes) size)) [
      | inl q ↦
          let low : length bytes < size = ground (arith, q) in
          rw q (
            Pushed-eq (sym (start-short b0 b1 bytes b.1.0 low)) (record {
              queue = save_uncomplete l fd (body size bytes);
              returned = refl;
              has =
                  Has-eq (sym (append-nil ms)) (λ g. refl) (save-Has fd (body size bytes) h e low);
            }))
      | inr q ↦
          let low : size ≤ length bytes = ground (arith, q) in
          let read = sym (start-long b0 b1 bytes b.1.0 low) in
          elim (Bool-cases (ltb 0 (length rest))) [
            | inl z ↦
                let after =
                  push_more-Pushed rounds fd rest pushed e (drop-AllBytes size bytes b.1.1)
                    (ground (arith, z)) (omega (arith, left, n)) in
                rw (q, z)
                  (Pushed-eq read (record {
                    queue = after.queue;
                    returned = after.returned;
                    has =
                        Has-eq (append_assoc ms (m ∷ []) (packs fd (feed none rest).1)) (λ g. refl)
                          after.has;
                  }))
            | inr z ↦
                rw (q, z)
                  (Pushed-eq (ap (completed here) (sym (nothing_left rest z)) ∙ read) (record {
                    queue = push_data l fd here;
                    returned = refl;
                    has = Has-eq refl (same_waiting P fd e) pushed;
                  }))
          ]
    ]
