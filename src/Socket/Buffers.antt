-- ===== src/Socket/Buffers.antt =====
-- What sending a list of write buffers of socket_server.c does to the bytes that are left to send.
use skynet_notes.Prelude.{
  ℕ, zero, suc, ◌+◌, ◌≡◌, refl, ap, sym, ◌∙◌, false, List, [], ◌∷◌, ◌++◌, append_assoc, length,
  take, drop, take-append-drop, ◌==◌, Bool-cases, inl, inr, arith,
}
use skynet_notes.Prelude.Bytes.{drop-drop}
use skynet_notes.Socket.{WriteBuffer, unsent, Answer, wrote, interrupted, would_block, broken}
use skynet_notes.Socket.Send.{min, Sent, after, send_list}

abbrev pub concat : List (List ℕ) → List ℕ
concat [] = []
concat (p ∷ ps) = p ++ concat ps

abbrev pub packets : List WriteBuffer → List (List ℕ)
packets [] = []
packets (wb ∷ list) = wb.buffer ∷ packets list

-- The bytes of a list that are left to send.
abbrev pub bytes : List WriteBuffer → List ℕ
bytes [] = []
bytes (wb ∷ list) = unsent wb ++ bytes list

abbrev pub AllWhole : List WriteBuffer → Type 0
AllWhole [] = Unit {0}
AllWhole (wb ∷ list) = (wb.offset ≡ 0) × AllWhole list

pub bytes-append : (l m : List WriteBuffer) → bytes (l ++ m) ≡ bytes l ++ bytes m
bytes-append [] m = refl
bytes-append (wb ∷ l) m = rw (bytes-append l m) (sym (append_assoc (unsent wb) (bytes l) (bytes m)))

pub concat-append : (ps qs : List (List ℕ)) → concat (ps ++ qs) ≡ concat ps ++ concat qs
concat-append [] qs = refl
concat-append (p ∷ ps) qs = rw (concat-append ps qs) (sym (append_assoc p (concat ps) (concat qs)))

pub packets-append : (l m : List WriteBuffer) → packets (l ++ m) ≡ packets l ++ packets m
packets-append [] m = refl
packets-append (wb ∷ l) m = ap (λ (t : List (List ℕ)). wb.buffer ∷ t) (packets-append l m)

pub bytes-whole : (l : List WriteBuffer) → AllWhole l → bytes l ≡ concat (packets l)
bytes-whole [] w = refl
bytes-whole (wb ∷ l) w = rw (w.0, bytes-whole l w.1) refl

advance :
    (wb : WriteBuffer) (n : ℕ)
    → unsent wb ≡ take n (unsent wb) ++ unsent (record wb { offset = wb.offset + n })
advance wb n =
    sym (take-append-drop n (unsent wb))
    ∙ ap (λ (t : List ℕ). take n (unsent wb) ++ t) (drop-drop wb.offset n wb.buffer)

-- No byte is lost, and none is written twice.
pub send_list-bytes :
    (answers : List Answer) (l : List WriteBuffer)
    → bytes l ≡ (send_list answers l).written ++ bytes (send_list answers l).list
unfolding send_list
send_list-bytes [] l = refl
send_list-bytes (a ∷ answers) [] = refl
send_list-bytes (interrupted ∷ answers) (wb ∷ l) = send_list-bytes answers (wb ∷ l)
send_list-bytes (would_block ∷ answers) (wb ∷ l) = refl
send_list-bytes (broken ∷ answers) (wb ∷ l) = refl
send_list-bytes (wrote n ∷ answers) (wb ∷ l) =
    let sz = min n (length (unsent wb)) in
    elim (Bool-cases (sz == length (unsent wb))) [
      | inl e ↦ rw e (
          ap (λ (t : List ℕ). unsent wb ++ t) (send_list-bytes answers l)
          ∙ sym (
              append_assoc (unsent wb) (send_list answers l).written
                (bytes (send_list answers l).list)))
      | inr e ↦ rw e (
          ap (λ (t : List ℕ). t ++ bytes l) (advance wb sz)
          ∙ append_assoc (take sz (unsent wb)) (unsent (record wb { offset = wb.offset + sz }))
              (bytes l))
    ]

-- What is left of a list of which nothing was sent before: some packets were written as a whole, and of the
-- next one perhaps a part.
pub data LowSent (l : List WriteBuffer) : Sent → Type 0 where
  some_whole :
      (done : List WriteBuffer) (r : Sent)
      → l ≡ done ++ r.list
      → AllWhole r.list
      → r.written ≡ concat (packets done)
      → LowSent l r
  some_part :
      (done : List WriteBuffer) (wb : WriteBuffer) (n : ℕ) (rest : List WriteBuffer) (r : Sent)
      → l ≡ done ++ wb ∷ rest
      → r.list ≡ record { buffer = wb.buffer; offset = suc n } ∷ rest
      → AllWhole rest
      → r.written ++ drop (suc n) wb.buffer ≡ concat (packets done) ++ wb.buffer
      → r.failed ≡ false
      → LowSent l r

after-LowSent :
    (wb : WriteBuffer) (l : List WriteBuffer) (r : Sent)
    → wb.offset ≡ 0
    → LowSent l r
    → LowSent (wb ∷ l) (after (unsent wb) r)
after-LowSent wb l r w (some_whole done _ e a c) =
    some_whole (wb ∷ done) (after (unsent wb) r) (ap (λ (t : List WriteBuffer). wb ∷ t) e) a
      (rw (w, c) refl)
after-LowSent wb l r w (some_part done b n rest _ e f a c g) =
    some_part (wb ∷ done) b n rest (after (unsent wb) r) (ap (λ (t : List WriteBuffer). wb ∷ t) e) f
      a
      (rw w (
        append_assoc wb.buffer r.written (drop (suc n) b.buffer)
        ∙ ap (λ (t : List ℕ). wb.buffer ++ t) c
        ∙ sym (append_assoc wb.buffer (concat (packets done)) b.buffer)))
      g

pub send_list-LowSent :
    (answers : List Answer) (l : List WriteBuffer) → AllWhole l → LowSent l (send_list answers l)
unfolding send_list
send_list-LowSent [] l w = some_whole [] _ refl w refl
send_list-LowSent (a ∷ answers) [] w = some_whole [] _ refl w refl
send_list-LowSent (interrupted ∷ answers) (wb ∷ l) w = send_list-LowSent answers (wb ∷ l) w
send_list-LowSent (would_block ∷ answers) (wb ∷ l) w = some_whole [] _ refl w refl
send_list-LowSent (broken ∷ answers) (wb ∷ l) w = some_whole [] _ refl w refl
send_list-LowSent (wrote n ∷ answers) (wb ∷ l) w =
    let sz = min n (length (unsent wb)) in
    elim (Bool-cases (sz == length (unsent wb))) [
      | inl e ↦
          rw e (after-LowSent wb l (send_list answers l) w.0 (send_list-LowSent answers l w.1))
      | inr e ↦ rw e (part sz)
    ]
  where
    part :
        (sz : ℕ)
        → LowSent (wb ∷ l) (record {
          list = record wb { offset = wb.offset + sz } ∷ l;
          written = take sz (unsent wb);
          failed = false;
          answers = answers;
        })
    part zero = some_whole [] _ (rw (w.0) refl) (omega (arith, w.0), w.1) refl
    part (suc m) =
        let e : wb.offset + suc m ≡ suc m = omega (arith, w.0) in
        some_part [] wb m l _ refl (ap (λ (k : ℕ). record wb { offset = k } ∷ l) e) w.1
          (rw (w.0) (take-append-drop (suc m) wb.buffer)) refl
