-- ===== src/Netpack/Split.antt =====
-- `filter_data_` of lua-netpack.c on a chunk of data, and what comes of the chunks of several sockets.
use skynet_notes.Prelude.{
  ℕ, ◌+◌, ◌-◌, ◌*◌, ◌^◌, ◌≤◌, ◌<◌, ◌≡◌, refl, ap, sym, ◌∙◌, true, false, Option, none, some,
  Option-cases, List, [], ◌∷◌, ◌++◌, length, length-drop, length-append, append_assoc, take, drop,
  ltb, ◌==◌, Bool-cases, inl, inr, bit_or, arith,
}
use skynet_notes.Prelude.Bits.{bit_or-disjoint}
use skynet_notes.Prelude.Bytes.{AllBytes, drop-AllBytes, take_all}
use skynet_notes.Netpack.{
  Netpack, Progress, header, body, Queue, read_size, push_data, save_uncomplete, Reply, nothing,
  packet, more, push_rest, fill, continue_packet, start_packet, filter_data,
}
use skynet_notes.Netpack.Stream.{Fed, known, feed, resume, resume-short, resume-long, completed}
use skynet_notes.Netpack.Waiting.{
  Has, Waits, set_waiting, at_same, find-none, find-some, save-Has, push-Has,
}
use skynet_notes.Netpack.Filter.{
  packs, Has-eq, same_waiting, twice, start-short, start-long, push_more-Pushed,
}

-- The reply for the packets that were completed, and what the queue holds then: one packet is returned, more
-- of them are in the ring.
pub data Outcome (l : Option Queue) (ms : List Netpack) (P : ℕ → Option Progress) (fd : ℕ)
    : Reply → List (List ℕ) → Type 0 where
  waits : Has l ms P → Outcome l ms P fd nothing []
  whole : (b : List ℕ) → Has l ms P → Outcome l ms P fd (packet fd b) (b ∷ [])
  several : (bs : List (List ℕ)) → Has l (ms ++ packs fd bs) P → Outcome l ms P fd more bs

pub record Filtered (r : Option (Option Queue × Reply)) (ms : List Netpack)
    (P : ℕ → Option Progress) (fd : ℕ) (f : Fed) : Type 0 where
  pub queue : Option Queue
  pub reply : Reply
  pub returned : r ≡ some (queue, reply)
  pub outcome : Outcome queue ms (set_waiting P fd f.0) fd reply f.1

Filtered-eq :
    {r : Option (Option Queue × Reply)} {ms : List Netpack} {P : ℕ → Option Progress} {fd : ℕ}
    {f g : Fed}
    → f ≡ g
    → Filtered r ms P fd f
    → Filtered r ms P fd g
Filtered-eq e p = rw e at p

Outcome-eq :
    {l : Option Queue} {ms : List Netpack} {P Q : ℕ → Option Progress} {fd : ℕ} {r : Reply}
    {bs : List (List ℕ)}
    → ((g : ℕ) → P g ≡ Q g)
    → Outcome l ms P fd r bs
    → Outcome l ms Q fd r bs
Outcome-eq w (waits h) = waits (Has-eq refl w h)
Outcome-eq w (whole b h) = whole b (Has-eq refl w h)
Outcome-eq w (several bs h) = several bs (Has-eq refl w h)

empty_rest : (rest : List ℕ) → (length rest == 0) ≡ true → rest ≡ []
empty_rest [] e = refl
empty_rest (b ∷ rest) e = absurd (ground (arith, e))

-- A packet that is complete and is not the last of the chunk.
push_rest-Filtered :
    {l : Option Queue} {ms : List Netpack} {P : ℕ → Option Progress} (fd : ℕ) (packed rest : List ℕ)
    → Has l ms P
    → P fd ≡ none
    → AllBytes rest
    → 0 < length rest
    → Filtered (push_rest (push_data l fd packed) fd rest) ms P fd (completed packed rest)
push_rest-Filtered {l} {ms} {P} fd packed rest h e b k =
    let m : Netpack = record { id = fd; buffer = packed } in
    let after = push_more-Pushed (length rest) fd rest (push-Has fd packed h) e b k (omega arith) in
    record {
      queue = some (after.queue);
      reply = more;
      returned = rw (after.returned) refl;
      outcome =
          several (packed ∷ (feed none rest).1)
            (Has-eq (append_assoc ms (m ∷ []) (packs fd (feed none rest).1)) (λ g. refl) after.has);
    }

-- A packet that is complete with the end of the chunk.
packet-Filtered :
    {l : Option Queue} {ms : List Netpack} {P : ℕ → Option Progress} (fd : ℕ) (packed : List ℕ)
    → Has l ms P
    → P fd ≡ none
    → Filtered (some (l, packet fd packed)) ms P fd (completed packed [])
unfolding feed
packet-Filtered {l} {ms} {P} fd packed h e = record {
  queue = l;
  reply = packet fd packed;
  returned = refl;
  outcome = whole packed (Has-eq refl (same_waiting P fd e) h);
}

saved-Filtered :
    {l : Option Queue} {ms : List Netpack} {P : ℕ → Option Progress} (fd : ℕ) (p : Progress)
    → Has l ms P
    → P fd ≡ none
    → Waits (some p)
    → Filtered (some (some (save_uncomplete l fd p), nothing)) ms P fd (some p, [])
saved-Filtered {l} fd p h e w = record {
  queue = some (save_uncomplete l fd p);
  reply = nothing;
  returned = refl;
  outcome = waits (save-Has fd p h e w);
}

fill-Filtered :
    {q : Queue} {ms : List Netpack} {P : ℕ → Option Progress} (fd size : ℕ) (read buffer : List ℕ)
    → Has (some q) ms P
    → P fd ≡ none
    → AllBytes buffer
    → length read ≤ size
    → Filtered (fill q fd size read buffer) ms P fd (resume (known size read) buffer)
unfolding fill
fill-Filtered {q} {ms} {P} fd size read buffer h e b k =
    let need = size - length read in
    let rest = drop need buffer in
    let packed = read ++ take need buffer in
    elim (Bool-cases (ltb (length buffer) need)) [
      | inl t ↦
          let low : length read + length buffer < size = ground (arith, t) in
          rw t (
            Filtered-eq (sym (resume-short size read buffer low)) (
              saved-Filtered fd (body size (read ++ buffer)) h e
                (omega (arith, low, length-append read buffer))))
      | inr t ↦
          let done = sym (resume-long size read buffer k (ground (arith, t))) in
          elim (Bool-cases (length rest == 0)) [
            | inl z ↦
                rw (t, z)
                  (Filtered-eq (ap (completed packed) (sym (empty_rest rest z)) ∙ done)
                    (packet-Filtered fd packed h e))
            | inr z ↦
                rw (t, z)
                  (Filtered-eq done (
                    push_rest-Filtered fd packed rest h e (drop-AllBytes need buffer b)
                      (ground (arith, z))))
          ]
    ]

start_packet-Filtered :
    {l : Option Queue} {ms : List Netpack} {P : ℕ → Option Progress} (fd : ℕ) (buffer : List ℕ)
    → Has l ms P
    → P fd ≡ none
    → AllBytes buffer
    → 0 < length buffer
    → Filtered (start_packet l fd buffer) ms P fd (feed none buffer)
unfolding start_packet feed
start_packet-Filtered fd [] h e b k = absurd (omega arith)
start_packet-Filtered fd (b0 ∷ []) h e b k = saved-Filtered fd (header b0) h e tt
start_packet-Filtered {l} fd (b0 ∷ b1 ∷ bytes) h e b k =
    let size = read_size b0 b1 in
    let rest = drop size bytes in
    let packed = take size bytes in
    elim (Bool-cases (ltb (length bytes) size)) [
      | inl t ↦
          let low : length bytes < size = ground (arith, t) in
          rw t (
            Filtered-eq (sym (start-short b0 b1 bytes b.1.0 low))
              (saved-Filtered fd (body size bytes) h e low))
      | inr t ↦
          let done = sym (start-long b0 b1 bytes b.1.0 (ground (arith, t))) in
          let left = length-drop size bytes in
          elim (Bool-cases (length bytes == size)) [
            | inl z ↦
                let all : packed ≡ bytes = take_all size bytes (ground (arith, z)) in
                let none_left : rest ≡ [] = empty_rest rest (ground (arith, z, left)) in
                rw (t, z)
                  (Filtered-eq
                    (ap (completed bytes) (sym none_left)
                      ∙ ap (λ (p : List ℕ). completed p rest) (sym all)
                      ∙ done)
                    (packet-Filtered fd bytes h e))
            | inr z ↦
                rw (t, z)
                  (Filtered-eq done (
                    push_rest-Filtered fd packed rest h e (drop-AllBytes size bytes b.1.1)
                      (ground (arith, t, z, left))))
          ]
    ]

Filtered-waiting :
    {r : Option (Option Queue × Reply)} {ms : List Netpack} {P Q : ℕ → Option Progress} {fd : ℕ}
    {f : Fed}
    → ((o : Option Progress) (g : ℕ) → set_waiting P fd o g ≡ set_waiting Q fd o g)
    → Filtered r ms P fd f
    → Filtered r ms Q fd f
Filtered-waiting {f = f} w p = record {
  queue = p.queue;
  reply = p.reply;
  returned = p.returned;
  outcome = Outcome-eq (w f.0) p.outcome;
}

header_size : (h b : ℕ) → b < 256 → bit_or b (h * 2 ^ 8) ≡ h * 256 + b
header_size h b k = bit_or-disjoint 8 b h k ∙ omega arith

continue-Filtered :
    {q : Queue} {ms : List Netpack} {P : ℕ → Option Progress} (fd : ℕ) (p : Progress)
    (buffer : List ℕ)
    → Has (some q) ms P
    → P fd ≡ none
    → Waits (some p)
    → AllBytes buffer
    → 0 < length buffer
    → Filtered (continue_packet q fd p buffer) ms P fd (feed (some p) buffer)
unfolding continue_packet feed
continue-Filtered fd p [] h e w b k = absurd (omega arith)
continue-Filtered fd (header c) (b0 ∷ buffer) h e w b k =
    let size = bit_or b0 (c * 2 ^ 8) in
    Filtered-eq (ap (λ (n : ℕ). resume (known n []) buffer) (header_size c b0 b.0))
      (fill-Filtered fd size [] buffer h e b.1 (omega arith))
continue-Filtered fd (body size read) (b0 ∷ buffer) h e w b k =
    let open_packet : (length read == size) ≡ false = ground (arith, w) in
    let same : known size read ≡ (some (body size read), []) = rw open_packet refl in
    Filtered-eq (ap (λ (f : Fed). resume f (b0 ∷ buffer)) same)
      (fill-Filtered fd size read (b0 ∷ buffer) h e b (omega (arith, w)))

-- On a queue that holds the packets `ms`, and for each socket what waits of its stream, `filter_data_` takes
-- any chunk of at least one byte without failing. It completes the packets that the stream of the socket,
-- read byte by byte, has in this chunk: one that ends with the chunk is returned, several are behind `ms` in
-- the ring, and what is left waits; the other sockets keep what waits for them.
pub filter_data_lem :
    {l : Option Queue} {ms : List Netpack} {P : ℕ → Option Progress} (fd : ℕ) (buffer : List ℕ)
    → Has l ms P
    → AllBytes buffer
    → 0 < length buffer
    → Filtered (filter_data l fd buffer) ms P fd (feed (P fd) buffer)
unfolding filter_data
filter_data_lem {l} {ms} {P} fd buffer h b k = elim (Option-cases (P fd)) [
  | inl e ↦ rw (e, find-none fd h e) (start_packet-Filtered fd buffer h e b k)
  | inr (p, e) ↦
      let f = find-some fd p h e in
      rw (e, f.found)
        (Filtered-waiting (twice P fd)
          (continue-Filtered fd p buffer f.has (at_same P fd none) (rw e at (h.short fd)) b k))
]
