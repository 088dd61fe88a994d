-- ===== src/Socket/Request/Append.antt =====
-- A packet that send_socket of socket_server.c appends to the lists of a socket.
use skynet_notes.Prelude.{
  ℕ, ◌+◌, ◌≡◌, refl, ap, sym, ◌∙◌, Bool, true, false, ◌&&◌, not, List, [], ◌∷◌, ◌++◌, append-nil,
  append_assoc, length, length-append, leb, either, both, arith,
}
use skynet_notes.Prelude.Interleave.{append_first, append_second}
use skynet_notes.Socket.{WriteBuffer, Socket, is_empty, send_buffer_empty}
use skynet_notes.Socket.Send.{append_high, append_low, warning_size, warn, queue_packet}
use skynet_notes.Socket.Buffers.{
  concat, packets, bytes, AllWhole, bytes-append, concat-append, packets-append,
}
use skynet_notes.Socket.Request.{
  Request, send_packet, want_write, want_close, want_resume, want_pause,
}
use skynet_notes.Socket.Request.Reach.{add_high, add_low}
use skynet_notes.Socket.Request.State.{direct_bytes, Live, Valid, live, empty_list}
use skynet_notes.Socket.Request.Flush.{Keeps}

pub new_buffer :
    (l : List WriteBuffer) (packet : List ℕ)
    → bytes (l ++ record { buffer = packet; offset = 0 } ∷ []) ≡ bytes l ++ packet
new_buffer l packet =
    bytes-append l (record { buffer = packet; offset = 0 } ∷ [])
    ∙ ap (λ (t : List ℕ). bytes l ++ t) (append-nil packet)

pub concat-snoc : (ps : List (List ℕ)) (p : List ℕ) → concat (ps ++ p ∷ []) ≡ concat ps ++ p
concat-snoc ps p = concat-append ps (p ∷ []) ∙ ap (λ (t : List ℕ). concat ps ++ t) (append-nil p)

pub behind :
    (wire direct packet : List ℕ) (l : List WriteBuffer) (front : List (List ℕ))
    → wire ++ (direct ++ bytes l) ≡ concat front
    → wire ++ (direct ++ bytes (l ++ record { buffer = packet; offset = 0 } ∷ []))
      ≡ concat (front ++ packet ∷ [])
behind wire direct packet l front e =
    ap (λ (t : List ℕ). wire ++ (direct ++ t)) (new_buffer l packet)
    ∙ ap (λ (t : List ℕ). wire ++ t) (sym (append_assoc direct (bytes l) packet))
    ∙ sym (append_assoc wire (direct ++ bytes l) packet)
    ∙ ap (λ (t : List ℕ). t ++ packet) e
    ∙ sym (concat-snoc front packet)

pub longer :
    (l : List WriteBuffer) (packet : List ℕ)
    → length (bytes (l ++ record { buffer = packet; offset = 0 } ∷ []))
      ≡ length (bytes l) + length packet
longer l packet = ap length (new_buffer l packet) ∙ length-append (bytes l) packet

pub append_high-Live :
    (packet : List ℕ) (s : Socket) {hs ls : List (List ℕ)}
    → Live s hs ls
    → Live (append_high packet s) (hs ++ packet ∷ []) ls
append_high-Live packet s l = record {
  front = l.front ++ packet ∷ [];
  early = l.early;
  merged = append_first (packet ∷ []) l.merged;
  late = l.late;
  whole = l.whole;
  stream = behind s.wire (direct_bytes s.direct) packet s.high l.front l.stream;
  counted = omega (arith, l.counted, longer s.high packet);
}

-- A packet of low priority is appended to the high list when both lists are empty.
pub append_early-Live :
    (packet : List ℕ) (s : Socket) {hs ls : List (List ℕ)}
    → s.low ≡ []
    → Live s hs ls
    → Live (append_high packet s) hs (ls ++ packet ∷ [])
append_early-Live packet s {ls = ls} e l =
    let all : ls ≡ l.early =
      l.late ∙ ap (λ (t : List WriteBuffer). l.early ++ packets t) e ∙ append-nil l.early in
    record {
      front = l.front ++ packet ∷ [];
      early = l.early ++ packet ∷ [];
      merged = append_second (packet ∷ []) l.merged;
      late = rw (all, e) (sym (append-nil (l.early ++ packet ∷ [])));
      whole = l.whole;
      stream = behind s.wire (direct_bytes s.direct) packet s.high l.front l.stream;
      counted = omega (arith, l.counted, longer s.high packet);
    }

pub snoc-AllWhole :
    (l : List WriteBuffer) (packet : List ℕ)
    → AllWhole l
    → AllWhole (l ++ record { buffer = packet; offset = 0 } ∷ [])
snoc-AllWhole [] packet w = (refl, w)
snoc-AllWhole (wb ∷ l) packet w = (w.0, snoc-AllWhole l packet w.1)

pub append_low-Live :
    (packet : List ℕ) (s : Socket) {hs ls : List (List ℕ)}
    → Live s hs ls
    → Live (append_low packet s) hs (ls ++ packet ∷ [])
append_low-Live packet s {ls = ls} l =
    let new : WriteBuffer = record { buffer = packet; offset = 0 } in
    record {
      front = l.front;
      early = l.early;
      merged = l.merged;
      late =
          ap (λ (t : List (List ℕ)). t ++ packet ∷ []) l.late
          ∙ append_assoc l.early (packets s.low) (packet ∷ [])
          ∙ ap (λ (t : List (List ℕ)). l.early ++ t) (sym (packets-append s.low (new ∷ [])));
      whole = snoc-AllWhole s.low packet l.whole;
      stream = l.stream;
      counted = omega (arith, l.counted, longer s.low packet);
    }

pub warn-Holds :
    (s : Socket) {k : ℕ} {hs ls : List (List ℕ)} → Valid s k → Live s hs ls → Keeps k hs ls (warn s)
warn-Holds s {k} {hs} {ls} v l =
    either (Keeps k hs ls) (leb warning_size s.wb_size && leb s.warn_size s.wb_size) (λ e. live v l)
      (λ e. live v l)

pub add_high-refused : (r : Request) (hs : List (List ℕ)) → add_high r true hs ≡ hs
add_high-refused (send_packet true packet) hs = refl
add_high-refused (send_packet false packet) hs = refl
add_high-refused want_write hs = refl
add_high-refused (want_close shutdown) hs = refl
add_high-refused want_resume hs = refl
add_high-refused want_pause hs = refl

pub add_low-refused : (r : Request) (ls : List (List ℕ)) → add_low r true ls ≡ ls
add_low-refused (send_packet true packet) ls = refl
add_low-refused (send_packet false packet) ls = refl
add_low-refused want_write ls = refl
add_low-refused (want_close shutdown) ls = refl
add_low-refused want_resume ls = refl
add_low-refused want_pause ls = refl

pub both_empty : (s : Socket) → send_buffer_empty s ≡ true → (s.high ≡ []) × (s.low ≡ [])
both_empty s e =
    let p = both (is_empty s.high) (is_empty s.low) e in
    (empty_list s.high p.0, empty_list s.low p.1)

-- A packet that is accepted.
pub accepted :
    (fails low : Bool) (packet : List ℕ) (s : Socket) {k : ℕ} {hs ls : List (List ℕ)}
    → Valid s k
    → Live s hs ls
    → Keeps k
        (add_high (send_packet low packet) false hs)
        (add_low (send_packet low packet) false ls)
        (queue_packet fails low packet s)
accepted fails false packet s {k} {hs} {ls} v l =
    let P = Keeps k (hs ++ packet ∷ []) ls in
    let next = append_high-Live packet s l in
    either P (send_buffer_empty s)
      (λ e.
        either P (not s.writing && fails) (λ f. live v next)
          (λ f. warn-Holds (record (append_high packet s) { writing = true }) v next))
      (λ e. warn-Holds (append_high packet s) v next)
accepted fails true packet s {k} {hs} {ls} v l =
    let P = Keeps k hs (ls ++ packet ∷ []) in
    either P (send_buffer_empty s)
      (λ e.
        let next = append_early-Live packet s (both_empty s e).1 l in
        either P (not s.writing && fails) (λ f. live v next)
          (λ f. warn-Holds (record (append_high packet s) { writing = true }) v next))
      (λ e. warn-Holds (append_low packet s) v (append_low-Live packet s l))
